-- ===== src/Params/Inherited.antt =====
-- What a descriptor takes from its parents.
use catena.Base.{ℕ, ◌≡◌, ◌↔◌, refl, true, false, List, [], ◌∷◌, All, map, arith}
use catena.Base.Text.{Text}
use catena.Authorizer.{Authorizer, write_authz, write_authz_param}
use catena.Params.{
  Attributes, Descriptor, scope_from, get_scope, read_only_from, read_only, can_write,
}

abbrev pub IsWritable : Attributes → Type 0
IsWritable a = a.read_only ≡ false

read_only_from-All :
    (own : Attributes) (parents : List Attributes)
    → (read_only_from own parents ≡ false) ↔ All IsWritable (own ∷ parents)
unfolding read_only_from
read_only_from-All own [] = (λ h. (h, tt), λ h. h.0)
read_only_from-All own (parent ∷ parents) = (
  λ h. (ground arith, (read_only_from-All parent parents).0 (ground arith)),
  λ h. rw (h.0, (read_only_from-All parent parents).1 h.1),
)

-- The scope that a chain of descriptors gives: the first that is named, or the device's.
pub data IsScope (default : Text) : List Text → Text → Type 0 where
  device : IsScope default [] default
  named : {c : ℕ} {s : Text} {rest : List Text} → IsScope default ((c ∷ s) ∷ rest) (c ∷ s)
  inherited : {s : Text} {rest : List Text} → IsScope default rest s → IsScope default ([] ∷ rest) s

abbrev pub scopes : List Attributes → List Text
scopes = map (λ a. a.scope)

scope_from-IsScope :
    (default : Text) (own : Attributes) (parents : List Attributes) (s : Text)
    → own.scope ≡ s
    → IsScope default (scopes (own ∷ parents)) (scope_from default own parents)
scope_from-IsScope default own [] [] e = unfold scope_from in rw (e, scope_from) (inherited device)
scope_from-IsScope default own [] (c ∷ s) e = unfold scope_from in rw (e, scope_from) named
scope_from-IsScope default own (parent ∷ parents) [] e =
    inherit own parent parents e (scope_from-IsScope default parent parents parent.scope refl)
  where
    inherit :
        (o p : Attributes) (ps : List Attributes)
        → o.scope ≡ []
        → IsScope default (scopes (p ∷ ps)) (scope_from default p ps)
        → IsScope default (scopes (o ∷ p ∷ ps)) (scope_from default o (p ∷ ps))
    inherit o p ps e h = unfold scope_from in rw (e, scope_from) (inherited h)
scope_from-IsScope default own (parent ∷ parents) (c ∷ s) e =
    unfold scope_from in rw (e, scope_from) named

-- A client that may write a parameter has the write right of the scope that the chain of
-- descriptors gives, and neither the parameter nor any of its parents is read-only; and the other
-- way round.
pub can_write_iff :
    (d : Descriptor) (authz : Authorizer)
    → IsScope d.device.default_scope (scopes (d.own ∷ d.parents)) (get_scope d)
      × ((can_write authz d ≡ true)
          ↔ (All IsWritable (d.own ∷ d.parents) × (write_authz authz (get_scope d) ≡ true)))
unfolding can_write get_scope read_only write_authz_param
can_write_iff d authz =
    let (to, from) = read_only_from-All d.own d.parents in
    (
      scope_from-IsScope d.device.default_scope d.own d.parents d.own.scope refl,
      (λ h. (to (ground arith), ground arith), λ h. rw (from h.0) h.1),
    )
