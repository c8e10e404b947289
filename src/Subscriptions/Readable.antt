-- ===== src/Subscriptions/Readable.antt =====
-- What the wildcard of all adds: the parameters that the client may read.
use catena.Base.{
  ℕ, suc, ◌≡◌, refl, ap, ◌∙◌, sym, inl, inr, true, ◌||◌, ◌&&◌, List, [], ◌∷◌, some, any, All,
  Bool-cases, if◌then◌else◌, arith,
}
use catena.Base.Text.{Text, eqb, lookup}
use catena.Base.TextSet.{contains}
use catena.Status.{StatusCode, returns}
use catena.Authorizer.{Authorizer}
use catena.ParamPath.{string, empty, pop, front_is_string, front_as_string}
use catena.Params.{can_read}
use catena.Device.{Device, Param}
use catena.Device.Lookup.{Target, present, get_param, get_top_level_params, top_level}
use catena.Visitor.{walked, next, traverse_params, subscription_visitor}
use catena.Visitor.Paths.{at_front, parse-top}
use catena.Visitor.Below.{IsFlat}
use catena.Visitor.Flat.{IsEntered, traverse_top}
use catena.Subscriptions.Adding.{add_targets}

-- The parameters that the client may read.
pub readable : Authorizer → List (Text × Param) → List Target
readable authz [] = []
readable authz ((name, p) ∷ ps) =
    if can_read authz p.descriptor then top_level name p ∷ readable authz ps else readable authz ps

get_param-top :
    (d : Device) (authz : Authorizer) (name : Text) (p : Param)
    → lookup name d.params ≡ some p
    → can_read authz p.descriptor ≡ true
    → (get_param d (at_front (string name ∷ [])) authz).0 ≡ present (top_level name p)
unfolding get_param empty pop front_is_string front_as_string
get_param-top d authz name p found allowed = rw (found, allowed)

pub get_top_level_params-readable :
    (d : Device) (authz : Authorizer) (rc : StatusCode) (ps : List (Text × Param))
    → All (IsFlat d) ps
    → get_top_level_params d authz rc ps ≡ returns (rc, readable authz ps)
unfolding get_top_level_params readable
get_top_level_params-readable d authz rc [] flat = refl
get_top_level_params-readable d authz rc ((name, p) ∷ ps) (flat, rest) =
    elim (Bool-cases (can_read authz p.descriptor)) [
      | inr denied ↦ rw denied (get_top_level_params-readable d authz rc ps rest)
      | inl allowed ↦
          rw
            (
              allowed,
              parse-top name flat.named,
              get_param-top d authz name p flat.found allowed,
              get_top_level_params-readable d authz rc ps rest,
            )
            refl
    ]

add_targets_step :
    (d : Device) (authz : Authorizer) (fuel : ℕ) (t : Target) (ts : List Target) (path : Text)
    (oids mid : List Text)
    → can_read authz t.descriptor ≡ true
    → path ≡ b'/' ∷ t.descriptor.own.oid
    → traverse_params d authz subscription_visitor fuel t path oids ≡ walked mid
    → add_targets fuel d authz (t ∷ ts) oids ≡ add_targets fuel d authz ts mid
unfolding add_targets next
add_targets_step d authz fuel t ts path oids mid allowed same first =
    let first' = rw same at first in rw (allowed, first')

readable_allowed :
    (authz : Authorizer) (name : Text) (p : Param) (ps : List (Text × Param))
    → can_read authz p.descriptor ≡ true
    → readable authz ((name, p) ∷ ps) ≡ top_level name p ∷ readable authz ps
unfolding readable
readable_allowed authz name p ps allowed = rw allowed

pub add_targets-readable :
    (d : Device) (authz : Authorizer) (n : ℕ) (ps : List (Text × Param)) (oids : List Text)
    → All (IsFlat d) d.params
    → All (IsFlat d) ps
    → (after : List Text) × ((add_targets (suc (suc n)) d authz (readable authz ps) oids
          ≡ walked after)
        × ((o : Text)
            → contains o after ≡ (
                any (λ e. eqb (b'/' ∷ e.0) o && can_read authz e.1.descriptor) ps
                || contains o oids)))
unfolding add_targets readable next IsEntered
add_targets-readable d authz n [] oids all flat = (oids, (refl, λ o. refl))
add_targets-readable d authz n ((name, p) ∷ ps) oids all (flat, rest) =
    elim (Bool-cases (can_read authz p.descriptor)) [
      | inr denied ↦
          let (after, (same, told)) = add_targets-readable d authz n ps oids all rest in
          (after, (rw denied same, λ o. rw denied (ground (arith, told o))))
      | inl allowed ↦
          let (mid, (first, entered)) =
            traverse_top d authz n (top_level name p) (b'/' ∷ name) name oids all
              (parse-top name flat.named) flat.no_fields in
          let (after, (same, told)) = add_targets-readable d authz n ps mid all rest in
          (
            after,
            (
              rw (readable_allowed authz name p ps allowed) (
                  add_targets_step d authz (suc (suc n)) (top_level name p) (readable authz ps)
                    (b'/' ∷ name) oids mid allowed (ap (λ x. b'/' ∷ x) (sym flat.same_oid)) first
                  ∙ same),
              λ o. rw allowed (ground (arith, told o, entered o)),
            ),
          )
    ]
