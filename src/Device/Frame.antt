-- ===== src/Device/Frame.antt =====
-- What a commit of values leaves as it was.
use catena.Base.{
  ℕ, ◌≡◌, refl, ◌∙◌, ◌⊎◌, inl, inr, false, List, [], ◌∷◌, Option, none, some, Bool-cases,
  Option-cases, ◌==◌, arith,
}
use catena.Base.Text.{Text, eqb, lookup, lookup-insert}
use catena.Status.{Outcome-cases, StatusCode, returns, with_status, std_exception, null_dereference}
use catena.Authorizer.{Authorizer}
use catena.ParamPath.{
  ParamPath, parse, back_is_index, back_as_index, pop_back, front_as_string, pop, push_back_index,
  k_end,
}
use catena.Params.{Descriptor}
use catena.Params.Stored.{Stored, member, add_back, size, from_proto}
use catena.Device.{Device, Param}
use catena.Device.Lookup.{Target, Found, absent, present, find_param, get_param, top_level}
use catena.Device.Values.{
  SetValue, owner, store, write_value, commit_member, commit_one, commit_multi_set_value,
}

abbrev pub descriptor_of : Option Param → Option Descriptor
descriptor_of none = none
descriptor_of (some p) = some p.descriptor

-- Everything of a device but the values of the parameters in a set of names, and the signals.
pub record IsFramed (k : Text) (d d' : Device) : Type 0 where
  pub value : lookup k d'.params ≡ lookup k d.params
  pub commands : d'.commands ≡ d.commands
  pub packs : d'.language_packs ≡ d.language_packs
  pub added : d'.added_packs ≡ d.added_packs

same : (k : Text) (d : Device) → IsFramed k d d
same k d = record { value = refl; commands = refl; packs = refl; added = refl }

chain : (k : Text) (c d e : Device) → IsFramed k c d → IsFramed k d e → IsFramed k c e
chain k c d e f g = record {
  value = g.value ∙ f.value;
  commands = g.commands ∙ f.commands;
  packs = g.packs ∙ f.packs;
  added = g.added ∙ f.added;
}

pub Found-cases :
    (f : Found) → ((rc : StatusCode) × (f ≡ absent rc)) ⊎ ((t : Target) × (f ≡ present t))
Found-cases (absent rc) = inl (rc, refl)
Found-cases (present t) = inr (t, refl)

find_param-name :
    (target : Target) (path : ParamPath) (authz : Authorizer) (t : Target)
    → (find_param target path authz).0 ≡ present t
    → t.name ≡ target.name
unfolding find_param
find_param-name target path authz t h = ground arith

get_param-name :
    (d : Device) (path : ParamPath) (authz : Authorizer) (t : Target)
    → (get_param d path authz).0 ≡ present t
    → t.name ≡ front_as_string path
unfolding get_param
get_param-name d path authz t h = elim (Option-cases (lookup (front_as_string path) d.params)) [
  | inl missing ↦ ground arith
  | inr (p, here) ↦
      ground (arith, find_param-name (top_level (front_as_string path) p) (pop path) authz t)
]

store-IsFramed :
    (t : Target) (v : Stored) (d : Device) (k : Text)
    → eqb t.name k ≡ false
    → IsFramed k d (store t v d)
unfolding store
store-IsFramed t v d k other = elim (Option-cases (lookup t.name d.params)) [
  | inl missing ↦ rw (missing, store) (same k d)
  | inr (p, found) ↦
      rw (found, store)
        (record {
          value = rw (lookup-insert t.name k _ d.params, other);
          commands = refl;
          packs = refl;
          added = refl;
        })
]

write_value-IsFramed :
    (d : Device) (t : Target) (v : SetValue) (authz : Authorizer) (k : Text)
    → eqb t.name k ≡ false
    → IsFramed k d ((write_value d t v authz).1)
unfolding write_value
write_value-IsFramed d t v authz k other =
    let f = store-IsFramed t ((from_proto v.value t.value t.descriptor authz).1) d k other in
    record { value = f.value; commands = f.commands; packs = f.packs; added = f.added }

commit_member-IsFramed :
    (d : Device) (authz : Authorizer) (v : SetValue) (parent : Target) (i : ℕ) (path : ParamPath)
    (k : Text)
    → eqb parent.name k ≡ false
    → IsFramed k d ((commit_member d authz v parent i path).1)
unfolding commit_member
commit_member-IsFramed d authz v parent i path k other = elim (Bool-cases (i == k_end)) [
  | inl end ↦ elim (Option-cases ((add_back parent.value parent.descriptor authz).1)) [
    | inl full ↦ rw (commit_member, end, full) (same k d)
    | inr (longer, more) ↦ elim (Option-cases (member longer (size parent.value))) [
      | inl missing ↦
          rw (commit_member, end, more, missing) (store-IsFramed parent longer d k other)
      | inr (new, last) ↦
          rw (commit_member, end, more, last)
            (chain k d (store parent longer d) _ (store-IsFramed parent longer d k other) (
              write_value-IsFramed (store parent longer d)
                (record parent { index = some (size parent.value); value = new }) v authz k other))
    ]
  ]
  | inr at ↦ elim (Found-cases ((find_param parent (push_back_index i path) authz).0)) [
    | inl (rc, missing) ↦ rw (commit_member, at, missing) (same k d)
    | inr (t, found) ↦
        rw (commit_member, at, found)
          (write_value-IsFramed d t v authz k (rw (find_param-name parent _ authz t found) other))
  ]
]

-- No value of the list is for the parameter of this name.
unfoldable pub Spares : Text → List SetValue → Type 0
Spares k [] = Unit
Spares k (v ∷ vs) =
    ((path : ParamPath)
      → parse v.oid ≡ returns path
      → eqb (front_as_string ((owner path).0)) k ≡ false)
    × Spares k vs

commit_one-IsFramed :
    (d : Device) (authz : Authorizer) (v : SetValue) (k : Text)
    → ((path : ParamPath)
        → parse v.oid ≡ returns path
        → eqb (front_as_string ((owner path).0)) k ≡ false)
    → IsFramed k d ((commit_one d authz v).1)
unfolding commit_one
commit_one-IsFramed d authz v k other = elim (Outcome-cases (parse v.oid)) [
  | inl (e, bad) ↦ rw (commit_one, bad) (same k d)
  | inr (path, good) ↦ elim (Bool-cases (back_is_index path)) [
    | inl ends ↦ elim (Found-cases ((get_param d (pop_back path) authz).0)) [
      | inl (rc, missing) ↦ rw (commit_one, good, ends, missing) (same k d)
      | inr (t, found) ↦
          rw (commit_one, good, ends, found)
            (commit_member-IsFramed d authz v t (back_as_index path) _ k
              (rw (get_param-name d (pop_back path) authz t found) (rw ends at (other path good))))
    ]
    | inr whole ↦ elim (Found-cases ((get_param d path authz).0)) [
      | inl (rc, missing) ↦ rw (commit_one, good, whole, missing) (same k d)
      | inr (t, found) ↦
          rw (commit_one, good, whole, found)
            (write_value-IsFramed d t v authz k
              (rw (get_param-name d path authz t found) (rw whole at (other path good))))
    ]
  ]
]

-- A commit of any values, whether it returns or throws midway, leaves the value of a parameter that
-- none of them is for, the commands, the language packs and the record of which were added.
pub commit_multi_set_value-IsFramed :
    (d : Device) (vs : List SetValue) (ans : StatusCode) (authz : Authorizer) (k : Text)
    → Spares k vs
    → IsFramed k d ((commit_multi_set_value d vs ans authz).1)
unfolding commit_multi_set_value Spares
commit_multi_set_value-IsFramed d [] ans authz k other = same k d
commit_multi_set_value-IsFramed d (v ∷ vs) ans authz k (first, others) =
    let one = commit_one-IsFramed d authz v k first in
    elim (Outcome-cases ((commit_one d authz v).0)) [
      | inl (with_status rc, bad) ↦ rw (bad, commit_multi_set_value) one
      | inl (std_exception, bad) ↦ rw (bad, commit_multi_set_value) one
      | inl (null_dereference, bad) ↦ rw (bad, commit_multi_set_value) one
      | inr (rc, good) ↦
          rw (good, commit_multi_set_value)
            (chain k d ((commit_one d authz v).1) _ one
              (commit_multi_set_value-IsFramed ((commit_one d authz v).1) vs rc authz k others))
    ]
