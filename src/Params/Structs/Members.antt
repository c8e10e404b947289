-- ===== src/Params/Structs/Members.antt =====
-- include/StructInfo.h: what the validation of a message says of its fields, members and alternative.
use catena.Base.{
  ◌≡◌, refl, ap, ◌⊎◌, inl, inr, true, List, [], ◌∷◌, Option, none, some, map, if◌then◌else◌,
  Bool-cases, arith,
}
use catena.Base.Text.{Text, eqb}
use catena.Status.{
  StatusCode, ok, is_ok, is_ok-true, invalid_argument, Outcome, Outcome-cases, returns,
  returns-injective, ◌>>=◌, >>=-eq-returns,
}
use catena.Proto.{
  ProtoValue, struct_value, ProtoFields, ProtoStructs, no_structs, struct, ProtoVariants,
  no_variants, variant, int32_value, float32_value, get_int32, get_float32, get_string, get_ints,
  get_floats, get_strings,
}
use catena.Authorizer.{Authorizer}
use catena.Params.{Descriptor}
use catena.Params.Convert.{
  from_int32, from_float32, from_string, from_int32_array, from_float32_array, from_string_array,
  constrain,
}
use catena.Params.Structs.{
  valid_fields, Kind, int32_kind, float32_kind, string_kind, int32_array_kind, float32_array_kind,
  string_array_kind, Shape, Shapes, no_shapes, shape, Tree, KindValue, Value, subs_of, find_field,
  get_sub_param, with_sub, field_check, valid, valid_kind, valid_structs, valid_variants,
}
use catena.Params.Structs.Writing.{from_kind, write_structs, write_variants, second, from_proto}

-- What a valid message writes, whatever stood there before.
pub from_kind-valid_kind :
    (k : Kind) (src : ProtoValue) (d : Descriptor) (authz : Authorizer)
    → valid_kind k src d ok authz ≡ ok
    → (v : KindValue k) × ((dst : KindValue k) → from_kind k src dst d authz ≡ (ok, v))
unfolding valid_kind from_kind from_int32 from_float32 from_string from_int32_array
    from_float32_array from_string_array
from_kind-valid_kind int32_kind src d authz h = (get_int32 (constrain d src), λ dst. rw h refl)
from_kind-valid_kind float32_kind src d authz h = (get_float32 (constrain d src), λ dst. rw h refl)
from_kind-valid_kind string_kind src d authz h = (get_string src, λ dst. rw h refl)
from_kind-valid_kind int32_array_kind src d authz h =
    (map (λ i. get_int32 (constrain d (int32_value i))) (get_ints src), λ dst. rw h refl)
from_kind-valid_kind float32_array_kind src d authz h =
    (map (λ f. get_float32 (constrain d (float32_value f))) (get_floats src), λ dst. rw h refl)
from_kind-valid_kind string_array_kind src d authz h = (get_strings src, λ dst. rw h refl)

struct_only :
    (src : ProtoValue) (g : ProtoFields → Outcome StatusCode)
    → (elim src [ struct_value fields ↦ g fields | _ ↦ returns invalid_argument ]) ≡ returns ok
    → (fields : ProtoFields) × ((src ≡ struct_value fields) × (g fields ≡ returns ok))
struct_only (struct_value fields) g h = (fields, (refl, h))
struct_only _ g h = absurd (ground arith)

-- A member of an array that is valid can be written.
pub write_structs-valid :
    {A : Type 0} (check : ProtoFields → StatusCode → Outcome StatusCode)
    (f : ProtoFields → Outcome A) (items : ProtoStructs)
    → ((item : ProtoFields) → check item ok ≡ returns ok → (a : A) × (f item ≡ returns a))
    → valid_structs check items ok ≡ returns ok
    → (all : List A) × (write_structs f items ≡ returns all)
unfolding valid_structs write_structs
write_structs-valid check f no_structs one h = ([], refl)
write_structs-valid check f (struct item items) one h = elim (Outcome-cases (check item ok)) [
  | inl (e, thrown) ↦ absurd (let clash = rw (thrown, valid_structs) at h in ground arith)
  | inr (rc, read) ↦ elim (Bool-cases (is_ok rc)) [
    | inr bad ↦ absurd (let same = rw (read, bad, valid_structs) at h in ground arith)
    | inl good ↦
        let rc_ok = is_ok-true rc good in
        let (a, first) = one item (rw rc_ok at read) in
        let (rest, later) =
          write_structs-valid check f items one (rw (read, rc_ok, valid_structs) at h) in
        (a ∷ rest, rw (first, later) refl)
  ]
]

pub write_variants-valid :
    {A : Type 0} (check : Text → ProtoValue → StatusCode → Outcome StatusCode)
    (f : Text → ProtoValue → Outcome A) (items : ProtoVariants)
    → ((n : Text) (x : ProtoValue) → check n x ok ≡ returns ok → (a : A) × (f n x ≡ returns a))
    → valid_variants check items ok ≡ returns ok
    → (all : List A) × (write_variants f items ≡ returns all)
unfolding valid_variants write_variants
write_variants-valid check f no_variants one h = ([], refl)
write_variants-valid check f (variant n x items) one h = elim (Outcome-cases (check n x ok)) [
  | inl (e, thrown) ↦ absurd (let clash = rw (thrown, valid_variants) at h in ground arith)
  | inr (rc, read) ↦ elim (Bool-cases (is_ok rc)) [
    | inr bad ↦ absurd (let same = rw (read, bad, valid_variants) at h in ground arith)
    | inl good ↦
        let rc_ok = is_ok-true rc good in
        let (a, first) = one n x (rw rc_ok at read) in
        let (rest, later) =
          write_variants-valid check f items one (rw (read, rc_ok, valid_variants) at h) in
        (a ∷ rest, rw (first, later) refl)
  ]
]

pub with_sub_ok :
    {A : Type 0} (n : Text) (t : Tree) (f : Tree → Outcome A) (a : A)
    → with_sub n t f ≡ returns a
    → (below : Tree) × ((get_sub_param n (subs_of t) ≡ returns below) × (f below ≡ returns a))
unfolding with_sub
with_sub_ok n t f a h =
    let (below, found, e) = >>=-eq-returns (get_sub_param n (subs_of t)) f h in (below, (found, e))

pub with_sub_at :
    {A : Type 0} (n : Text) (t below : Tree) (f : Tree → Outcome A)
    → get_sub_param n (subs_of t) ≡ returns below
    → with_sub n t f ≡ f below
unfolding with_sub
with_sub_at n t below f h = rw h

-- The message is written over whatever stands there, with this result.
abbrev pub Overwrites : (s : Shape) → ProtoValue → Tree → Authorizer → Type 0
Overwrites s src t authz =
    (v : Value s) × ((dst : Value s) → from_proto s src dst t authz ≡ returns (ok, v))

-- The same for an alternative, the first of a variant or one of the others.
pub alternative_written :
    {B C : Type 0} (s : Shape) (n type : Text) (v : ProtoValue) (t : Tree) (authz : Authorizer)
    (others : Outcome StatusCode) (write : C → Outcome B)
    → ((below : Tree) → valid s v below ok authz ≡ returns ok → Overwrites s v below authz)
    → (others ≡ returns ok → (b : B) × ((c : C) → write c ≡ returns b))
    → (if eqb n type
        then with_sub type t (λ below. field_check (λ x. valid s x below ok authz) (some v) ok)
        else others)
      ≡ returns ok
    → (r : Value s ⊎ B) × ((d : Value s) (c : C)
        → (if eqb n type
            then with_sub type t (λ below. second (from_proto s v d below authz))
              >>= (λ a. returns (inl a))
            else write c >>= (λ b. returns (inr b)))
          ≡ returns r)
alternative_written s n type v t authz others write here there h = elim (Bool-cases (eqb n type)) [
  | inl same ↦
      let (below, (found, e)) = with_sub_ok type t _ ok (rw same at h) in
      let (a, told) = here below (unfold field_check in e) in
      (
        inl a,
        λ d c.
            rw
              (
                same,
                with_sub_at type t below (λ b. second (from_proto s v d b authz)) found,
                told d,
              )
              refl,
      )
  | inr other ↦ let (b, told) = there (rw other at h) in (inr b, λ d c. rw (other, told c) refl)
]

-- A status that is not `OK` stays.
pub valid_fields_ok :
    (fs : Shapes) (items : ProtoFields) (t : Tree) (rc : StatusCode) (authz : Authorizer)
    → valid_fields fs items t rc authz ≡ returns ok
    → is_ok rc ≡ true
unfolding valid
valid_fields_ok no_shapes items t rc authz h = ap is_ok (returns-injective h)
valid_fields_ok (shape n s fs) items t rc authz h =
    let (below, (found, e)) = with_sub_ok n t _ ok h in
    let (rc', checked_rc, later) =
      >>=-eq-returns (field_check (λ v. valid s v below rc authz) (find_field n items) rc) _ e in
    let good = valid_fields_ok fs items t rc' authz later in
    elim (Bool-cases (is_ok rc)) [
      | inl fine ↦ fine
      | inr bad ↦
          let same : rc ≡ rc' =
            returns-injective (unfold field_check in rw (bad, field_check) at checked_rc) in
          rw same good
    ]

-- The fields: one that is valid is there, and its own message is valid.
pub field_check_ok :
    (check : ProtoValue → Outcome StatusCode) (found : Option ProtoValue) (rc : StatusCode)
    → field_check check found ok ≡ returns rc
    → is_ok rc ≡ true
    → (v : ProtoValue) × ((found ≡ some v) × (check v ≡ returns ok))
unfolding field_check
field_check_ok check none rc h good = absurd (let same = returns-injective h in ground arith)
field_check_ok check (some v) rc h good = (v, (refl, rw (is_ok-true rc good) at h))
