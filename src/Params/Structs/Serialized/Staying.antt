-- ===== src/Params/Structs/Serialized/Staying.antt =====
-- include/StructInfo.h: a value that is written over itself stays, valid or not.
use mathlib.Core.Path.{subst}
use catena.Base.{◌≡◌, refl, List, [], ◌∷◌, inl, inr, All, Bool-cases, arith}
use catena.Base.Text.{Text}
use catena.Status.{StatusCode, ok, is_ok, is_ok-true, Outcome, Outcome-cases, returns}
use catena.Proto.{
  ProtoValue, int32_value, float32_value, string_value, int32_array_values, float32_array_values,
  string_array_values, ProtoFields,
}
use catena.Authorizer.{Authorizer}
use catena.Params.{Descriptor}
use catena.Params.Convert.{
  valid_int32, from_int32, valid_float32, from_float32, valid_string, from_string,
  valid_int32_array, from_int32_array, valid_float32_array, from_float32_array, valid_string_array,
  from_string_array,
}
use catena.Params.Structs.{
  Kind, int32_kind, float32_kind, string_kind, int32_array_kind, float32_array_kind,
  string_array_kind, Shape, Tree, KindValue, Value, valid, valid_structs, valid_variants,
}
use catena.Params.Structs.Writing.{
  from_kind, checked, write_structs, write_variants, second, from_proto,
}
use catena.Params.Structs.Overwriting.{overwrites}
use catena.Params.Structs.Serialized.{
  Returned, Returned-bind, kind_message, all_structs, all_variants, message_of,
}
use catena.Params.Structs.Serialized.Fits.{FitsKind}

-- Written over itself, a value stays, whatever the validation says.
pub checked-same :
    {A : Type 0} (validated : Outcome StatusCode) (written : Outcome A) (v : A)
    → (validated ≡ returns ok → Returned (λ a. a ≡ v) written)
    → Returned (λ r. r.1 ≡ v) (checked validated written v)
unfolding checked
checked-same validated written v h = elim (Outcome-cases validated) [
  | inl (e, thrown) ↦ rw thrown tt
  | inr (rc, told) ↦ elim (Bool-cases (is_ok rc)) [
    | inl good ↦
        rw (told, good)
          (Returned-bind (λ a. a ≡ v) _ written _ (h (rw (is_ok-true rc good) at told))
            (λ a same. same))
    | inr bad ↦ rw (told, bad) refl
  ]
]

pub second-same :
    {A : Type 0} (o : Outcome (StatusCode × A)) (v : A)
    → Returned (λ r. r.1 ≡ v) o
    → Returned (λ a. a ≡ v) (second o)
second-same o v h = Returned-bind (λ r. r.1 ≡ v) _ o _ h (λ r same. same)

pub kind-same :
    (k : Kind) (v : KindValue k) (d : Descriptor) (authz : Authorizer)
    → FitsKind k v d
    → (from_kind k (kind_message k v) v d authz).1 ≡ v
unfolding from_kind from_int32 from_float32 from_string from_int32_array from_float32_array
    from_string_array
kind-same int32_kind v d authz h =
    elim (Bool-cases (is_ok (valid_int32 (int32_value v) d ok authz))) [
      | inl good ↦ rw good h
      | inr bad ↦ rw bad refl
    ]
kind-same float32_kind v d authz h =
    elim (Bool-cases (is_ok (valid_float32 (float32_value v) d ok authz))) [
      | inl good ↦ rw good h
      | inr bad ↦ rw bad refl
    ]
kind-same string_kind v d authz h =
    elim (Bool-cases (is_ok (valid_string (string_value v) d ok authz))) [
      | inl good ↦ rw good refl
      | inr bad ↦ rw bad refl
    ]
kind-same int32_array_kind v d authz h =
    elim (Bool-cases (is_ok (valid_int32_array (int32_array_values v) d ok authz))) [
      | inl good ↦ rw good h
      | inr bad ↦ rw bad refl
    ]
kind-same float32_array_kind v d authz h =
    elim (Bool-cases (is_ok (valid_float32_array (float32_array_values v) d ok authz))) [
      | inl good ↦ rw good h
      | inr bad ↦ rw bad refl
    ]
kind-same string_array_kind v d authz h =
    elim (Bool-cases (is_ok (valid_string_array (string_array_values v) d ok authz))) [
      | inl good ↦ rw good refl
      | inr bad ↦ rw bad refl
    ]

abbrev pub Stays : (s : Shape) → Value s → Tree → Authorizer → Type 0
Stays s v t authz = Returned (λ r. r.1 ≡ v) (from_proto s (message_of s v) v t authz)

-- A message that is valid gives back the value, whatever it is written over.
pub read_back :
    (s : Shape) (v : Value s) (t : Tree) (authz : Authorizer)
    → Stays s v t authz
    → valid s (message_of s v) t ok authz ≡ returns ok
    → (dst : Value s) → from_proto s (message_of s v) dst t authz ≡ returns (ok, v)
read_back s v t authz h fine dst =
    let (w, told) = overwrites s (message_of s v) t authz fine in
    let same : w ≡ v = subst (λ o. Returned (λ r. r.1 ≡ v) o) (told v) h in rw (told dst, same) refl

pub member-same :
    (s : Shape) (v dst : Value s) (t : Tree) (authz : Authorizer)
    → Stays s v t authz
    → valid s (message_of s v) t ok authz ≡ returns ok
    → Returned (λ a. a ≡ v) (second (from_proto s (message_of s v) dst t authz))
member-same s v dst t authz h fine = rw (read_back s v t authz h fine dst) refl

pub write_structs-same :
    {A : Type 0} (check : ProtoFields → StatusCode → Outcome StatusCode)
    (f : ProtoFields → Outcome A) (g : A → ProtoFields) (P : A → Type 0) (vs : List A)
    → ((v : A) → P v → check (g v) ok ≡ returns ok → Returned (λ a. a ≡ v) (f (g v)))
    → All P vs
    → valid_structs check (all_structs g vs) ok ≡ returns ok
    → Returned (λ as'. as' ≡ vs) (write_structs f (all_structs g vs))
unfolding valid_structs write_structs all_structs
write_structs-same check f g P [] one fit h = refl
write_structs-same check f g P (v ∷ vs) one (p, ps) h = elim (Outcome-cases (check (g v) ok)) [
  | inl (e, thrown) ↦ absurd (let clash = rw thrown at h in ground arith)
  | inr (rc, told) ↦ elim (Bool-cases (is_ok rc)) [
    | inr bad ↦ absurd (let clash = rw (told, bad) at h in ground arith)
    | inl good ↦
        let fine = rw (is_ok-true rc good) at told in
        let later = rw fine at h in
        Returned-bind (λ a. a ≡ v) _ (f (g v)) _ (one v p fine)
          λ a same.
            Returned-bind (λ as'. as' ≡ vs) _ (write_structs f (all_structs g vs)) _
              (write_structs-same check f g P vs one ps later) λ as' rest. rw (same, rest) refl
  ]
]

pub write_variants-same :
    {A : Type 0} (check : Text → ProtoValue → StatusCode → Outcome StatusCode)
    (f : Text → ProtoValue → Outcome A) (g : A → Text × ProtoValue) (P : A → Type 0) (vs : List A)
    → ((v : A)
        → P v
        → check (g v).0 (g v).1 ok ≡ returns ok
        → Returned (λ a. a ≡ v) (f (g v).0 (g v).1))
    → All P vs
    → valid_variants check (all_variants g vs) ok ≡ returns ok
    → Returned (λ as'. as' ≡ vs) (write_variants f (all_variants g vs))
unfolding valid_variants write_variants all_variants
write_variants-same check f g P [] one fit h = refl
write_variants-same check f g P (v ∷ vs) one (p, ps) h =
    elim (Outcome-cases (check (g v).0 (g v).1 ok)) [
      | inl (e, thrown) ↦ absurd (let clash = rw thrown at h in ground arith)
      | inr (rc, told) ↦ elim (Bool-cases (is_ok rc)) [
        | inr bad ↦ absurd (let clash = rw (told, bad) at h in ground arith)
        | inl good ↦
            let fine = rw (is_ok-true rc good) at told in
            let later = rw fine at h in
            Returned-bind (λ a. a ≡ v) _ (f (g v).0 (g v).1) _ (one v p fine)
              λ a same.
                Returned-bind (λ as'. as' ≡ vs) _ (write_variants f (all_variants g vs)) _
                  (write_variants-same check f g P vs one ps later) λ as' rest. rw (same, rest) refl
      ]
    ]
