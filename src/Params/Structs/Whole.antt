-- ===== src/Params/Structs/Whole.antt =====
-- include/StructInfo.h: `fromProto` writes the whole of a message or nothing of it.
use catena.Base.{◌≡◌, refl, ◌⊎◌, inl, inr, false, Bool-cases, arith}
use catena.Status.{
  StatusCode, ok, is_ok, is_ok-true, Outcome, Outcome-cases, returns, throws, Exception,
  returns-injective,
}
use catena.Proto.{ProtoValue}
use catena.Authorizer.{Authorizer}
use catena.Params.{Descriptor}
use catena.Params.Convert.{
  from_int32, from_float32, from_string, from_int32_array, from_float32_array, from_string_array,
}
use catena.Params.Structs.{
  Kind, int32_kind, float32_kind, string_kind, int32_array_kind, float32_array_kind,
  string_array_kind, Shape, leaf, struct_of, variant_of, struct_array_of, variant_array_of, Tree,
  KindValue, Value, descriptor_of, valid, valid_kind,
}
use catena.Params.Structs.Writing.{from_kind, checked, from_proto}
use catena.Params.Structs.Overwriting.{overwrites}

from_kind-invalid :
    (k : Kind) (src : ProtoValue) (d : Descriptor) (authz : Authorizer)
    → is_ok (valid_kind k src d ok authz) ≡ false
    → (dst : KindValue k) → from_kind k src dst d authz ≡ (valid_kind k src d ok authz, dst)
unfolding valid_kind from_kind from_int32 from_float32 from_string from_int32_array
    from_float32_array from_string_array
from_kind-invalid int32_kind src d authz h dst = rw h refl
from_kind-invalid float32_kind src d authz h dst = rw h refl
from_kind-invalid string_kind src d authz h dst = rw h refl
from_kind-invalid int32_array_kind src d authz h dst = rw h refl
from_kind-invalid float32_array_kind src d authz h dst = rw h refl
from_kind-invalid string_array_kind src d authz h dst = rw h refl

checked-invalid :
    {A : Type 0} (validated : Outcome StatusCode) (written : Outcome A) (dst : A) (rc : StatusCode)
    → validated ≡ returns rc
    → is_ok rc ≡ false
    → checked validated written dst ≡ returns (rc, dst)
unfolding checked
checked-invalid validated written dst rc v bad = rw (v, bad) refl

checked-throws :
    {A : Type 0} (validated : Outcome StatusCode) (written : Outcome A) (dst : A) (e : Exception)
    → validated ≡ throws e
    → checked validated written dst ≡ throws e
unfolding checked
checked-throws validated written dst e v = rw v refl

abbrev Keeps : (s : Shape) → ProtoValue → Tree → Authorizer → StatusCode → Type 0
Keeps s src t authz rc = (dst : Value s) → from_proto s src dst t authz ≡ returns (rc, dst)

keeps :
    (s : Shape) (src : ProtoValue) (t : Tree) (authz : Authorizer) (rc : StatusCode)
    → valid s src t ok authz ≡ returns rc
    → is_ok rc ≡ false
    → Keeps s src t authz rc
unfolding valid Value from_proto
keeps (leaf k) src t authz rc h bad dst =
    let same : valid_kind k src (descriptor_of t) ok authz ≡ rc = returns-injective h in
    rw (from_kind-invalid k src (descriptor_of t) authz (rw same bad) dst, same) refl
keeps (struct_of fs) src t authz rc h bad dst = checked-invalid _ _ dst rc h bad
keeps (variant_of n s alts) src t authz rc h bad dst = checked-invalid _ _ dst rc h bad
keeps (struct_array_of fs) src t authz rc h bad dst = checked-invalid _ _ dst rc h bad
keeps (variant_array_of n s alts) src t authz rc h bad dst = checked-invalid _ _ dst rc h bad

raises :
    (s : Shape) (src : ProtoValue) (t : Tree) (authz : Authorizer) (e : Exception)
    → valid s src t ok authz ≡ throws e
    → (dst : Value s) → from_proto s src dst t authz ≡ throws e
unfolding valid Value from_proto
raises (leaf k) src t authz e h dst = absurd (ground arith)
raises (struct_of fs) src t authz e h dst = checked-throws _ _ dst e h
raises (variant_of n s alts) src t authz e h dst = checked-throws _ _ dst e h
raises (struct_array_of fs) src t authz e h dst = checked-throws _ _ dst e h
raises (variant_array_of n s alts) src t authz e h dst = checked-throws _ _ dst e h

-- `fromProto` is all or nothing for every type that is built of structs, variants and arrays of them:
-- where the validation throws, it throws the same; where the validation says `OK`, it says `OK` and
-- writes a value that does not depend on what stood there; and where the validation says anything else,
-- it says the same and leaves what stood there.
pub from_proto-valid :
    (s : Shape) (src : ProtoValue) (t : Tree) (authz : Authorizer)
    → ((e : Exception) × ((valid s src t ok authz ≡ throws e)
          × ((dst : Value s) → from_proto s src dst t authz ≡ throws e)))
      ⊎ ((valid s src t ok authz ≡ returns ok)
          × ((v : Value s) × ((dst : Value s) → from_proto s src dst t authz ≡ returns (ok, v))))
      ⊎ ((rc : StatusCode) × ((valid s src t ok authz ≡ returns rc)
            × ((is_ok rc ≡ false)
                × ((dst : Value s) → from_proto s src dst t authz ≡ returns (rc, dst)))))
from_proto-valid s src t authz = elim (Outcome-cases (valid s src t ok authz)) [
  | inl (e, thrown) ↦ inl (e, (thrown, raises s src t authz e thrown))
  | inr (rc, read) ↦ elim (Bool-cases (is_ok rc)) [
    | inl good ↦
        let fine = rw (is_ok-true rc good) at read in
        inr (inl (fine, overwrites s src t authz fine))
    | inr bad ↦ inr (inr (rc, (read, (bad, keeps s src t authz rc read bad))))
  ]
]
