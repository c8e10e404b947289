-- ===== src/Params/Structs/Writing.antt =====
-- include/StructInfo.h: `fromProto` of structs, of variants and of arrays of them.
--
-- An exception loses what was written before it; none comes behind a validation that went well.
use catena.Base.{List, [], ◌∷◌, Option, none, some, ◌⊎◌, inl, inr, if◌then◌else◌}
use catena.Base.Int.{pos}
use catena.Base.Text.{Text, eqb}
use catena.Status.{StatusCode, ok, is_ok, Outcome, returns, throws, std_exception, ◌>>=◌}
use catena.Proto.{
  ProtoValue, struct_value, struct_variant_value, struct_array_values, struct_variant_array_values,
  ProtoFields, ProtoStructs, no_structs, struct, ProtoVariants, no_variants, variant,
}
use catena.Authorizer.{Authorizer}
use catena.Params.{Descriptor}
use catena.Params.Convert.{
  from_int32, from_float32, from_string, from_int32_array, from_float32_array, from_string_array,
}
use catena.Params.Structs.{
  Kind, int32_kind, float32_kind, string_kind, int32_array_kind, float32_array_kind,
  string_array_kind, Shape, leaf, struct_of, variant_of, struct_array_of, variant_array_of, Shapes,
  no_shapes, shape, Tree, KindValue, Value, Fields, Alternatives, descriptor_of, find_field,
  with_sub, valid,
}

unfoldable pub from_kind :
    (k : Kind) → ProtoValue → KindValue k → Descriptor → Authorizer → StatusCode × KindValue k
from_kind int32_kind = from_int32
from_kind float32_kind = from_float32
from_kind string_kind = from_string
from_kind int32_array_kind = from_int32_array
from_kind float32_array_kind = from_float32_array
from_kind string_array_kind = from_string_array

abbrev pub default_kind : (k : Kind) → KindValue k
default_kind int32_kind = pos 0
default_kind float32_kind = 0
default_kind string_kind = []
default_kind int32_array_kind = []
default_kind float32_array_kind = []
default_kind string_array_kind = []

-- `T{}`: a variant holds its first alternative.
unfoldable mutual
  unfolding Value

  pub default : (s : Shape) → Value s
  default (leaf k) = default_kind k
  default (struct_of fs) = default_fields fs
  default (variant_of n s alts) = inl (default s)
  default (struct_array_of fs) = []
  default (variant_array_of n s alts) = []

  pub default_fields : (fs : Shapes) → Fields fs
  default_fields no_shapes = tt
  default_fields (shape n s fs) = (default s, default_fields fs)

-- A conversion that is made once the message is valid; the status is that of the validation.
unfoldable pub checked :
    {A : Type 0} → Outcome StatusCode → Outcome A → A → Outcome (StatusCode × A)
checked validated written dst =
    validated >>= λ rc. (if is_ok rc then written >>= (λ a. returns (rc, a)) else returns (rc, dst))

-- `dst->emplace_back()` and the conversion of the item into it.
unfoldable pub write_structs :
    {A : Type 0} → (ProtoFields → Outcome A) → ProtoStructs → Outcome (List A)
write_structs f no_structs = returns []
write_structs f (struct item items) =
    f item >>= λ a. (write_structs f items >>= λ as'. returns (a ∷ as'))

unfoldable pub write_variants :
    {A : Type 0} → (Text → ProtoValue → Outcome A) → ProtoVariants → Outcome (List A)
write_variants f no_variants = returns []
write_variants f (variant n v items) =
    f n v >>= λ a. (write_variants f items >>= λ as'. returns (a ∷ as'))

abbrev pub second : {A : Type 0} → Outcome (StatusCode × A) → Outcome A
second m = m >>= λ r. returns r.1

-- `_changeType` where the alternative is another: what the first alternative, or one of the others, is
-- converted into.
abbrev pub kept_first : {A B : Type 0} → A → A ⊎ B → A
kept_first a (inl x) = x
kept_first a (inr y) = a

abbrev pub kept_other : {A B : Type 0} → Option (A ⊎ B) → Option B
kept_other none = none
kept_other (some (inl x)) = none
kept_other (some (inr y)) = some y

abbrev pub kept_here : {A B : Type 0} → A → Option (A ⊎ B) → A
kept_here a none = a
kept_here a (some x) = kept_first a x

-- `fromProto`
unfoldable mutual
  unfolding Value from_kind default checked write_structs write_variants with_sub find_field valid

  pub from_proto :
      (s : Shape) → ProtoValue → Value s → Tree → Authorizer → Outcome (StatusCode × Value s)
  from_proto (leaf k) src dst t authz = returns (from_kind k src dst (descriptor_of t) authz)
  from_proto (struct_of fs) src dst t authz =
      checked (valid (struct_of fs) src t ok authz)
        (elim src [
          | struct_value items ↦ from_fields fs items dst t authz
          | _ ↦ throws std_exception
        ])
        dst
  from_proto (variant_of n s alts) src dst t authz =
      checked (valid (variant_of n s alts) src t ok authz)
        (elim src [
          | struct_variant_value type v ↦
              let here =
                with_sub type t
                  (λ below. second (from_proto s v (kept_first (default s) dst) below authz)) in
              let others = from_others alts type v (kept_other (some dst)) t authz in
              if eqb n type
              then here >>= (λ a. returns (inl a))
              else others >>= (λ b. returns (inr b))
          | _ ↦ throws std_exception
        ])
        dst
  from_proto (struct_array_of fs) src dst t authz =
      checked (valid (struct_array_of fs) src t ok authz)
        (elim src [
          | struct_array_values items ↦
              write_structs
                (λ item. second (
                  checked (valid (struct_of fs) (struct_value item) t ok authz)
                    (from_fields fs item (default_fields fs) t authz) (default_fields fs)))
                items
          | _ ↦ throws std_exception
        ])
        dst
  from_proto (variant_array_of n s alts) src dst t authz =
      checked (valid (variant_array_of n s alts) src t ok authz)
        (elim src [
          | struct_variant_array_values items ↦
              write_variants
                (λ type v. second (
                  checked (valid (variant_of n s alts) (struct_variant_value type v) t ok authz)
                    (let here =
                        with_sub type t
                          (λ below. second (from_proto s v (default s) below authz)) in
                      let others = from_others alts type v none t authz in
                      if eqb n type
                      then here >>= (λ a. returns (inl a))
                      else others >>= (λ b. returns (inr b)))
                    (inl (default s))))
                items
          | _ ↦ throws std_exception
        ])
        dst

  -- `writeField` for each field.
  pub from_fields :
      (fs : Shapes) → ProtoFields → Fields fs → Tree → Authorizer → Outcome (Fields fs)
  from_fields no_shapes src dst t authz = returns tt
  from_fields (shape n s fs) src (v, vs) t authz = with_sub n t λ below. (elim (find_field n src) [
    | none ↦ throws std_exception
    | some x ↦ second (from_proto s x v below authz) >>= λ a.
        (from_fields fs src vs t authz >>= λ rest. returns (a, rest))
  ])

  pub from_others :
      (alts : Shapes)
      → Text
      → ProtoValue
      → Option (Alternatives alts)
      → Tree
      → Authorizer
      → Outcome (Alternatives alts)
  from_others no_shapes type v dst t authz = throws std_exception
  from_others (shape n s alts) type v dst t authz =
      let here =
        with_sub type t
          (λ below. second (from_proto s v (kept_here (default s) dst) below authz)) in
      let others = from_others alts type v (kept_other dst) t authz in
      if eqb n type then here >>= (λ a. returns (inl a)) else others >>= (λ b. returns (inr b))
