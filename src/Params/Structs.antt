-- ===== src/Params/Structs.antt =====
-- include/StructInfo.h: the conversions of structs, of variants and of arrays of them.
--
-- A `Shape` is what the templates know of a C++ type: for a struct the names and the types of its
-- fields (`StructInfo`), for a variant those of its alternatives (`alternativeNames`). The value of a
-- shape is `Value`; a `Tree` is a descriptor with its sub-parameters.
pub mod Reading
pub mod Serialized
pub mod Writing
pub mod Members
pub mod Overwriting
pub mod Whole
pub mod Lookup
pub mod References
use catena.Base.{
  ℕ, suc, ◌+◌, Bool, true, false, not, List, [], ◌∷◌, ◌++◌, Option, none, some, ◌⊎◌, inl, inr,
  if◌then◌else◌, ltb, length,
}
use catena.Base.Int.{ℤ, pos}
use catena.Base.Text.{Text, eqb}
use catena.Status.{
  StatusCode, ok, is_ok, permission_denied, invalid_argument, out_of_range, Outcome, returns,
  throws, std_exception, ◌>>=◌,
}
use catena.Proto.{
  ProtoValue, kind_not_set, struct_value, struct_variant_value, struct_array_values,
  struct_variant_array_values, ProtoFields, no_fields, field, ProtoStructs, no_structs, struct,
  ProtoVariants, no_variants, variant,
}
use catena.Authorizer.{Authorizer}
use catena.Params.{Descriptor, can_read, can_write, max_length}
use catena.Params.Convert.{
  to_int32, to_float32, to_string, to_int32_array, to_float32_array, to_string_array, valid_int32,
  from_int32, valid_float32, from_float32, valid_string, from_string, valid_int32_array,
  from_int32_array, valid_float32_array, from_float32_array, valid_string_array, from_string_array,
}
use catena.Params.Stored.{count_structs, count_variants}

-- The types of StructInfo.cpp.
pub data Kind : Type 0 where
  int32_kind float32_kind string_kind int32_array_kind float32_array_kind string_array_kind : Kind

-- An array is one of structs or of variants.
mutual
  pub data Shape : Type 0 where
    leaf : Kind → Shape
    struct_of : Shapes → Shape
    variant_of : Text → Shape → Shapes → Shape
    struct_array_of : Shapes → Shape
    variant_array_of : Text → Shape → Shapes → Shape

  pub data Shapes : Type 0 where
    no_shapes : Shapes
    shape : Text → Shape → Shapes → Shapes

mutual
  pub data Tree : Type 0 where
    tree : Descriptor → Trees → Tree

  pub data Trees : Type 0 where
    no_trees : Trees
    sub : Text → Tree → Trees → Trees

abbrev pub KindValue : Kind → Type 0
KindValue int32_kind = ℤ
KindValue float32_kind = ℕ
KindValue string_kind = Text
KindValue int32_array_kind = List ℤ
KindValue float32_array_kind = List ℕ
KindValue string_array_kind = List Text

unfoldable mutual
  pub Value : Shape → Type 0
  Value (leaf k) = KindValue k
  Value (struct_of fs) = Fields fs
  Value (variant_of n s alts) = Value s ⊎ Alternatives alts
  Value (struct_array_of fs) = List (Fields fs)
  Value (variant_array_of n s alts) = List (Value s ⊎ Alternatives alts)

  pub Fields : Shapes → Type 0
  Fields no_shapes = Unit
  Fields (shape n s fs) = Value s × Fields fs

  pub Alternatives : Shapes → Type 0
  Alternatives no_shapes = ⊥
  Alternatives (shape n s alts) = Value s ⊎ Alternatives alts

-- `getSubParam`, which throws where there is none.
unfoldable pub get_sub_param : Text → Trees → Outcome Tree
get_sub_param name no_trees = throws std_exception
get_sub_param name (sub n t ts) = if eqb n name then returns t else get_sub_param name ts

abbrev pub descriptor_of : Tree → Descriptor
descriptor_of (tree d ts) = d

abbrev pub subs_of : Tree → Trees
subs_of (tree d ts) = ts

unfoldable pub find_field : Text → ProtoFields → Option ProtoValue
find_field name no_fields = none
find_field name (field n v fs) = if eqb n name then some v else find_field name fs

unfoldable pub valid_kind : Kind → ProtoValue → Descriptor → StatusCode → Authorizer → StatusCode
valid_kind int32_kind = valid_int32
valid_kind float32_kind = valid_float32
valid_kind string_kind = valid_string
valid_kind int32_array_kind = valid_int32_array
valid_kind float32_array_kind = valid_float32_array
valid_kind string_array_kind = valid_string_array

-- The loop over the members of an array, which breaks off behind one that is not valid.
unfoldable pub valid_structs :
    (ProtoFields → StatusCode → Outcome StatusCode) → ProtoStructs → StatusCode → Outcome StatusCode
valid_structs check no_structs rc = returns rc
valid_structs check (struct fs items) rc = elim (check fs rc) [
  | throws e ↦ throws e
  | returns rc' ↦
      let rest = valid_structs check items rc' in if is_ok rc' then rest else returns rc'
]

unfoldable pub valid_variants :
    (Text → ProtoValue → StatusCode → Outcome StatusCode)
    → ProtoVariants
    → StatusCode
    → Outcome StatusCode
valid_variants check no_variants rc = returns rc
valid_variants check (variant n v items) rc = elim (check n v rc) [
  | throws e ↦ throws e
  | returns rc' ↦
      let rest = valid_variants check items rc' in if is_ok rc' then rest else returns rc'
]

-- `testWriteField` once the sub-parameter is there, and the visit of a variant's alternative: a check
-- is made where the status is still `OK`.
unfoldable pub field_check :
    (ProtoValue → Outcome StatusCode) → Option ProtoValue → StatusCode → Outcome StatusCode
field_check check found rc =
    if is_ok rc
    then elim found [ none ↦ returns invalid_argument | some v ↦ check v ]
    else returns rc

unfoldable pub with_sub {ℓ} : {A : Type ℓ} → Text → Tree → (Tree → Outcome A) → Outcome A
unfolding get_sub_param
with_sub name t f = get_sub_param name (subs_of t) >>= f

-- `validFromProto`; an alternative is chosen by its name.
unfoldable mutual
  unfolding valid_kind valid_structs valid_variants field_check with_sub find_field

  pub valid : Shape → ProtoValue → Tree → StatusCode → Authorizer → Outcome StatusCode
  valid (leaf k) src t rc authz = returns (valid_kind k src (descriptor_of t) rc authz)
  valid (struct_of fs) src t rc authz =
      if not (can_write authz (descriptor_of t)) then returns permission_denied else elim src [
        | struct_value fields ↦ valid_fields fs fields t rc authz
        | _ ↦ returns invalid_argument
      ]
  valid (variant_of n s alts) src t rc authz =
      if not (can_write authz (descriptor_of t)) then returns permission_denied else elim src [
        | struct_variant_value type v ↦
            let here =
              with_sub type t (λ below. field_check (λ x. valid s x below rc authz) (some v) rc) in
            let others = valid_others alts type v t rc authz in if eqb n type then here else others
        | _ ↦ returns invalid_argument
      ]
  valid (struct_array_of fs) src t rc authz =
      if not (can_write authz (descriptor_of t)) then returns permission_denied else elim src [
        | struct_array_values items ↦
            if ltb (max_length (descriptor_of t)) (count_structs items)
            then returns out_of_range
            else valid_structs (λ fields r. valid_fields fs fields t r authz) items rc
        | _ ↦ returns invalid_argument
      ]
  valid (variant_array_of n s alts) src t rc authz =
      if not (can_write authz (descriptor_of t)) then returns permission_denied else elim src [
        | struct_variant_array_values items ↦
            if ltb (max_length (descriptor_of t)) (count_variants items)
            then returns out_of_range
            else valid_variants
                (λ type v r.
                  (let here =
                      with_sub type t
                        (λ below. field_check (λ x. valid s x below r authz) (some v) r) in
                    let others = valid_others alts type v t r authz in
                    if eqb n type then here else others))
                items rc
        | _ ↦ returns invalid_argument
      ]

  pub valid_fields : Shapes → ProtoFields → Tree → StatusCode → Authorizer → Outcome StatusCode
  valid_fields no_shapes src t rc authz = returns rc
  valid_fields (shape n s fs) src t rc authz = with_sub n t λ below.
      (field_check (λ v. valid s v below rc authz) (find_field n src) rc >>= λ rc'.
      valid_fields fs src t rc' authz)

  pub valid_others :
      Shapes → Text → ProtoValue → Tree → StatusCode → Authorizer → Outcome StatusCode
  valid_others no_shapes type v t rc authz = returns invalid_argument
  valid_others (shape n s alts) type v t rc authz =
      let here =
        with_sub type t (λ below. field_check (λ x. valid s x below rc authz) (some v) rc) in
      let others = valid_others alts type v t rc authz in if eqb n type then here else others
