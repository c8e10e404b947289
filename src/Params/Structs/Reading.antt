-- ===== src/Params/Structs/Reading.antt =====
-- include/StructInfo.h: `toProto` of structs, of variants and of arrays of them, into a new message.
--
-- The message is the value that is set, if one is. The fields stand in the order of the struct; the
-- names of the fields of one struct are distinct.
use catena.Base.{not, List, [], ◌∷◌, Option, none, some, inl, inr, if◌then◌else◌}
use catena.Base.Text.{Text}
use catena.Status.{StatusCode, ok, is_ok, permission_denied, Outcome, returns, ◌>>=◌}
use catena.Proto.{
  ProtoValue, kind_not_set, struct_value, struct_variant_value, struct_array_values,
  struct_variant_array_values, ProtoFields, no_fields, field, ProtoStructs, no_structs, struct,
  ProtoVariants, no_variants, variant,
}
use catena.Authorizer.{Authorizer}
use catena.Params.{Descriptor, can_read}
use catena.Params.Convert.{
  to_int32, to_float32, to_string, to_int32_array, to_float32_array, to_string_array,
}
use catena.Params.Structs.{
  Kind, int32_kind, float32_kind, string_kind, int32_array_kind, float32_array_kind,
  string_array_kind, Shape, leaf, struct_of, variant_of, struct_array_of, variant_array_of, Shapes,
  no_shapes, shape, Tree, KindValue, Value, Fields, Alternatives, descriptor_of, with_sub,
}

unfoldable pub to_kind :
    (k : Kind) → KindValue k → Descriptor → Authorizer → StatusCode × Option ProtoValue
to_kind int32_kind = to_int32
to_kind float32_kind = to_float32
to_kind string_kind = to_string
to_kind int32_array_kind = to_int32_array
to_kind float32_array_kind = to_float32_array
to_kind string_array_kind = to_string_array

-- A `Value` of the message that was made and perhaps not set.
abbrev pub made : Option ProtoValue → ProtoValue
made none = kind_not_set
made (some v) = v

-- The name of the alternative with its message.
abbrev pub chosen : Text → StatusCode × Option ProtoValue → StatusCode × (Text × ProtoValue)
chosen n (rc, m) = (rc, (n, made m))

-- What is left of a message: a serialization that failed is cleared.
abbrev pub unless_failed :
    {A : Type 0} → (A → Option ProtoValue) → StatusCode × A → StatusCode × Option ProtoValue
unless_failed f (rc, a) = if is_ok rc then (rc, f a) else (rc, none)

-- The members up to the first that fails.
unfoldable pub read_structs :
    {A : Type 0}
    → (A → Outcome (StatusCode × ProtoFields))
    → List A
    → Outcome (StatusCode × ProtoStructs)
read_structs f [] = returns (ok, no_structs)
read_structs f (a ∷ as') = f a >>= λ r.
    (let rest = read_structs f as' in
      if is_ok r.0
      then rest >>= (λ more. returns (more.0, struct r.1 more.1))
      else returns (r.0, struct r.1 no_structs))

unfoldable pub read_variants :
    {A : Type 0}
    → (A → Outcome (StatusCode × (Text × ProtoValue)))
    → List A
    → Outcome (StatusCode × ProtoVariants)
read_variants f [] = returns (ok, no_variants)
read_variants f (a ∷ as') = f a >>= λ r.
    (let rest = read_variants f as' in
      if is_ok r.0
      then rest >>= (λ more. returns (more.0, variant r.1.0 r.1.1 more.1))
      else returns (r.0, variant r.1.0 r.1.1 no_variants))

-- An array of variants is set by its first member only.
abbrev pub set_variants : ProtoVariants → Option ProtoValue
set_variants no_variants = none
set_variants (variant n v items) = some (struct_variant_array_values (variant n v items))

-- `toProto`
unfoldable mutual
  unfolding Value Fields Alternatives to_kind read_structs read_variants with_sub

  pub to_proto :
      (s : Shape) → Value s → Tree → Authorizer → Outcome (StatusCode × Option ProtoValue)
  to_proto (leaf k) src t authz = returns (to_kind k src (descriptor_of t) authz)
  to_proto (struct_of fs) src t authz =
      if not (can_read authz (descriptor_of t))
      then returns (permission_denied, none)
      else to_fields fs src t authz >>= λ r.
          returns (unless_failed (λ fields. some (struct_value fields)) r)
  to_proto (variant_of n s alts) src t authz =
      if not (can_read authz (descriptor_of t))
      then returns (permission_denied, none)
      else elim src as (λ x. Outcome (StatusCode × (Text × ProtoValue))) [
        | inl v ↦ with_sub n t (λ below. to_proto s v below authz) >>= λ m. returns (chosen n m)
        | inr other ↦ to_others alts other t authz
      ]
        >>= λ r. returns (unless_failed (λ set. some (struct_variant_value set.0 set.1)) r)
  to_proto (struct_array_of fs) src t authz =
      if not (can_read authz (descriptor_of t))
      then returns (permission_denied, none)
      else read_structs (λ fields. to_fields fs fields t authz) src >>= λ r.
          returns (unless_failed (λ items. some (struct_array_values items)) r)
  to_proto (variant_array_of n s alts) src t authz =
      if not (can_read authz (descriptor_of t))
      then returns (permission_denied, none)
      else read_variants
          (λ item. elim item as (λ x. Outcome (StatusCode × (Text × ProtoValue))) [
            | inl v ↦ with_sub n t (λ below. to_proto s v below authz) >>= λ m. returns (chosen n m)
            | inr other ↦ to_others alts other t authz
          ])
          src
        >>= λ r. returns (unless_failed set_variants r)

  -- `readField` for each field.
  pub to_fields : (fs : Shapes) → Fields fs → Tree → Authorizer → Outcome (StatusCode × ProtoFields)
  to_fields no_shapes src t authz = returns (ok, no_fields)
  to_fields (shape n s fs) (v, vs) t authz =
      with_sub n t (λ below. to_proto s v below authz) >>= λ m.
      (let rest = to_fields fs vs t authz in
        if is_ok m.0
        then rest >>= (λ more. returns (more.0, field n (made m.1) more.1))
        else returns (m.0, field n (made m.1) no_fields))

  pub to_others :
      (alts : Shapes)
      → Alternatives alts
      → Tree
      → Authorizer
      → Outcome (StatusCode × (Text × ProtoValue))
  to_others no_shapes src t authz = elim src [ ]
  to_others (shape n s alts) (inl v) t authz =
      with_sub n t (λ below. to_proto s v below authz) >>= λ m. returns (chosen n m)
  to_others (shape n s alts) (inr other) t authz = to_others alts other t authz
