-- ===== src/Params/Structs/Serialized.antt =====
-- include/StructInfo.h: the message of a value, as a reference for `toProto`.
pub mod Complete
pub mod Fits
pub mod Staying
pub mod Composed
pub mod RoundTrip
use catena.Base.{List, [], ◌∷◌, ◌⊎◌, inl, inr}
use catena.Base.Text.{Text}
use catena.Status.{Outcome, returns, throws, ◌>>=◌}
use catena.Proto.{
  ProtoValue, int32_value, float32_value, string_value, int32_array_values, float32_array_values,
  string_array_values, struct_value, struct_variant_value, struct_array_values, ProtoFields,
  no_fields, field, ProtoStructs, no_structs, struct, ProtoVariants, no_variants, variant,
}
use catena.Params.Structs.{
  Kind, int32_kind, float32_kind, string_kind, int32_array_kind, float32_array_kind,
  string_array_kind, Shape, leaf, struct_of, variant_of, struct_array_of, variant_array_of, Shapes,
  no_shapes, shape, KindValue, Value, Fields, Alternatives,
}
use catena.Params.Structs.Reading.{made, set_variants}

abbrev pub kind_message : (k : Kind) → KindValue k → ProtoValue
kind_message int32_kind = int32_value
kind_message float32_kind = float32_value
kind_message string_kind = string_value
kind_message int32_array_kind = int32_array_values
kind_message float32_array_kind = float32_array_values
kind_message string_array_kind = string_array_values

pub all_structs : {A : Type 0} → (A → ProtoFields) → List A → ProtoStructs
all_structs f [] = no_structs
all_structs f (a ∷ as') = struct (f a) (all_structs f as')

pub all_variants : {A : Type 0} → (A → Text × ProtoValue) → List A → ProtoVariants
all_variants f [] = no_variants
all_variants f (a ∷ as') = variant (f a).0 (f a).1 (all_variants f as')

abbrev pub alternative :
    {A B : Type 0} → Text → (A → ProtoValue) → (B → Text × ProtoValue) → A ⊎ B → Text × ProtoValue
alternative n first others (inl a) = (n, first a)
alternative n first others (inr b) = others b

-- The message of a value, whoever the client is. It holds every field under its name, every member of an array, and the
-- alternative that a variant holds under its name; an array of variants without a member is not set.
mutual
  unfolding Value Fields Alternatives

  pub message_of : (s : Shape) → Value s → ProtoValue
  message_of (leaf k) v = kind_message k v
  message_of (struct_of fs) v = struct_value (fields_message fs v)
  message_of (variant_of n s alts) v =
      let set = alternative n (λ x. message_of s x) (λ o. other_message alts o) v in
      struct_variant_value set.0 set.1
  message_of (struct_array_of fs) vs =
      struct_array_values (all_structs (λ v. fields_message fs v) vs)
  message_of (variant_array_of n s alts) vs = made (
      set_variants
        (all_variants (λ v. alternative n (λ x. message_of s x) (λ o. other_message alts o) v) vs))

  pub fields_message : (fs : Shapes) → Fields fs → ProtoFields
  fields_message no_shapes v = no_fields
  fields_message (shape n s fs) (v, vs) = field n (message_of s v) (fields_message fs vs)

  pub other_message : (alts : Shapes) → Alternatives alts → Text × ProtoValue
  other_message no_shapes v = elim v [ ]
  other_message (shape n s alts) (inl v) = (n, message_of s v)
  other_message (shape n s alts) (inr other) = other_message alts other

-- What holds of a result, if there is one.
abbrev pub Returned : {A : Type 0} → (A → Type 0) → Outcome A → Type 0
Returned P (throws e) = Unit
Returned P (returns a) = P a

pub Returned-bind :
    {A B : Type 0} (Q : A → Type 0) (P : B → Type 0) (o : Outcome A) (f : A → Outcome B)
    → Returned Q o
    → ((a : A) → Q a → Returned P (f a))
    → Returned P (o >>= f)
Returned-bind Q P (throws e) f q next = tt
Returned-bind Q P (returns a) f q next = next a q

pub Returned-any : {A : Type 0} (o : Outcome A) → Returned (λ a. Unit) o
Returned-any (throws e) = tt
Returned-any (returns a) = tt
