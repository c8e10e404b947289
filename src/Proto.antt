-- ===== src/Proto.antt =====
-- `st2138::Value`, the message that carries a parameter's value, and `IConstraint`.
--
-- A float is its 32 bits. The accessors are those that protobuf generates: each gives the default
-- where the message holds another kind.
use catena.Base.{ℕ, Bool, true, false, List, []}
use catena.Base.Int.{ℤ, pos}
use catena.Base.Text.{Text}

mutual
  pub data ProtoValue : Type 0 where
    kind_not_set undefined_value empty_value : ProtoValue
    int32_value : ℤ → ProtoValue
    float32_value : ℕ → ProtoValue
    string_value : Text → ProtoValue
    int32_array_values : List ℤ → ProtoValue
    float32_array_values : List ℕ → ProtoValue
    string_array_values : List Text → ProtoValue
    data_payload : Text → ProtoValue
    struct_value : ProtoFields → ProtoValue
    struct_variant_value : Text → ProtoValue → ProtoValue
    struct_array_values : ProtoStructs → ProtoValue
    struct_variant_array_values : ProtoVariants → ProtoValue

  pub data ProtoFields : Type 0 where
    no_fields : ProtoFields
    field : Text → ProtoValue → ProtoFields → ProtoFields

  pub data ProtoStructs : Type 0 where
    no_structs : ProtoStructs
    struct : ProtoFields → ProtoStructs → ProtoStructs

  pub data ProtoVariants : Type 0 where
    no_variants : ProtoVariants
    variant : Text → ProtoValue → ProtoVariants → ProtoVariants

abbrev pub get_int32 : ProtoValue → ℤ
get_int32 (int32_value n) = n
get_int32 _ = pos 0

abbrev pub has_int32 : ProtoValue → Bool
has_int32 (int32_value n) = true
has_int32 _ = false

abbrev pub get_float32 : ProtoValue → ℕ
get_float32 (float32_value n) = n
get_float32 _ = 0

abbrev pub has_float32 : ProtoValue → Bool
has_float32 (float32_value n) = true
has_float32 _ = false

abbrev pub get_string : ProtoValue → Text
get_string (string_value s) = s
get_string _ = []

abbrev pub has_string : ProtoValue → Bool
has_string (string_value s) = true
has_string _ = false

abbrev pub get_ints : ProtoValue → List ℤ
get_ints (int32_array_values l) = l
get_ints _ = []

abbrev pub has_ints : ProtoValue → Bool
has_ints (int32_array_values l) = true
has_ints _ = false

abbrev pub get_floats : ProtoValue → List ℕ
get_floats (float32_array_values l) = l
get_floats _ = []

abbrev pub has_floats : ProtoValue → Bool
has_floats (float32_array_values l) = true
has_floats _ = false

abbrev pub get_strings : ProtoValue → List Text
get_strings (string_array_values l) = l
get_strings _ = []

abbrev pub has_strings : ProtoValue → Bool
has_strings (string_array_values l) = true
has_strings _ = false

-- `IConstraint`: what the conversions call of a constraint.
pub record Constraint : Type 0 where
  pub is_range : Bool
  pub satisfied : ProtoValue → Bool
  pub apply : ProtoValue → ProtoValue
