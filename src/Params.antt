-- ===== src/Params.antt =====
-- sdks/cpp/common/include/ParamDescriptor.h, src/ParamDescriptor.cpp and src/StructInfo.cpp.
--
-- A descriptor has the chain of its parents, nearest first, and the defaults of its device; the
-- message of a status is left out.
pub mod Convert
pub mod Inherited
pub mod Scalars
pub mod Arrays
pub mod Stored
pub mod Structs
pub mod Trackers
pub mod Described
use catena.Base.{
  ℕ, Bool, true, false, ◌||◌, ◌&&◌, not, List, [], ◌∷◌, Option, none, some, ltb, ◌==◌,
  if◌then◌else◌,
}
use catena.Base.Text.{Text, eqb}
use catena.Authorizer.{Authorizer, read_authz, write_authz_param}
use catena.Proto.{Constraint}

-- `st2138::ParamType`
pub data ParamType : Type 0 where
  undefined_type empty_type int32_type float32_type string_type struct_type : ParamType
  struct_variant_type int32_array float32_array string_array binary struct_array : ParamType
  struct_variant_array data_type : ParamType

-- The fields of one `ParamDescriptor`; of `subParams_` the keys.
pub record Attributes : Type 0 where
  pub type : ParamType
  pub oid : Text
  pub scope : Text
  pub read_only : Bool
  pub stateless : Bool
  pub minimal_set : Bool
  pub is_command : Bool
  pub constraint : Option Constraint
  pub max_length : ℕ
  pub total_length : ℕ
  pub sub_params : List Text

-- `isArrayType` of a parameter with a descriptor of this type.
unfoldable pub is_array_type : ParamType → Bool
is_array_type struct_array = true
is_array_type int32_array = true
is_array_type float32_array = true
is_array_type string_array = true
is_array_type struct_variant_array = true
is_array_type _ = false

-- What a descriptor asks its device for.
pub record Defaults : Type 0 where
  pub default_scope : Text
  pub default_max_length : ℕ
  pub default_total_length : ℕ

pub record Descriptor : Type 0 where
  pub own : Attributes
  pub parents : List Attributes
  pub device : Defaults

unfoldable pub scope_from : Text → Attributes → List Attributes → Text
scope_from default own [] = elim own.scope [ [] ↦ default | c ∷ s ↦ c ∷ s ]
scope_from default own (parent ∷ parents) = elim own.scope [
  | [] ↦ scope_from default parent parents
  | c ∷ s ↦ c ∷ s
]

-- `getScope`: the descriptor's own, or else that of its parent, or the device's.
unfoldable pub get_scope : Descriptor → Text
unfolding scope_from
get_scope d = scope_from d.device.default_scope d.own d.parents

unfoldable pub read_only_from : Attributes → List Attributes → Bool
read_only_from own [] = own.read_only
read_only_from own (parent ∷ parents) = own.read_only || read_only_from parent parents

-- `readOnly`
unfoldable pub read_only : Descriptor → Bool
unfolding read_only_from
read_only d = read_only_from d.own d.parents

unfoldable pub max_length : Descriptor → ℕ
max_length d = if ltb 0 d.own.max_length then d.own.max_length else d.device.default_max_length

unfoldable pub total_length : Descriptor → ℕ
total_length d =
    if ltb 0 d.own.total_length then d.own.total_length else d.device.default_total_length

-- `set_default_max_length` and `set_default_total_length` of the device; the constant is
-- `kDefaultMaxArrayLength`.
abbrev pub k_default_max_array_length : ℕ
k_default_max_array_length = 1024

unfoldable pub set_default_length : ℕ → ℕ
set_default_length n = if ltb 0 n then n else k_default_max_array_length

-- `authz.readAuthz(pd)` and `authz.writeAuthz(pd)`
unfoldable pub can_read : Authorizer → Descriptor → Bool
can_read a d = read_authz a (get_scope d)

unfoldable pub can_write : Authorizer → Descriptor → Bool
can_write a d = write_authz_param a (read_only d) (get_scope d)
