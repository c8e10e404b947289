-- ===== src/Device.antt =====
-- sdks/cpp/common/src/Device.cpp and include/Device.h: a device with its parameters, its commands and
-- its language packs.
--
-- A parameter's value is one of `Params.Stored`; structs and variants have no model. A call of a
-- signal's slots is the OID in `emitted`.
pub mod Lookup
pub mod Values
pub mod Frame
pub mod Settable
pub mod Single
pub mod Overlap
pub mod Languages
pub mod Items
pub mod Packs
pub mod Serializer
pub mod Parts
pub mod Sent
use catena.Base.{ℕ, Bool, List, Option}
use catena.Base.Text.{Text}
use catena.Params.{Descriptor}
use catena.Proto.{Constraint}
use catena.Menus.{MenuGroup}
use catena.Params.Stored.{Stored}

-- `st2138::Device_DetailLevel`
pub data DetailLevel : Type 0 where
  full subscriptions minimal commands_only unset none_level : DetailLevel

pub record Param : Type 0 where
  pub descriptor : Descriptor
  pub value : Stored

pub record LanguagePack : Type 0 where
  pub name : Text
  pub words : List (Text × Text)

-- `added_packs` has the keys of `added_packs_`, whose packs are those of `language_packs_`.
pub record Device : Type 0 where
  pub slot : ℕ
  pub detail_level : DetailLevel
  pub default_scope : Text
  pub access_scopes : List Text
  pub multi_set_enabled : Bool
  pub subscriptions_enabled : Bool
  pub params : List (Text × Param)
  pub commands : List (Text × Param)
  pub language_packs : List (Text × LanguagePack)
  pub constraints : List (Text × Constraint)
  pub menu_groups : List (Text × MenuGroup)
  pub added_packs : List Text
  pub emitted : List Text
