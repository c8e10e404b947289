-- ===== src/Device/Serializer.antt =====
-- Device.cpp: `shouldSendParam`, and `toProto` into one message. A constraint stands for the message
-- that it makes.
use catena.Base.{
  ℕ, Bool, true, false, ◌&&◌, ◌||◌, not, List, [], ◌∷◌, map, Option, none, some, if◌then◌else◌,
}
use catena.Base.Text.{Text, insert}
use catena.Status.{StatusCode, is_ok}
use catena.Proto.{ProtoValue, Constraint}
use catena.Authorizer.{Authorizer}
use catena.Params.{Attributes, can_read}
use catena.Params.Stored.{to_proto}
use catena.Menus.{MenuGroup, menu_group_to_proto, assign_all}
use catena.Device.{
  Device, Param, LanguagePack, DetailLevel, full, subscriptions, minimal, commands_only, unset,
  none_level,
}
use catena.Device.Languages.{pack_to_proto}

abbrev pub eq_level : DetailLevel → DetailLevel → Bool
eq_level full full = true
eq_level subscriptions subscriptions = true
eq_level minimal minimal = true
eq_level commands_only commands_only = true
eq_level unset unset = true
eq_level none_level none_level = true
eq_level _ _ = false

-- `shouldSendParam`, by the detail level of the device.
unfoldable pub should_send_param : Device → Param → Bool → Authorizer → Bool
should_send_param d p is_subscribed authz =
    if can_read authz p.descriptor
    then if not (eq_level d.detail_level none_level)
      then (eq_level d.detail_level minimal && p.descriptor.own.minimal_set)
        || eq_level d.detail_level full
        || (eq_level d.detail_level subscriptions
            && (p.descriptor.own.minimal_set || is_subscribed))
        || (eq_level d.detail_level commands_only && p.descriptor.own.is_command)
      else false
    else false

-- `st2138::Param`: the value, and the descriptor where the value was written.
pub record ParamMessage : Type 0 where
  pub sent_value : Option ProtoValue
  pub sent_descriptor : Option Attributes

unfoldable pub param_to_proto : Param → Authorizer → StatusCode × ParamMessage
param_to_proto p authz =
    let (rc, value) = to_proto p.value p.descriptor authz in
    (
      rc,
      record {
        sent_value = value;
        sent_descriptor = if is_ok rc then some p.descriptor.own else none;
      },
    )

-- `st2138::Device`
pub record DeviceMessage : Type 0 where
  pub slot : ℕ
  pub detail_level : DetailLevel
  pub default_scope : Text
  pub multi_set_enabled : Bool
  pub subscriptions : Bool
  pub access_scopes : List Text
  pub params : List (Text × ParamMessage)
  pub commands : List (Text × ParamMessage)
  pub constraints : List (Text × Constraint)
  pub language_packs : List (Text × LanguagePack)
  pub menu_groups : List (Text × MenuGroup)

abbrev pub basics : Device → DeviceMessage
basics d = record {
  slot = d.slot;
  detail_level = d.detail_level;
  default_scope = d.default_scope;
  multi_set_enabled = d.multi_set_enabled;
  subscriptions = d.subscriptions_enabled;
  access_scopes = [];
  params = [];
  commands = [];
  constraints = [];
  language_packs = [];
  menu_groups = [];
}

-- `serializeParamCollection`
unfoldable pub serialize_params :
    Device
    → Authorizer
    → List (Text × Param)
    → List (Text × ParamMessage)
    → List (Text × ParamMessage)
unfolding should_send_param param_to_proto
serialize_params d authz [] dst = dst
serialize_params d authz ((name, p) ∷ ps) dst =
    let (rc, message) = param_to_proto p authz in
    if should_send_param d p true authz
    then serialize_params d authz ps (insert name message dst)
    else serialize_params d authz ps dst

packs_to_proto : List (Text × LanguagePack) → List (Text × LanguagePack)
unfolding pack_to_proto
packs_to_proto [] = []
packs_to_proto ((name, pack) ∷ packs) = (name, pack_to_proto pack) ∷ packs_to_proto packs

unfoldable pub groups_to_proto : Bool → List (Text × MenuGroup) → List (Text × MenuGroup)
unfolding menu_group_to_proto
groups_to_proto shallow [] = []
groups_to_proto shallow ((name, group) ∷ groups) =
    (name, menu_group_to_proto group shallow) ∷ groups_to_proto shallow groups

-- `toProto`; the rest of the message stays empty for a minimal device.
unfoldable pub device_to_proto : Device → Authorizer → Bool → DeviceMessage
unfolding serialize_params packs_to_proto groups_to_proto assign_all
device_to_proto d authz shallow =
    if shallow
    then basics d
    else let sent = record (basics d) {
      params = serialize_params d authz d.params [];
      commands = serialize_params d authz d.commands [];
    } in
      if eq_level d.detail_level minimal then sent else record sent {
        constraints = assign_all d.constraints [];
        language_packs = packs_to_proto d.language_packs;
        menu_groups = groups_to_proto false d.menu_groups;
      }

-- `toProto(LanguagePacks)`: a pack is named by its language.
unfoldable pub language_packs_to_proto : Device → List (Text × LanguagePack)
language_packs_to_proto d =
    map (λ entry. (entry.0, record { name = entry.0; words = entry.1.words })) d.language_packs
