-- ===== src/Device/Parts.antt =====
-- Device.cpp: `getComponentSerializer` and `getDeviceSerializer`, which give the device in parts, and
-- include/Device.h: `DeviceSerializer`.
--
-- The parts are those of the device as it is when the serializer is made; the coroutine reads the
-- device anew for each part.
use catena.Base.{Bool, true, false, ◌&&◌, ◌||◌, not, List, [], ◌∷◌, ◌++◌, map, if◌then◌else◌}
use catena.Base.Text.{Text, txt}
use catena.Base.TextSet.{contains}
use catena.Status.{invalid_argument, Outcome, returns, throws, with_status}
use catena.Proto.{Constraint}
use catena.Authorizer.{Authorizer}
use catena.Params.{can_read}
use catena.Menus.{Menu, MenuGroup, menu_to_proto}
use catena.Device.{
  Device, Param, LanguagePack, DetailLevel, full, subscriptions, commands_only, none_level,
}
use catena.Device.Languages.{pack_to_proto}
use catena.Device.Serializer.{
  DeviceMessage, ParamMessage, basics, eq_level, groups_to_proto, param_to_proto,
}

-- `st2138::DeviceComponent`
pub data Component : Type 0 where
  no_component : Component
  device : DeviceMessage → Component
  menu : Text → Menu → Component
  language_pack : Text → LanguagePack → Component
  shared_constraint : Text → Constraint → Component
  command : Text → ParamMessage → Component
  param : Text → ParamMessage → Component

-- The first part.
unfoldable pub device_part : Device → Component
unfolding groups_to_proto
device_part d = device (record (basics d) {
  access_scopes = d.access_scopes;
  menu_groups = groups_to_proto true d.menu_groups;
})

unfoldable pub menus_of : Text → List (Text × Menu) → List Component
unfolding menu_to_proto
menus_of group [] = []
menus_of group ((name, m) ∷ menus) =
    menu (group ++ (txt "/" ++ name)) (menu_to_proto m) ∷ menus_of group menus

unfoldable pub menu_parts : List (Text × MenuGroup) → List Component
unfolding menus_of
menu_parts [] = []
menu_parts ((group, g) ∷ groups) = menus_of group g.menus ++ menu_parts groups

-- The parts of a full device that the other levels leave out.
unfoldable pub full_parts : Device → List Component
unfolding menu_parts pack_to_proto
full_parts d =
    menu_parts d.menu_groups
    ++ (map (λ entry. language_pack entry.0 (pack_to_proto entry.1)) d.language_packs
        ++ map (λ entry. shared_constraint entry.0 entry.1) d.constraints)

unfoldable pub command_parts : Authorizer → List (Text × Param) → List Component
unfolding param_to_proto
command_parts authz [] = []
command_parts authz ((name, p) ∷ ps) =
    if can_read authz p.descriptor
    then command name ((param_to_proto p authz).1) ∷ command_parts authz ps
    else command_parts authz ps

-- What a parameter's level and its subscription allow.
unfoldable pub is_wanted : DetailLevel → List Text → Text → Param → Bool
is_wanted dl subscribed_oids name p =
    eq_level dl full
    || p.descriptor.own.minimal_set
    || (eq_level dl subscriptions && contains (b'/' ∷ name) subscribed_oids)

unfoldable pub param_parts :
    Authorizer → List Text → DetailLevel → List (Text × Param) → List Component
unfolding param_to_proto is_wanted
param_parts authz subscribed_oids dl [] = []
param_parts authz subscribed_oids dl ((name, p) ∷ ps) =
    if can_read authz p.descriptor && is_wanted dl subscribed_oids name p
    then param name ((param_to_proto p authz).1) ∷ param_parts authz subscribed_oids dl ps
    else param_parts authz subscribed_oids dl ps

-- The parts behind the first.
unfoldable pub later_parts : Device → Authorizer → List Text → DetailLevel → List Component
unfolding full_parts command_parts param_parts
later_parts d authz subscribed_oids dl =
    if not (eq_level dl none_level)
    then (if eq_level dl full then full_parts d else [])
      ++ ((if eq_level dl full || eq_level dl commands_only
            then command_parts authz d.commands
            else [])
          ++ (if not (eq_level dl commands_only)
              then param_parts authz subscribed_oids dl d.params
              else []))
    else []

-- `DeviceSerializer`: what it is still to give. A coroutine that is done keeps the message that
-- `getNext` moved out of it.
abbrev pub Serializer : Type 0
Serializer = List Component

-- `getDeviceSerializer`
unfoldable pub get_device_serializer : Device → Authorizer → List Text → DetailLevel → Serializer
unfolding device_part later_parts
get_device_serializer d authz subscribed_oids dl =
    device_part d ∷ later_parts d authz subscribed_oids dl

-- `getComponentSerializer`
unfoldable pub get_component_serializer :
    Device → Authorizer → List Text → DetailLevel → Outcome Serializer
unfolding get_device_serializer
get_component_serializer d authz subscribed_oids dl =
    if eq_level dl subscriptions && not d.subscriptions_enabled
    then throws (with_status invalid_argument)
    else returns (get_device_serializer d authz subscribed_oids dl)

unfoldable pub has_more : Serializer → Bool
has_more [] = false
has_more (c ∷ cs) = true

unfoldable pub get_next : Serializer → Component × Serializer
get_next [] = (no_component, [])
get_next (c ∷ cs) = (c, cs)
