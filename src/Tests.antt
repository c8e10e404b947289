-- ===== src/Tests.antt =====
-- Concrete data, and the theorems at it.
mod Paths
mod Parameters
mod Connecting
mod Devices
mod Faults
mod Streams
mod Infos
mod Structs
mod Rest
mod Pushes
mod Beats
mod Assets
mod Places
mod Services
use catena.Base.{ℕ, Bool, true, false, List, [], ◌∷◌, Option, none, some}
use catena.Base.Int.{ℤ, pos}
use catena.Base.Text.{Text, txt}
use catena.ParamPath.{Segment, ParamPath}
use catena.Proto.{Constraint}
use catena.Authorizer.{Authorizer}
use catena.Device.{Device, DetailLevel, full, LanguagePack, Param}
use catena.Params.Stored.{Stored}
use catena.Constraints.{RangeConstraint, int_range}
use catena.Params.{
  ParamType, int32_type, int32_array, string_type, string_array, Attributes, Defaults, Descriptor,
}

abbrev level_path : ParamPath
level_path = record {
  segments = Segment.string (txt "levels") ∷ Segment.index 3 ∷ [];
  front_idx = 0;
}

-- From 0 to 10 in steps of 5.
abbrev gain_range : RangeConstraint
gain_range = record { min = pos 0; max = pos 10; step = pos 5 }

abbrev pub descriptor : ParamType → Text → Option Constraint → Descriptor
descriptor type oid constraint = record {
  own = record {
    type = type;
    oid = oid;
    scope = [];
    read_only = false;
    stateless = false;
    minimal_set = true;
    is_command = false;
    constraint = constraint;
    max_length = 2;
    total_length = 10;
    sub_params = [];
  };
  parents = [];
  device = record {
    default_scope = txt "st2138:op";
    default_max_length = 1024;
    default_total_length = 1024;
  };
}

abbrev gain : Descriptor
gain = descriptor int32_type (txt "gain") (some (int_range gain_range))

abbrev levels : Descriptor
levels = descriptor int32_array (txt "levels") (some (int_range gain_range))

abbrev title : Descriptor
title = descriptor string_type (txt "title") none

abbrev titles : Descriptor
titles = descriptor string_array (txt "titles") none

-- A client that may operate the device.
abbrev operator_authz : Authorizer
operator_authz = record { disabled = false; client_scopes = txt "st2138:op:w" ∷ []; exp = 0 }

abbrev english : LanguagePack
english = record { name = txt "English"; words = (txt "hi", txt "Hello") ∷ [] }

abbrev mixer : Device
mixer = record {
  slot = 1;
  detail_level = full;
  default_scope = txt "st2138:op";
  access_scopes = txt "st2138:op" ∷ [];
  multi_set_enabled = true;
  subscriptions_enabled = true;
  params =
      (txt "gain", record { descriptor = gain; value = Stored.int32 (pos 5) })
      ∷ (txt "levels", record { descriptor = levels; value = Stored.int32_array (pos 5 ∷ []) })
      ∷ [];
  commands = [];
  language_packs = (txt "en", english) ∷ [];
  constraints = [];
  menu_groups = [];
  added_packs = [];
  emitted = [];
}
