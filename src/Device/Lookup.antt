-- ===== src/Device/Lookup.antt =====
-- Device.cpp: `getParam`, `getTopLevelParams` and `getCommand`; ParamWithValue.h: `getParam`.
use catena.Base.{ℕ, ◌||◌, not, List, [], ◌∷◌, Option, none, some, if◌then◌else◌}
use catena.Base.Text.{Text, lookup}
use catena.Status.{
  StatusCode, invalid_argument, not_found, permission_denied, out_of_range, internal, unimplemented,
  Outcome, returns, throws, Exception, with_status, std_exception, null_dereference,
}
use catena.Authorizer.{Authorizer}
use catena.ParamPath.{
  ParamPath, parse, empty, pop, front_is_string, front_is_index, front_as_string, front_as_index,
}
use catena.Params.{Descriptor, can_read}
use catena.Params.Stored.{Stored, is_vector, member}
use catena.Device.{Device, Param}

-- What an `IParam` of the code refers to: a parameter of the device, or a member of its array.
pub record Target : Type 0 where
  pub name : Text
  pub descriptor : Descriptor
  pub index : Option ℕ
  pub value : Stored

-- A null pointer comes with the status.
pub data Found : Type 0 where
  absent : StatusCode → Found
  present : Target → Found

-- The overload of `getParam_` for a vector.
abbrev member_param : Target → ParamPath → Found × ParamPath
member_param target path =
    if not (front_is_index path)
    then (absent invalid_argument, path)
    else let i = front_as_index path in
      let rest = pop path in
      elim (member target.value i) [
        | none ↦ (absent out_of_range, rest)
        | some v ↦
            if empty rest
            then (present (record target { index = some i; value = v }), rest)
            else (absent not_found, rest)
      ]

-- `ParamWithValue::getParam`; the path is a reference, and what is left of it is returned.
unfoldable pub find_param : Target → ParamPath → Authorizer → Found × ParamPath
find_param target path authz =
    if not (can_read authz target.descriptor)
    then (absent permission_denied, path)
    else if is_vector target.value
    then member_param target path
    else (absent invalid_argument, path)

abbrev pub top_level : Text → Param → Target
top_level name p = record { name = name; descriptor = p.descriptor; index = none; value = p.value }

-- `Device::getParam` on a path.
unfoldable pub get_param : Device → ParamPath → Authorizer → Found × ParamPath
unfolding find_param
get_param d path authz =
    if empty path
    then (absent invalid_argument, path)
    else if front_is_string path
    then elim (lookup (front_as_string path) d.params) [
      | none ↦ (absent not_found, path)
      | some p ↦
          if not (can_read authz p.descriptor)
          then (absent permission_denied, path)
          else let rest = pop path in
            let target = top_level (front_as_string path) p in
            if empty rest then (present target, rest) else find_param target rest authz
    ]
    else (absent invalid_argument, path)

-- The status that a handler of all exceptions gives.
abbrev pub caught : Exception → StatusCode
caught (with_status rc) = rc
caught std_exception = internal
caught null_dereference = internal

-- `Device::getParam` on a text.
unfoldable pub get_param_at : Device → Text → Authorizer → Found
unfolding get_param
get_param_at d fqoid authz = elim (parse fqoid) [
  | throws e ↦ absent (caught e)
  | returns path ↦ let (found, rest) = get_param d path authz in found
]

-- `getTopLevelParams`: the parameters that are found under their names, and the last status that
-- `getParam` set. An exception of the standard library is not handled.
unfoldable pub get_top_level_params :
    Device → Authorizer → StatusCode → List (Text × Param) → Outcome (StatusCode × List Target)
unfolding get_param
get_top_level_params d authz rc [] = returns (rc, [])
get_top_level_params d authz rc ((name, p) ∷ ps) =
    if can_read authz p.descriptor
    then elim (parse (b'/' ∷ name)) [
      | throws (with_status e) ↦ returns (e, [])
      | throws e ↦ throws e
      | returns path ↦
          let (found, rest) = get_param d path authz in
          elim found [
            | absent e ↦ get_top_level_params d authz e ps
            | present target ↦ elim (get_top_level_params d authz rc ps) [
              | throws e ↦ throws e
              | returns (last, targets) ↦ returns (last, target ∷ targets)
            ]
          ]
    ]
    else get_top_level_params d authz rc ps

-- `getCommand`
unfoldable pub get_command : Device → Text → Authorizer → Outcome Found
get_command d fqoid authz = elim (parse fqoid) [
  | throws (with_status rc) ↦ returns (absent rc)
  | throws e ↦ throws e
  | returns path ↦
      if empty path || not (front_is_string path)
      then returns (absent invalid_argument)
      else elim (lookup (front_as_string path) d.commands) [
        | none ↦ returns (absent not_found)
        | some p ↦
            if not (can_read authz p.descriptor)
            then returns (absent permission_denied)
            else if empty (pop path)
            then returns (present (top_level (front_as_string path) p))
            else returns (absent unimplemented)
      ]
]
