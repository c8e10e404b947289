-- ===== src/Params/Convert.antt =====
-- src/StructInfo.cpp: a parameter's value into a message and back, for the types without fields.
--
-- `valid_*` takes the status that it finds and gives the one that it leaves; the C++ function
-- answers whether that is `OK`. `from_*` gives the status and the new value.
use catena.Base.{
  ℕ, ◌+◌, Bool, true, false, ◌&&◌, not, List, [], ◌∷◌, map, Option, none, some, ltb, length, all,
  if◌then◌else◌,
}
use catena.Base.Int.{ℤ}
use catena.Base.Text.{Text}
use catena.Status.{StatusCode, ok, permission_denied, invalid_argument, out_of_range, is_ok}
use catena.Proto.{
  ProtoValue, int32_value, float32_value, string_value, int32_array_values, float32_array_values,
  string_array_values, get_int32, has_int32, get_float32, has_float32, get_string, has_string,
  get_ints, has_ints, get_floats, has_floats, get_strings, has_strings,
}
use catena.Authorizer.{Authorizer}
use catena.Params.{
  ParamType, string_type, Descriptor, can_read, can_write, max_length, total_length,
}

-- `constraint && !constraint->isRange() && !constraint->satisfied(src)`
unfoldable pub breaks_choice : Descriptor → ProtoValue → Bool
breaks_choice pd src = elim pd.own.constraint [
  | none ↦ false
  | some c ↦ not c.is_range && not (c.satisfied src)
]

-- `constraint && !constraint->satisfied(src)`
unfoldable pub breaks_constraint : Descriptor → ProtoValue → Bool
breaks_constraint pd src = elim pd.own.constraint [ none ↦ false | some c ↦ not (c.satisfied src) ]

-- The number itself, or what a range constraint makes of it.
unfoldable pub constrain : Descriptor → ProtoValue → ProtoValue
constrain pd src = elim pd.own.constraint [
  | none ↦ src
  | some c ↦ if c.is_range then c.apply src else src
]

-- `toProto<T>`: the status, and the message if it was set.
unfoldable pub to_proto : ProtoValue → Descriptor → Authorizer → StatusCode × Option ProtoValue
to_proto value pd authz =
    if not (can_read authz pd) then (permission_denied, none) else (ok, some value)

unfoldable pub to_int32 : ℤ → Descriptor → Authorizer → StatusCode × Option ProtoValue
unfolding to_proto
to_int32 src pd authz = to_proto (int32_value src) pd authz

unfoldable pub valid_int32 : ProtoValue → Descriptor → StatusCode → Authorizer → StatusCode
unfolding breaks_choice
valid_int32 src pd rc authz =
    if not (can_write authz pd)
    then permission_denied
    else if not (has_int32 src)
    then invalid_argument
    else if breaks_choice pd src
    then invalid_argument
    else rc

unfoldable pub from_int32 : ProtoValue → ℤ → Descriptor → Authorizer → StatusCode × ℤ
unfolding valid_int32 constrain
from_int32 src dst pd authz =
    let rc = valid_int32 src pd ok authz in
    if is_ok rc then (rc, get_int32 (constrain pd src)) else (rc, dst)

unfoldable pub to_float32 : ℕ → Descriptor → Authorizer → StatusCode × Option ProtoValue
unfolding to_proto
to_float32 src pd authz = to_proto (float32_value src) pd authz

unfoldable pub valid_float32 : ProtoValue → Descriptor → StatusCode → Authorizer → StatusCode
unfolding breaks_choice
valid_float32 src pd rc authz =
    if not (can_write authz pd)
    then permission_denied
    else if not (has_float32 src)
    then invalid_argument
    else if breaks_choice pd src
    then invalid_argument
    else rc

unfoldable pub from_float32 : ProtoValue → ℕ → Descriptor → Authorizer → StatusCode × ℕ
unfolding valid_float32 constrain
from_float32 src dst pd authz =
    let rc = valid_float32 src pd ok authz in
    if is_ok rc then (rc, get_float32 (constrain pd src)) else (rc, dst)

unfoldable pub to_string : Text → Descriptor → Authorizer → StatusCode × Option ProtoValue
unfolding to_proto
to_string src pd authz = to_proto (string_value src) pd authz

abbrev pub is_string_type : ParamType → Bool
is_string_type string_type = true
is_string_type _ = false

unfoldable pub valid_string : ProtoValue → Descriptor → StatusCode → Authorizer → StatusCode
unfolding breaks_constraint
valid_string src pd rc authz =
    if not (can_write authz pd)
    then permission_denied
    else if not (has_string src)
    then invalid_argument
    else if is_string_type pd.own.type && ltb (total_length pd) (length (get_string src))
    then out_of_range
    else if breaks_constraint pd src
    then invalid_argument
    else rc

unfoldable pub from_string : ProtoValue → Text → Descriptor → Authorizer → StatusCode × Text
unfolding valid_string
from_string src dst pd authz =
    let rc = valid_string src pd ok authz in if is_ok rc then (rc, get_string src) else (rc, dst)

unfoldable pub to_int32_array : List ℤ → Descriptor → Authorizer → StatusCode × Option ProtoValue
unfolding to_proto
to_int32_array src pd authz = to_proto (int32_array_values src) pd authz

unfoldable pub valid_int32_array : ProtoValue → Descriptor → StatusCode → Authorizer → StatusCode
unfolding breaks_choice
valid_int32_array src pd rc authz =
    if not (can_write authz pd)
    then permission_denied
    else if not (has_ints src)
    then invalid_argument
    else if ltb (max_length pd) (length (get_ints src))
    then out_of_range
    else if all (λ i. not (breaks_choice pd (int32_value i))) (get_ints src)
    then rc
    else invalid_argument

unfoldable pub from_int32_array :
    ProtoValue → List ℤ → Descriptor → Authorizer → StatusCode × List ℤ
unfolding valid_int32_array constrain
from_int32_array src dst pd authz =
    let rc = valid_int32_array src pd ok authz in
    if is_ok rc
    then (rc, map (λ i. get_int32 (constrain pd (int32_value i))) (get_ints src))
    else (rc, dst)

unfoldable pub to_float32_array : List ℕ → Descriptor → Authorizer → StatusCode × Option ProtoValue
unfolding to_proto
to_float32_array src pd authz = to_proto (float32_array_values src) pd authz

unfoldable pub valid_float32_array : ProtoValue → Descriptor → StatusCode → Authorizer → StatusCode
unfolding breaks_choice
valid_float32_array src pd rc authz =
    if not (can_write authz pd)
    then permission_denied
    else if not (has_floats src)
    then invalid_argument
    else if ltb (max_length pd) (length (get_floats src))
    then out_of_range
    else if all (λ f. not (breaks_choice pd (float32_value f))) (get_floats src)
    then rc
    else invalid_argument

unfoldable pub from_float32_array :
    ProtoValue → List ℕ → Descriptor → Authorizer → StatusCode × List ℕ
unfolding valid_float32_array constrain
from_float32_array src dst pd authz =
    let rc = valid_float32_array src pd ok authz in
    if is_ok rc
    then (rc, map (λ f. get_float32 (constrain pd (float32_value f))) (get_floats src))
    else (rc, dst)

unfoldable pub to_string_array :
    List Text → Descriptor → Authorizer → StatusCode × Option ProtoValue
unfolding to_proto
to_string_array src pd authz = to_proto (string_array_values src) pd authz

-- The loop over the strings: it adds up their lengths and stops behind the first that breaks the
-- constraint.
unfoldable pub check_strings : Descriptor → StatusCode → ℕ → List Text → StatusCode × ℕ
unfolding breaks_constraint
check_strings pd rc total [] = (rc, total)
check_strings pd rc total (s ∷ ss) =
    let rest = check_strings pd rc (total + length s) ss in
    if breaks_constraint pd (string_value s) then (invalid_argument, total + length s) else rest

unfoldable pub valid_string_array : ProtoValue → Descriptor → StatusCode → Authorizer → StatusCode
unfolding check_strings
valid_string_array src pd rc authz =
    let (checked, total) =
      if not (can_write authz pd)
      then (permission_denied, 0)
      else if not (has_strings src)
      then (invalid_argument, 0)
      else if ltb (max_length pd) (length (get_strings src))
      then (out_of_range, 0)
      else check_strings pd rc 0 (get_strings src) in
    if ltb (total_length pd) total then out_of_range else checked

unfoldable pub from_string_array :
    ProtoValue → List Text → Descriptor → Authorizer → StatusCode × List Text
unfolding valid_string_array
from_string_array src dst pd authz =
    let rc = valid_string_array src pd ok authz in
    if is_ok rc then (rc, get_strings src) else (rc, dst)
