-- ===== src/Params/Stored.antt =====
-- include/ParamWithValue.h: a parameter that holds a value without fields, or an array of such.
use catena.Base.{
  ℕ, suc, ◌+◌, Bool, true, false, ◌&&◌, not, List, [], ◌∷◌, ◌++◌, map, Option, none, some, ltb, leb,
  ◌==◌, length, get_elem?, set, drop_last, if◌then◌else◌,
}
use catena.Base.Int.{ℤ, pos}
use catena.Base.Text.{Text}
use catena.Status.{
  StatusCode, ok, permission_denied, invalid_argument, out_of_range, is_ok, Outcome, returns,
  throws, std_exception,
}
use catena.Proto.{
  ProtoValue, kind_not_set, undefined_value, empty_value, string_value, int32_array_values,
  float32_array_values, string_array_values, data_payload, struct_array_values,
  struct_variant_array_values, ProtoStructs, no_structs, struct, ProtoVariants, no_variants,
  variant,
}
use catena.Authorizer.{Authorizer}
use catena.ParamPath.{k_end, k_none}
use catena.Params.{Descriptor, can_write, max_length, total_length}
use catena.Params.Convert.{
  to_int32, to_float32, to_string, to_int32_array, to_float32_array, to_string_array, valid_int32,
  from_int32, valid_float32, from_float32, valid_string, from_string, valid_int32_array,
  from_int32_array, valid_float32_array, from_float32_array, valid_string_array, from_string_array,
}

-- The `T` of `ParamWithValue<T>`, with the value.
pub data Stored : Type 0 where
  int32 : ℤ → Stored
  float32 : ℕ → Stored
  string : Text → Stored
  int32_array : List ℤ → Stored
  float32_array : List ℕ → Stored
  string_array : List Text → Stored

-- `size()`
unfoldable pub size : Stored → ℕ
size (int32 n) = 0
size (float32 f) = 0
size (string s) = length s
size (int32_array l) = length l
size (float32_array l) = length l
size (string_array l) = length l

-- `validFromProto<T>` at the parameter's own type, and at that of an array's members.
unfoldable pub valid : Stored → ProtoValue → Descriptor → StatusCode → Authorizer → StatusCode
valid (int32 n) = valid_int32
valid (float32 f) = valid_float32
valid (string s) = valid_string
valid (int32_array l) = valid_int32_array
valid (float32_array l) = valid_float32_array
valid (string_array l) = valid_string_array

-- `toProto<T>`
unfoldable pub to_proto : Stored → Descriptor → Authorizer → StatusCode × Option ProtoValue
to_proto (int32 n) = to_int32 n
to_proto (float32 f) = to_float32 f
to_proto (string s) = to_string s
to_proto (int32_array l) = to_int32_array l
to_proto (float32_array l) = to_float32_array l
to_proto (string_array l) = to_string_array l

-- `fromProto<T>`
unfoldable pub from_proto : ProtoValue → Stored → Descriptor → Authorizer → StatusCode × Stored
from_proto src (int32 n) pd authz = let (rc, v) = from_int32 src n pd authz in (rc, int32 v)
from_proto src (float32 f) pd authz = let (rc, v) = from_float32 src f pd authz in (rc, float32 v)
from_proto src (string s) pd authz = let (rc, v) = from_string src s pd authz in (rc, string v)
from_proto src (int32_array l) pd authz =
    let (rc, v) = from_int32_array src l pd authz in (rc, int32_array v)
from_proto src (float32_array l) pd authz =
    let (rc, v) = from_float32_array src l pd authz in (rc, float32_array v)
from_proto src (string_array l) pd authz =
    let (rc, v) = from_string_array src l pd authz in (rc, string_array v)

-- `value[i]` as a value of its own, where there is one.
unfoldable pub member : Stored → ℕ → Option Stored
member (int32_array l) i = elim (get_elem? l i) [ none ↦ none | some v ↦ some (int32 v) ]
member (float32_array l) i = elim (get_elem? l i) [ none ↦ none | some v ↦ some (float32 v) ]
member (string_array l) i = elim (get_elem? l i) [ none ↦ none | some v ↦ some (string v) ]
member value i = none

-- `value[i]` is a reference: what is stored through it.
unfoldable pub set_member : Stored → ℕ → Stored → Stored
set_member (int32_array l) i (int32 n) = int32_array (set l i n)
set_member (float32_array l) i (float32 f) = float32_array (set l i f)
set_member (string_array l) i (string s) = string_array (set l i s)
set_member value i v = value

abbrev pub is_vector : Stored → Bool
is_vector (int32 n) = false
is_vector (float32 f) = false
is_vector (string s) = false
is_vector (int32_array l) = true
is_vector (float32_array l) = true
is_vector (string_array l) = true

-- `value.push_back(ElemType())`
unfoldable pub push_default : Stored → Stored
push_default (int32_array l) = int32_array (l ++ pos 0 ∷ [])
push_default (float32_array l) = float32_array (l ++ 0 ∷ [])
push_default (string_array l) = string_array (l ++ [] ∷ [])
push_default value = value

-- `addBack`: the status, and the new array where a member was added.
unfoldable pub add_back : Stored → Descriptor → Authorizer → StatusCode × Option Stored
unfolding size push_default
add_back value pd authz =
    if is_vector value
    then if not (can_write authz pd)
      then (permission_denied, none)
      else if leb (max_length pd) (size value)
      then (out_of_range, none)
      else (ok, some (push_default value))
    else (invalid_argument, none)

abbrev pop_last : Stored → Stored
pop_last (int32_array l) = int32_array (drop_last l)
pop_last (float32_array l) = float32_array (drop_last l)
pop_last (string_array l) = string_array (drop_last l)
pop_last value = value

-- `popBack`
unfoldable pub pop_back : Stored → Descriptor → Authorizer → StatusCode × Stored
unfolding size
pop_back value pd authz =
    if is_vector value
    then if not (can_write authz pd)
      then (permission_denied, value)
      else if size value == 0
      then (out_of_range, value)
      else (ok, pop_last value)
    else (invalid_argument, value)

-- `mSizeTracker_` and `tSizeTracker_`; `none` is the null pointer.
pub record Trackers : Type 0 where
  pub m_size : Option ℕ
  pub t_size : Option (List ℕ)

abbrev pub no_trackers : Trackers
no_trackers = record { m_size = none; t_size = none }

abbrev pub count_structs : ProtoStructs → ℕ
count_structs no_structs = 0
count_structs (struct f l) = suc (count_structs l)

abbrev pub count_variants : ProtoVariants → ℕ
count_variants no_variants = 0
count_variants (variant t v l) = suc (count_variants l)

-- `size_` of what the message holds.
unfoldable pub message_size : ProtoValue → ℕ
message_size (string_value s) = length s
message_size (int32_array_values l) = length l
message_size (float32_array_values l) = length l
message_size (string_array_values l) = length l
message_size (struct_array_values l) = count_structs l
message_size (struct_variant_array_values l) = count_variants l
message_size _ = 0

-- The kinds of `validateSetValueMap_`, and which of them hold a vector.
unfoldable pub is_settable : ProtoValue → Bool
is_settable kind_not_set = false
is_settable undefined_value = false
is_settable empty_value = false
is_settable (data_payload p) = false
is_settable _ = true

unfoldable pub holds_vector : ProtoValue → Bool
holds_vector (int32_array_values l) = true
holds_vector (float32_array_values l) = true
holds_vector (string_array_values l) = true
holds_vector (struct_array_values l) = true
holds_vector (struct_variant_array_values l) = true
holds_vector _ = false

-- The first overload of `validateSetValue_`. After the check of the index the tracker is set
-- wherever the status is still `OK`.
unfoldable pub validate_whole :
    Stored → ProtoValue → ℕ → Descriptor → Authorizer → Trackers → StatusCode × Trackers
unfolding valid message_size
validate_whole value src index pd authz tr =
    if not (index == k_none)
    then (invalid_argument, tr)
    else let rc = valid value src pd ok authz in
      if is_ok rc
      then (
        if ltb (max_length pd) (message_size src) then out_of_range else ok,
        record tr { m_size = some (message_size src) },
      )
      else (rc, tr)

-- The sizes of an array's members.
unfoldable pub member_sizes : Stored → List ℕ
member_sizes (int32_array l) = map (λ n. 0) l
member_sizes (float32_array l) = map (λ f. 0) l
member_sizes (string_array l) = map length l
member_sizes _ = []

-- A member as it is before it is set, for the type of the array's members.
unfoldable pub test_member : Stored → Stored
test_member (int32_array l) = int32 (pos 0)
test_member (float32_array l) = float32 0
test_member (string_array l) = string []
test_member value = value

abbrev pub or_else {ℓ} : {A : Type ℓ} → Option A → A → A
or_else none a = a
or_else (some b) a = b

abbrev pub sum : List ℕ → ℕ
sum [] = 0
sum (n ∷ ns) = n + sum ns

-- What the second overload checks at its end.
unfoldable pub check_lengths : Descriptor → ℕ → List ℕ → StatusCode
check_lengths pd m t =
    if ltb (max_length pd) m
    then out_of_range
    else if ltb (total_length pd) (sum t)
    then out_of_range
    else ok

-- The second overload, for a member of an array. `at` throws where the two trackers disagree.
unfoldable pub validate_member :
    Stored → ProtoValue → ℕ → Descriptor → Authorizer → Trackers → Outcome (StatusCode × Trackers)
unfolding valid message_size check_lengths member_sizes test_member size
validate_member value src index pd authz tr =
    let m = or_else tr.m_size (size value) in
    let t = or_else tr.t_size (member_sizes value) in
    let kept : Trackers = record { m_size = some m; t_size = some t } in
    if index == k_none
    then returns (invalid_argument, kept)
    else if not (index == k_end) && leb m index
    then returns (out_of_range, kept)
    else let rc = valid (test_member value) src pd ok authz in
      if is_ok rc
      then if index == k_end
        then returns (
          check_lengths pd (m + 1) (t ++ message_size src ∷ []),
          record { m_size = some (m + 1); t_size = some (t ++ message_size src ∷ []) },
        )
        else if ltb index (length t)
        then returns (
          check_lengths pd m (set t index (message_size src)),
          record { m_size = some m; t_size = some (set t index (message_size src)) },
        )
        else throws std_exception
      else returns (rc, kept)

-- `validateSetValue`: the overload is chosen by the types of the parameter and of the message.
unfoldable pub validate_set_value :
    Stored → ProtoValue → ℕ → Descriptor → Authorizer → Trackers → Outcome (StatusCode × Trackers)
unfolding is_settable holds_vector validate_whole validate_member
validate_set_value value src index pd authz tr =
    if not (is_settable src)
    then returns (invalid_argument, tr)
    else if is_vector value && not (holds_vector src)
    then validate_member value src index pd authz tr
    else returns (validate_whole value src index pd authz tr)
