-- ===== src/Tests/Faults.antt =====
-- Requests that the device does not answer with a status.
use catena.Base.{◌≡◌, refl, [], ◌∷◌}
use catena.Base.Int.{pos}
use catena.Base.Text.{txt, eqb, lookup, insert, starts_with, ends_with}
use catena.Status.{ok, invalid_argument, returns, throws, with_status, null_dereference}
use catena.Proto.{int32_value}
use catena.Authorizer.{authz_disabled, write_authz, write_authz_param, has_authz, read_authz}
use catena.Utils.{subs, subs_loop, find_seq}
use catena.ParamPath.Syntax.{tokens}
use catena.ParamPath.Decimal.{stoul}
use catena.ParamPath.{
  parse, empty, back_is_index, back_as_index, pop_back, front_is_string, front_is_index,
  front_as_index, front_as_string, pop, push_back_index,
}
use catena.Params.{can_read, can_write, read_only, max_length, total_length}
use catena.Params.Convert.{valid_int32, from_int32, constrain, breaks_choice}
use catena.Params.Stored.{
  check_lengths, holds_vector, is_settable, member_sizes, message_size, size, test_member, valid,
  validate_member, validate_set_value, validate_whole, add_back, push_default, member, set_member,
  from_proto,
}
use catena.Device.Lookup.{get_param, find_param}
use catena.Device.Values.{
  SetValue, overlaps, reset_values, set_value, try_values, validate_at, validate_one,
  try_multi_set_value, commit_multi_set_value, commit_one, commit_member, store, write_value,
}
use catena.Tests.{mixer}

-- The index that stands for none is accepted for a scalar.
none_index :
    (set_value mixer (txt "/gain/18446744073709551613") (int32_value (pos 5)) authz_disabled).0
    ≡ throws null_dereference
unfolding try_multi_set_value try_values overlaps validate_one validate_at reset_values parse tokens
    stoul empty back_is_index back_as_index pop_back front_is_string front_is_index front_as_index
    front_as_string lookup insert eqb subs subs_loop find_seq starts_with ends_with can_read
    read_authz has_authz pop get_param find_param valid_int32 from_int32 constrain breaks_choice
    write_authz write_authz_param can_write read_only max_length total_length check_lengths
    holds_vector is_settable member_sizes message_size size test_member valid validate_member
    validate_set_value validate_whole set_value commit_multi_set_value commit_one commit_member
    add_back push_default member set_member store write_value from_proto push_back_index
none_index = refl

abbrev append_level : SetValue
append_level = record { oid = txt "/levels/-"; value = int32_value (pos 5) }

-- There is room for one member, and each of two appends is accepted.
two_appends_accepted :
    try_multi_set_value mixer (append_level ∷ append_level ∷ []) ok authz_disabled ≡ returns ok
unfolding try_multi_set_value try_values overlaps validate_one validate_at reset_values parse tokens
    stoul empty back_is_index back_as_index pop_back front_is_string front_is_index front_as_index
    front_as_string lookup insert eqb subs subs_loop find_seq starts_with ends_with can_read
    read_authz has_authz pop get_param find_param valid_int32 from_int32 constrain breaks_choice
    write_authz write_authz_param can_write read_only max_length total_length check_lengths
    holds_vector is_settable member_sizes message_size size test_member valid validate_member
    validate_set_value validate_whole set_value commit_multi_set_value commit_one commit_member
    add_back push_default member set_member store write_value from_proto push_back_index
two_appends_accepted = refl

two_appends_committed :
    (commit_multi_set_value mixer (append_level ∷ append_level ∷ []) ok authz_disabled).0
    ≡ throws null_dereference
unfolding try_multi_set_value try_values overlaps validate_one validate_at reset_values parse tokens
    stoul empty back_is_index back_as_index pop_back front_is_string front_is_index front_as_index
    front_as_string lookup insert eqb subs subs_loop find_seq starts_with ends_with can_read
    read_authz has_authz pop get_param find_param valid_int32 from_int32 constrain breaks_choice
    write_authz write_authz_param can_write read_only max_length total_length check_lengths
    holds_vector is_settable member_sizes message_size size test_member valid validate_member
    validate_set_value validate_whole set_value commit_multi_set_value commit_one commit_member
    add_back push_default member set_member store write_value from_proto push_back_index
two_appends_committed = refl

-- A path that does not parse is not answered with a status.
bad_path :
    (set_value mixer (txt "gain") (int32_value (pos 5)) authz_disabled).0
    ≡ throws (with_status invalid_argument)
unfolding try_multi_set_value try_values overlaps validate_one validate_at reset_values parse tokens
    stoul empty back_is_index back_as_index pop_back front_is_string front_is_index front_as_index
    front_as_string lookup insert eqb subs subs_loop find_seq starts_with ends_with can_read
    read_authz has_authz pop get_param find_param valid_int32 from_int32 constrain breaks_choice
    write_authz write_authz_param can_write read_only max_length total_length check_lengths
    holds_vector is_settable member_sizes message_size size test_member valid validate_member
    validate_set_value validate_whole set_value commit_multi_set_value commit_one commit_member
    add_back push_default member set_member store write_value from_proto push_back_index
bad_path = refl
