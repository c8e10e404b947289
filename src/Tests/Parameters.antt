-- ===== src/Tests/Parameters.antt =====
-- Constraints and the conversion of values.
use catena.Base.{some, false, ◌≤◌, ◌≡◌, refl, ◌↔◌, ◌⊎◌, true, false, [], ◌∷◌, All, length, arith}
use catena.Base.Int.{pos, negsuc, ◌-ℤ◌}
use catena.Base.Text.{txt}
use catena.Status.{StatusCode, ok, is_ok, returns}
use catena.Proto.{int32_value}
use catena.Authorizer.{authz_disabled, write_authz, write_authz_param, read_authz, has_authz}
use catena.Constraints.{
  RangeConstraint, int_range, range_satisfied, range_apply, range_apply_int, offset, rem, wrap32,
}
use catena.Constraints.Range.{IsNarrow}
use catena.Params.{int32_type, read_only, can_read, can_write, get_scope, max_length, total_length}
use catena.Params.Convert.{from_int32, constrain, breaks_choice}
use catena.Params.Inherited.{IsScope, IsWritable, scopes, can_write_iff}
use catena.Params.Scalars.{from_int32-range_satisfied}
use catena.Params.Stored.{
  Stored, member_sizes, message_size, no_trackers, validate_member, sum, Trackers,
}
use catena.Params.Trackers.{Tracks, no_trackers-Tracks, stored_sizes, validate_member-Tracks}
use catena.ParamPath.{k_end}
use catena.Tests.{descriptor, gain_range, gain, levels, title, operator_authz}

gain_range-IsNarrow : IsNarrow gain_range
gain_range-IsNarrow = record {
  min_fits = omega arith;
  max_fits = omega arith;
  ordered = omega arith;
  width = omega arith;
  step_positive = omega arith;
  step_fits = omega arith;
}

can_write_iff_example :
    IsScope (txt "st2138:op") (scopes (gain.own ∷ [])) (get_scope gain)
    × ((can_write operator_authz gain ≡ true)
        ↔ (All IsWritable (gain.own ∷ []) × (write_authz operator_authz (get_scope gain) ≡ true)))
can_write_iff_example = can_write_iff gain operator_authz

set_gain : (from_int32 (int32_value (pos 7)) (pos 5) gain authz_disabled).0 ≡ ok
unfolding from_int32 can_write write_authz_param read_only write_authz has_authz
set_gain = refl

from_int32-range_satisfied_example :
    range_satisfied gain_range
      (int32_value (from_int32 (int32_value (pos 7)) (pos 5) gain authz_disabled).1)
    ≡ true
from_int32-range_satisfied_example =
    from_int32-range_satisfied (int32_value (pos 7)) (pos 5) gain authz_disabled gain_range refl
      gain_range-IsNarrow refl set_gain

readable : can_read authz_disabled title ≡ true
unfolding can_read read_authz has_authz
readable = refl

abbrev one_level : Stored
one_level = Stored.int32_array (pos 5 ∷ [])

one_level-Tracks : Tracks one_level no_trackers (member_sizes one_level)
one_level-Tracks = no_trackers-Tracks one_level refl

validate_member-Tracks_example :
    ((rc : StatusCode) × (tr' : Trackers) × ((validate_member one_level
            (int32_value (pos 5))
            k_end
            levels
            authz_disabled
            no_trackers
          ≡ returns (rc, tr'))
        × ((is_ok rc ≡ false)
            ⊎ (Tracks one_level tr'
                  (stored_sizes k_end (message_size (int32_value (pos 5))) (member_sizes one_level))
                × (length (
                      stored_sizes k_end
                        (message_size (int32_value (pos 5)))
                        (member_sizes one_level))
                    ≤ max_length levels)
                × (sum (
                      stored_sizes k_end
                        (message_size (int32_value (pos 5)))
                        (member_sizes one_level))
                    ≤ total_length levels)))))
validate_member-Tracks_example =
    validate_member-Tracks one_level (int32_value (pos 5)) k_end levels authz_disabled no_trackers
      (member_sizes one_level) one_level-Tracks

-- A range that is wider than 32 bits: 9 is stored as 11, which does not satisfy it.
abbrev wide_range : RangeConstraint
wide_range = record { min = negsuc 2147483647; max = pos 10; step = pos 3 }

wide_range_broken :
    range_satisfied wide_range (
      int32_value
        (from_int32
          (int32_value (pos 9))
          (pos 5)
          (descriptor int32_type (txt "gain") (some (int_range wide_range)))
          authz_disabled).1)
    ≡ false
unfolding range_satisfied from_int32 constrain can_write write_authz_param read_only write_authz
    has_authz breaks_choice range_apply range_apply_int offset rem wrap32 ◌-ℤ◌
wide_range_broken = refl
