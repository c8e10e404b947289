-- ===== src/Tests/Structs.antt =====
-- A message for a struct of a number and of a variant.
use catena.Base.{◌≡◌, refl, false, ◌⊎◌, inl, inr, [], none, some, true}
use catena.Base.Int.{pos, ◌-ℤ◌}
use catena.Base.Text.{txt, eqb}
use catena.Status.{StatusCode, Exception, ok, is_ok, invalid_argument, returns, throws}
use catena.Proto.{
  ProtoValue, kind_not_set, int32_value, string_value, struct_value, struct_variant_value,
  no_fields, field,
}
use catena.Authorizer.{authz_disabled, write_authz, write_authz_param, read_authz, has_authz}
use catena.Params.{total_length, can_read, read_only, can_write, get_scope}
use catena.Params.Structs.{
  Shape, leaf, struct_of, variant_of, variant_array_of, no_shapes, shape, int32_kind, string_kind,
  Tree, tree, no_trees, sub, Value, Fields, Alternatives, valid, valid_kind, get_sub_param,
}
use catena.Params.Structs.Reading
use catena.Params.Structs.Serialized.Fits.{IsNamed, has_shape, Fits}
use catena.Params.Structs.Serialized.RoundTrip.{from_proto-to_proto}
use catena.Params.Structs.Serialized.{message_of}
use catena.Params.Structs.Serialized.Complete.{to_proto-message_of}
use catena.Params.Structs.Writing.{from_proto, from_kind}
use catena.Params.Structs.Whole.{from_proto-valid}
use catena.Params.Convert.{
  valid_string, to_int32, to_string, from_int32, valid_int32, constrain, breaks_choice,
  breaks_constraint,
}
use catena.Constraints.{range_apply_int, range_apply, range_satisfied, rem, wrap32}
use catena.Tests.{gain, title}

-- A channel has a gain and a source, which is a name or a number.
abbrev pub channel : Shape
channel = struct_of (
    shape (txt "gain") (leaf int32_kind) (
      shape (txt "source")
        (variant_of (txt "name") (leaf string_kind)
          (shape (txt "number") (leaf int32_kind) no_shapes))
        no_shapes))

abbrev pub channel_tree : Tree
channel_tree = tree title (
    sub (txt "gain") (tree gain no_trees) (
      sub (txt "source")
        (tree title (
          sub (txt "number") (tree gain no_trees)
            (sub (txt "name") (tree title no_trees) no_trees)))
        no_trees))

abbrev message : ProtoValue
message = struct_value (
    field (txt "source") (struct_variant_value (txt "number") (int32_value (pos 10)))
      (field (txt "gain") (int32_value (pos 5)) no_fields))

from_proto-valid_example :
    ((e : Exception) × ((valid channel message channel_tree ok authz_disabled ≡ throws e)
        × ((dst : Value channel)
            → from_proto channel message dst channel_tree authz_disabled ≡ throws e)))
    ⊎ ((valid channel message channel_tree ok authz_disabled ≡ returns ok)
        × ((v : Value channel) × ((dst : Value channel)
              → from_proto channel message dst channel_tree authz_disabled ≡ returns (ok, v))))
    ⊎ ((rc : StatusCode) × ((valid channel message channel_tree ok authz_disabled ≡ returns rc)
          × ((is_ok rc ≡ false)
              × ((dst : Value channel)
                  → from_proto channel message dst channel_tree authz_disabled
                    ≡ returns (rc, dst)))))
from_proto-valid_example = from_proto-valid channel message channel_tree authz_disabled

unfoldable pub named : Value channel
unfolding Value Fields Alternatives
named = (pos 0, (inl (txt "in"), tt))

unfoldable numbered : Value channel
unfolding Value Fields Alternatives
numbered = (pos 5, (inr (inl (pos 10)), tt))

-- The number of the source is written in place of a name.
channel_written :
    from_proto channel message named channel_tree authz_disabled ≡ returns (ok, numbered)
unfolding named numbered from_proto from_kind valid_kind from_int32 constrain valid_int32 can_write
    write_authz_param write_authz has_authz get_sub_param eqb read_only get_scope breaks_choice
    range_apply_int range_apply range_satisfied rem wrap32 breaks_constraint ◌-ℤ◌
channel_written = refl

-- An array of variants without a member is not set in the message, and the message cannot be read back.
abbrev named_message : ProtoValue
named_message = struct_value (
    field (txt "gain") (int32_value (pos 0)) (
      field (txt "source") (struct_variant_value (txt "name") (string_value (txt "in"))) no_fields))

named_read :
    Reading.to_proto channel named channel_tree authz_disabled ≡ returns (ok, some named_message)
unfolding named Reading.to_proto Reading.to_kind to_int32 to_string can_read read_authz has_authz
    get_sub_param eqb
named_read = refl

to_proto-message_of_example :
    (is_ok ok ≡ true → Reading.made (some named_message) ≡ message_of channel named)
    × (is_ok ok ≡ false → some named_message ≡ none)
to_proto-message_of_example =
    to_proto-message_of channel named channel_tree authz_disabled ok (some named_message) named_read

channel-IsNamed : IsNamed channel
unfolding IsNamed has_shape eqb
channel-IsNamed = (refl, tt, (refl, (refl, tt, (refl, tt, tt)), tt))

named-Fits : Fits channel named channel_tree
unfolding named Fits get_sub_param eqb constrain range_apply_int range_apply range_satisfied rem
    wrap32 ◌-ℤ◌
named-Fits = (refl, (tt, tt))

named_valid :
    valid channel (Reading.made (some named_message)) channel_tree ok authz_disabled ≡ returns ok
unfolding valid valid_kind valid_int32 valid_string can_write write_authz_param write_authz
    has_authz get_sub_param eqb read_only get_scope breaks_choice breaks_constraint total_length
named_valid = refl

from_proto-to_proto_example :
    from_proto channel (Reading.made (some named_message)) numbered channel_tree authz_disabled
    ≡ returns (ok, named)
from_proto-to_proto_example =
    from_proto-to_proto channel named channel_tree authz_disabled authz_disabled
      (some named_message) channel-IsNamed named-Fits named_read named_valid numbered

abbrev sources : Shape
sources = variant_array_of (txt "name") (leaf string_kind) no_shapes

unfoldable none_there : Value sources
unfolding Value
none_there = []

empty_array_not_set :
    Reading.to_proto sources none_there (tree title no_trees) authz_disabled ≡ returns (ok, none)
unfolding none_there Reading.to_proto can_read read_authz has_authz
empty_array_not_set = refl

empty_array_not_read :
    valid sources kind_not_set (tree title no_trees) ok authz_disabled ≡ returns invalid_argument
unfolding valid can_write write_authz_param write_authz has_authz read_only get_scope
empty_array_not_read = refl
