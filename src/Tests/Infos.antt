-- ===== src/Tests/Infos.antt =====
-- What a request for the parameters tells of an array of texts.
use catena.Base.{◌≡◌, refl, true, [], ◌∷◌}
use catena.Base.Text.{txt, eqb, lookup, starts_with, ends_with}
use catena.Status.{ok, returns}
use catena.Authorizer.{authz_disabled, has_authz, read_authz}
use catena.Utils.{subs, subs_loop, find_seq}
use catena.ParamPath.Syntax.{tokens}
use catena.ParamPath.Decimal.{stoul, print_index}
use catena.ParamPath.{
  parse, empty, front_is_string, front_is_index, front_as_index, front_as_string, pop, to_string,
  push_back_string, print_from, escape,
}
use catena.Params.{string_array, can_read, is_array_type}
use catena.Params.Stored.{Stored, member, size}
use catena.Device.{Device}
use catena.Device.Lookup.{get_param, get_param_at, find_param, get_top_level_params}
use catena.Visitor.{
  traverse_params, next, each_member, each_child, step_into, with_path, is_skipped, array_length,
  counting,
}
use catena.Rpc.Infos.{
  ParamInfo, collect_infos, top_infos, add_top, add_param, info_to_proto, update_array_lengths,
  is_top, param_info_visitor,
}
use catena.Tests.{mixer, titles}

-- A device with an array of two texts.
abbrev titled : Device
titled = record mixer {
  params =
      (
        txt "titles",
        record { descriptor = titles; value = Stored.string_array (txt "ab" ∷ txt "xyz" ∷ []) },
      )
      ∷ [];
}

abbrev title_info : ParamInfo
title_info = record { oid = txt "titles"; type = string_array; array_length = 3 }

-- A recursive request for its parameters counts each text as an array of the same name: there are
-- three answers for the one array, and each gives the length of the last text for that of the array.
titles_counted :
    collect_infos 3 [] true titled authz_disabled
    ≡ returns (ok, title_info ∷ title_info ∷ title_info ∷ [])
unfolding collect_infos top_infos add_top add_param info_to_proto update_array_lengths is_top
    param_info_visitor traverse_params next each_member each_child step_into with_path is_skipped
    array_length counting is_array_type size get_top_level_params get_param get_param_at find_param
    member parse tokens stoul to_string push_back_string print_from print_index escape empty
    front_is_string front_is_index front_as_index front_as_string lookup eqb subs subs_loop find_seq
    starts_with ends_with can_read read_authz has_authz pop
titles_counted = refl
