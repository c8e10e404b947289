-- ===== src/Tests/Places.antt =====
-- The source of a channel, found by its path, with the name that the variant holds.
use catena.Base.{◌≡◌, refl, [], ◌∷◌, inl}
use catena.Base.Int.{pos}
use catena.Base.Text.{txt, eqb}
use catena.Status.{returns}
use catena.Authorizer.{authz_disabled, read_authz, has_authz}
use catena.ParamPath.{ParamPath, Segment, empty, pop, front_is_string, front_as_string}
use catena.Params.{can_read, get_scope}
use catena.Params.Structs.{
  leaf, string_kind, tree, no_trees, Value, Fields, Alternatives, get_sub_param,
}
use catena.Params.Structs.Lookup.{Place, located, get_place}
use catena.Params.Structs.References.{IsReference, get_place-IsReference}
use catena.Tests.{title}
use catena.Tests.Structs.{channel, channel_tree, named}

abbrev to_name : ParamPath
to_name = record {
  segments = Segment.string (txt "source") ∷ Segment.string (txt "name") ∷ [];
  front_idx = 0;
}

unfoldable name_place : Place (Value channel)
unfolding Value Fields Alternatives
name_place = record {
  shape = leaf string_kind;
  tree = tree title no_trees;
  value = txt "in";
  put = λ x. (pos 0, (inl x, tt));
}

name_found :
    get_place channel channel_tree to_name authz_disabled named ≡ returns (located name_place)
unfolding get_place named name_place empty pop front_is_string front_as_string can_read read_authz
    has_authz get_scope get_sub_param eqb
name_found = refl

get_place-IsReference_example :
    IsReference authz_disabled
      (get_place channel channel_tree to_name authz_disabled)
      named
      name_place
get_place-IsReference_example =
    get_place-IsReference channel channel_tree to_name authz_disabled named name_place name_found
