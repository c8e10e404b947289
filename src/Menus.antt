-- ===== src/Menus.antt =====
-- sdks/cpp/common/src/PolyglotText.cpp, src/Menu.cpp, include/Menu.h, src/MenuGroup.cpp and
-- include/MenuGroup.h. A message has the fields of the object that it is made from.
use catena.Base.{Bool, List, [], ◌∷◌, Option, none, some, if◌then◌else◌}
use catena.Base.Text.{Text, insert, contains_key}
use catena.Status.{Outcome, returns, throws, std_exception}

-- A name in each language.
pub record PolyglotText : Type 0 where
  pub display_strings : List (Text × Text)

-- `PolyglotText::toProto`, which clears the message first; an entry of a map message that exists is
-- not replaced by `insert`.
insert_strings : List (Text × Text) → List (Text × Text) → List (Text × Text)
insert_strings [] dst = dst
insert_strings ((key, value) ∷ src) dst =
    if contains_key key dst
    then insert_strings src dst
    else insert_strings src (insert key value dst)

unfoldable pub polyglot_to_proto : PolyglotText → PolyglotText
unfolding insert_strings
polyglot_to_proto name = record { display_strings = insert_strings name.display_strings [] }

pub record Menu : Type 0 where
  pub name : PolyglotText
  pub hidden : Bool
  pub disabled : Bool
  pub param_oids : List Text
  pub command_oids : List Text
  pub client_hints : List (Text × Text)

-- `(*dst)[key] = value` for each entry.
unfoldable pub assign_all {ℓ} : {V : Type ℓ} → List (Text × V) → List (Text × V) → List (Text × V)
assign_all [] dst = dst
assign_all ((key, value) ∷ src) dst = assign_all src (insert key value dst)

-- `Menu::toProto`
unfoldable pub menu_to_proto : Menu → Menu
unfolding polyglot_to_proto assign_all
menu_to_proto menu = record menu {
  name = polyglot_to_proto menu.name;
  client_hints = assign_all menu.client_hints [];
}

pub record MenuGroup : Type 0 where
  pub group_name : PolyglotText
  pub menus : List (Text × Menu)

menus_to_proto : List (Text × Menu) → List (Text × Menu) → List (Text × Menu)
unfolding menu_to_proto
menus_to_proto [] dst = dst
menus_to_proto ((oid, menu) ∷ src) dst = menus_to_proto src (insert oid (menu_to_proto menu) dst)

-- `MenuGroup::toProto` into an empty message.
unfoldable pub menu_group_to_proto : MenuGroup → Bool → MenuGroup
unfolding assign_all menus_to_proto
menu_group_to_proto group shallow = record {
  group_name = record { display_strings = assign_all group.group_name.display_strings [] };
  menus = if shallow then [] else menus_to_proto group.menus [];
}

-- `addMenu`: `emplace` keeps the menu that is there; `none` is a null pointer.
unfoldable pub add_menu : Text → Option Menu → MenuGroup → Outcome MenuGroup
add_menu oid none group = throws std_exception
add_menu [] (some menu) group = throws std_exception
add_menu (c ∷ oid) (some menu) group =
    if contains_key (c ∷ oid) group.menus
    then returns group
    else returns (record group { menus = insert (c ∷ oid) menu group.menus })
