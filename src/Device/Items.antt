-- ===== src/Device/Items.antt =====
-- sdks/cpp/common/include/Device.h: `addItem` and `getItem`, with the tags of include/Tags.h.
use mathlib.Core.Option
use catena.Base.{
  ◌≡◌, refl, Bool, true, false, ◌&&◌, List, Option, none, some, if◌then◌else◌, Bool-cases, inl, inr,
}
use catena.Base.Text.{Text, eqb, lookup, insert, lookup-insert}
use catena.Proto.{Constraint}
use catena.Menus.{MenuGroup}
use catena.Device.{Device, Param, LanguagePack}

-- The tags by which `getItem` chooses a collection.
pub data Tag : Type 0 where
  param_tag constraint_tag menu_group_tag command_tag language_pack_tag menu_tag : Tag

-- What the overloads of `addItem` take.
pub data Item : Type 0 where
  param_item : Param → Item
  constraint_item : Constraint → Item
  menu_group_item : MenuGroup → Item
  language_pack_item : LanguagePack → Item

-- `addItem`: a parameter that is a command has a collection of its own.
unfoldable pub add_item : Text → Item → Device → Device
add_item key (param_item p) d =
    if p.descriptor.own.is_command
    then record d { commands = insert key p d.commands }
    else record d { params = insert key p d.params }
add_item key (constraint_item c) d = record d { constraints = insert key c d.constraints }
add_item key (menu_group_item g) d = record d { menu_groups = insert key g d.menu_groups }
add_item key (language_pack_item l) d = record d { language_packs = insert key l d.language_packs }

-- `getItem`; `none` is the null pointer.
unfoldable pub get_item : Tag → Text → Device → Option Item
get_item param_tag key d = Option.map param_item (lookup key d.params)
get_item constraint_tag key d = Option.map constraint_item (lookup key d.constraints)
get_item menu_group_tag key d = Option.map menu_group_item (lookup key d.menu_groups)
get_item command_tag key d = Option.map param_item (lookup key d.commands)
get_item language_pack_tag key d = Option.map language_pack_item (lookup key d.language_packs)
get_item menu_tag key d = none

-- The collection of an item.
abbrev holds : Tag → Item → Bool
holds param_tag (param_item p) = if p.descriptor.own.is_command then false else true
holds command_tag (param_item p) = p.descriptor.own.is_command
holds constraint_tag (constraint_item c) = true
holds menu_group_tag (menu_group_item g) = true
holds language_pack_tag (language_pack_item l) = true
holds _ _ = false

found-insert :
    {V : Type 0} (wrap : V → Item) (key other : Text) (v : V) (m : List (Text × V))
    → Option.map wrap (lookup other (insert key v m))
      ≡ (if eqb key other then some (wrap v) else Option.map wrap (lookup other m))
found-insert wrap key other v m =
    rw (lookup-insert key other v m) (elim (Bool-cases (eqb key other)) [
      | inl same ↦ rw same refl
      | inr differs ↦ rw differs refl
    ])

-- What was added is found by its key in the collection of its kind; every other key, and every other
-- collection, is answered as before.
get_item-add_item :
    (t : Tag) (key other : Text) (i : Item) (d : Device)
    → get_item t other (add_item key i d)
      ≡ (if holds t i && eqb key other then some i else get_item t other d)
unfolding get_item add_item
get_item-add_item param_tag key other (param_item p) d =
    elim (Bool-cases p.descriptor.own.is_command) [
      | inl command ↦ simp command
      | inr plain ↦ simp (plain, found-insert param_item key other p d.params)
    ]
get_item-add_item command_tag key other (param_item p) d =
    elim (Bool-cases p.descriptor.own.is_command) [
      | inl command ↦ simp (command, found-insert param_item key other p d.commands)
      | inr plain ↦ simp plain
    ]
get_item-add_item constraint_tag key other (param_item p) d =
    elim (Bool-cases p.descriptor.own.is_command) [
      | inl command ↦ simp command
      | inr plain ↦ simp plain
    ]
get_item-add_item menu_group_tag key other (param_item p) d =
    elim (Bool-cases p.descriptor.own.is_command) [
      | inl command ↦ simp command
      | inr plain ↦ simp plain
    ]
get_item-add_item language_pack_tag key other (param_item p) d =
    elim (Bool-cases p.descriptor.own.is_command) [
      | inl command ↦ simp command
      | inr plain ↦ simp plain
    ]
get_item-add_item menu_tag key other (param_item p) d = refl
get_item-add_item constraint_tag key other (constraint_item c) d =
    found-insert constraint_item key other c d.constraints
get_item-add_item menu_group_tag key other (menu_group_item g) d =
    found-insert menu_group_item key other g d.menu_groups
get_item-add_item language_pack_tag key other (language_pack_item l) d =
    found-insert language_pack_item key other l d.language_packs
get_item-add_item param_tag key other (constraint_item c) d = refl
get_item-add_item menu_group_tag key other (constraint_item c) d = refl
get_item-add_item command_tag key other (constraint_item c) d = refl
get_item-add_item language_pack_tag key other (constraint_item c) d = refl
get_item-add_item param_tag key other (menu_group_item g) d = refl
get_item-add_item constraint_tag key other (menu_group_item g) d = refl
get_item-add_item command_tag key other (menu_group_item g) d = refl
get_item-add_item language_pack_tag key other (menu_group_item g) d = refl
get_item-add_item param_tag key other (language_pack_item l) d = refl
get_item-add_item constraint_tag key other (language_pack_item l) d = refl
get_item-add_item menu_group_tag key other (language_pack_item l) d = refl
get_item-add_item command_tag key other (language_pack_item l) d = refl
get_item-add_item menu_tag key other (constraint_item x) d = refl
get_item-add_item menu_tag key other (menu_group_item x) d = refl
get_item-add_item menu_tag key other (language_pack_item x) d = refl
