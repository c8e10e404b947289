-- ===== src/Device/Sent.antt =====
-- What a device's parts tell a client of its parameters.
use catena.Base.{
  ◌≡◌, refl, Bool, true, false, ◌&&◌, ◌||◌, List, [], ◌∷◌, ◌++◌, map, any, some, arith,
}
use catena.Base.Text.{Text, eqb, IsMap, lookup, any_key-lookup}
use catena.Base.TextSet.{contains}
use catena.Authorizer.{Authorizer}
use catena.Proto.{Constraint}
use catena.Params.{can_read}
use catena.Menus.{Menu, MenuGroup}
use catena.Device.{
  Device, Param, LanguagePack, DetailLevel, full, subscriptions, minimal, commands_only, unset,
  none_level,
}
use catena.Device.Languages.{pack_to_proto}
use catena.Device.Parts.{
  Component, menu, language_pack, shared_constraint, command, param, menus_of, menu_parts,
  full_parts, command_parts, param_parts, is_wanted, later_parts, device_part,
  get_device_serializer,
}

-- A part that tells of the parameter with a name, or of the command with it.
abbrev pub is_param : Text → Component → Bool
is_param name (param oid message) = eqb oid name
is_param name _ = false

abbrev pub is_command : Text → Component → Bool
is_command name (command oid message) = eqb oid name
is_command name _ = false

-- The parameters that a detail level is for.
abbrev pub allows : DetailLevel → Bool → Bool → Bool
allows full minimal_set subscribed = true
allows subscriptions minimal_set subscribed = minimal_set || subscribed
allows minimal minimal_set subscribed = minimal_set
allows commands_only minimal_set subscribed = false
allows unset minimal_set subscribed = minimal_set
allows none_level minimal_set subscribed = false

abbrev sends_params : DetailLevel → Bool
sends_params commands_only = false
sends_params none_level = false
sends_params _ = true

abbrev pub allows_commands : DetailLevel → Bool
allows_commands full = true
allows_commands commands_only = true
allows_commands _ = false

any-append {ℓ} :
    {A : Type ℓ} (p : A → Bool) (xs ys : List A) → any p (xs ++ ys) ≡ (any p xs || any p ys)
any-append p [] ys = refl
any-append p (x ∷ xs) ys = ground (arith, any-append p xs ys)

-- The parts that stand for neither.
abbrev IsOther : (Component → Bool) → Type 0
IsOther q =
    ((oid : Text) (m : Menu) → q (menu oid m) ≡ false)
    × ((oid : Text) (pack : LanguagePack) → q (language_pack oid pack) ≡ false)
    × ((oid : Text) (c : Constraint) → q (shared_constraint oid c) ≡ false)

any-menus_of :
    (q : Component → Bool) (group : Text) (menus : List (Text × Menu))
    → IsOther q
    → any q (menus_of group menus) ≡ false
unfolding menus_of
any-menus_of q group [] h = refl
any-menus_of q group ((name, m) ∷ menus) h = rw (h.0, any-menus_of q group menus h)

any-menu_parts :
    (q : Component → Bool) (groups : List (Text × MenuGroup))
    → IsOther q
    → any q (menu_parts groups) ≡ false
unfolding menu_parts
any-menu_parts q [] h = refl
any-menu_parts q ((group, g) ∷ groups) h =
    rw (any-append q (menus_of group g.menus) (menu_parts groups), any-menus_of q group g.menus h)
      (any-menu_parts q groups h)

any-map_none {ℓ} :
    {A : Type ℓ} (q : Component → Bool) (f : A → Component) (xs : List A)
    → ((x : A) → q (f x) ≡ false)
    → any q (map f xs) ≡ false
any-map_none q f [] h = refl
any-map_none q f (x ∷ xs) h = rw (h x) (any-map_none q f xs h)

any-full_parts : (q : Component → Bool) (d : Device) → IsOther q → any q (full_parts d) ≡ false
unfolding full_parts
any-full_parts q d (menus, packs, constraints) =
    let a = menu_parts d.menu_groups in
    let b = map (λ entry. language_pack entry.0 (pack_to_proto entry.1)) d.language_packs in
    let c = map (λ entry. shared_constraint entry.0 entry.1) d.constraints in
    rw (
      any-append q a (b ++ c),
      any-append q b c,
      any-menu_parts q d.menu_groups (menus, packs, constraints),
      any-map_none q (λ entry. language_pack entry.0 (pack_to_proto entry.1)) d.language_packs
          (λ entry. packs entry.0 (pack_to_proto entry.1)),
      any-map_none q (λ entry. shared_constraint entry.0 entry.1) d.constraints
          (λ entry. constraints entry.0 entry.1),
    )

is_param-command_parts :
    (name : Text) (authz : Authorizer) (ps : List (Text × Param))
    → any (is_param name) (command_parts authz ps) ≡ false
unfolding command_parts
is_param-command_parts name authz [] = refl
is_param-command_parts name authz ((k, p) ∷ ps) =
    ground (arith, is_param-command_parts name authz ps)

is_command-param_parts :
    (name : Text) (authz : Authorizer) (oids : List Text) (dl : DetailLevel)
    (ps : List (Text × Param))
    → any (is_command name) (param_parts authz oids dl ps) ≡ false
unfolding param_parts
is_command-param_parts name authz oids dl [] = refl
is_command-param_parts name authz oids dl ((k, p) ∷ ps) =
    ground (arith, is_command-param_parts name authz oids dl ps)

is_param-param_parts :
    (name : Text) (authz : Authorizer) (oids : List Text) (dl : DetailLevel)
    (ps : List (Text × Param))
    → any (is_param name) (param_parts authz oids dl ps)
      ≡ any (λ e. eqb e.0 name && (can_read authz e.1.descriptor && is_wanted dl oids e.0 e.1)) ps
unfolding param_parts
is_param-param_parts name authz oids dl [] = refl
is_param-param_parts name authz oids dl ((k, p) ∷ ps) =
    ground (arith, is_param-param_parts name authz oids dl ps)

is_command-command_parts :
    (name : Text) (authz : Authorizer) (ps : List (Text × Param))
    → any (is_command name) (command_parts authz ps)
      ≡ any (λ e. eqb e.0 name && can_read authz e.1.descriptor) ps
unfolding command_parts
is_command-command_parts name authz [] = refl
is_command-command_parts name authz ((k, p) ∷ ps) =
    ground (arith, is_command-command_parts name authz ps)

-- The parts behind the first, by a test that none of the parts of a full device passes.
any-later_parts :
    (q : Component → Bool) (d : Device) (authz : Authorizer) (oids : List Text) (dl : DetailLevel)
    → IsOther q
    → any q (later_parts d authz oids dl) ≡ (
        (allows_commands dl && any q (command_parts authz d.commands))
        || (sends_params dl && any q (param_parts authz oids dl d.params)))
unfolding later_parts
any-later_parts q d authz oids full other =
    let a = full_parts d in
    let b = command_parts authz d.commands in
    let c = param_parts authz oids full d.params in
    ground (arith, any-append q a (b ++ c), any-append q b c, any-full_parts q d other)
any-later_parts q d authz oids subscriptions other = refl
any-later_parts q d authz oids minimal other = refl
any-later_parts q d authz oids commands_only other =
    ground (arith, any-append q (command_parts authz d.commands) [])
any-later_parts q d authz oids unset other = refl
any-later_parts q d authz oids none_level other = refl

-- A device in parts tells of a parameter exactly where the client may read it and the detail level
-- is for it: every parameter for the full level, those of the minimal set for the minimal level, and
-- for subscriptions those of the minimal set and the subscribed ones. The names are distinct.
pub get_device_serializer-param :
    (d : Device) (authz : Authorizer) (oids : List Text) (dl : DetailLevel) (name : Text)
    (p : Param)
    → IsMap d.params
    → lookup name d.params ≡ some p
    → any (is_param name) (get_device_serializer d authz oids dl) ≡ (
        can_read authz p.descriptor
        && allows dl p.descriptor.own.minimal_set (contains (b'/' ∷ name) oids))
unfolding get_device_serializer device_part
get_device_serializer-param d authz oids dl name p distinct found =
    let later =
      any-later_parts (is_param name) d authz oids dl
        ((λ o m. refl), (λ o m. refl), (λ o m. refl)) in
    let commands = is_param-command_parts name authz d.commands in
    let here = is_param-param_parts name authz oids dl d.params in
    let told =
      any_key-lookup name p (λ n q. can_read authz q.descriptor && is_wanted dl oids n q) d.params
        distinct found in
    rw (later, commands, here, told) (level_cases dl)
  where
    level_cases :
        (l : DetailLevel)
        → ((allows_commands l && false)
            || (sends_params l && (can_read authz p.descriptor && is_wanted l oids name p)))
          ≡ (can_read authz p.descriptor
              && allows l p.descriptor.own.minimal_set (contains (b'/' ∷ name) oids))
    level_cases full = unfold is_wanted in ground arith
    level_cases subscriptions = unfold is_wanted in ground arith
    level_cases minimal = unfold is_wanted in ground arith
    level_cases commands_only = unfold is_wanted in ground arith
    level_cases unset = unfold is_wanted in ground arith
    level_cases none_level = unfold is_wanted in ground arith

-- It tells of a command exactly where the client may read it and the level is full or that of the
-- commands.
pub get_device_serializer-command :
    (d : Device) (authz : Authorizer) (oids : List Text) (dl : DetailLevel) (name : Text)
    (p : Param)
    → IsMap d.commands
    → lookup name d.commands ≡ some p
    → any (is_command name) (get_device_serializer d authz oids dl)
      ≡ (allows_commands dl && can_read authz p.descriptor)
unfolding get_device_serializer device_part
get_device_serializer-command d authz oids dl name p distinct found =
    let later =
      any-later_parts (is_command name) d authz oids dl
        ((λ o m. refl), (λ o m. refl), (λ o m. refl)) in
    let params = is_command-param_parts name authz oids dl d.params in
    let here = is_command-command_parts name authz d.commands in
    let told =
      any_key-lookup name p (λ n q. can_read authz q.descriptor) d.commands distinct found in
    rw (later, params, here, told) (ground arith)
