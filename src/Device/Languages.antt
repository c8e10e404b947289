-- ===== src/Device/Languages.antt =====
-- Device.cpp: `addLanguage`, `removeLanguage`, `getLanguagePack` and `toProto` of a language list;
-- src/LanguagePack.cpp. The slots of the signal for an added language are not modelled.
use catena.Base.{
  Bool, true, false, ◌||◌, ◌&&◌, not, List, [], ◌∷◌, Option, none, some, if◌then◌else◌, map,
}
use catena.Base.Text.{Text, lookup, insert, erase, contains_key}
use catena.Base.TextSet
use catena.Status.{StatusCode, ok, permission_denied, invalid_argument, not_found}
use catena.Authorizer.{Authorizer, write_authz, scope_name, admin}
use catena.Device.{Device, LanguagePack}

-- `st2138::AddLanguagePayload`: the id, and the pack of the message.
pub record AddLanguagePayload : Type 0 where
  pub language : Text
  pub name : Text
  pub words : List (Text × Text)

unfoldable pub copy_words : List (Text × Text) → List (Text × Text) → List (Text × Text)
copy_words into [] = into
copy_words into ((key, value) ∷ words) = copy_words (insert key value into) words

-- `LanguagePack::fromProto` and `LanguagePack::toProto`
unfoldable pub pack_from_proto : Text → List (Text × Text) → LanguagePack → LanguagePack
unfolding copy_words
pack_from_proto name words pack = record { name = name; words = copy_words pack.words words }

unfoldable pub pack_to_proto : LanguagePack → LanguagePack
unfolding copy_words
pack_to_proto pack = record { name = pack.name; words = copy_words [] pack.words }

abbrev pub is_empty : Text → Bool
is_empty [] = true
is_empty (c ∷ s) = false

-- `addLanguage`: the constructor of the pack enters it in the device's map.
unfoldable pub add_language : Device → AddLanguagePayload → Authorizer → StatusCode × Device
unfolding pack_from_proto
add_language d language authz =
    if not (write_authz authz (scope_name admin))
    then (permission_denied, d)
    else if is_empty language.name || is_empty language.language
    then (invalid_argument, d)
    else if contains_key language.language d.language_packs
        && not (TextSet.contains language.language d.added_packs)
    then (permission_denied, d)
    else (
      ok,
      record d {
        added_packs = TextSet.insert language.language d.added_packs;
        language_packs =
            insert language.language
              (pack_from_proto language.name language.words
                (record { name = language.name; words = [] }))
              d.language_packs;
      },
    )

-- `removeLanguage`
unfoldable pub remove_language : Device → Text → Authorizer → StatusCode × Device
remove_language d language_id authz =
    if not (write_authz authz (scope_name admin))
    then (permission_denied, d)
    else if contains_key language_id d.language_packs
        && not (TextSet.contains language_id d.added_packs)
    then (permission_denied, d)
    else if not (contains_key language_id d.language_packs)
    then (not_found, d)
    else (
      ok,
      record d {
        added_packs = TextSet.erase language_id d.added_packs;
        language_packs = erase language_id d.language_packs;
      },
    )

-- `getLanguagePack`: the status, and the pack of the message where it is set.
unfoldable pub get_language_pack : Device → Text → StatusCode × Option LanguagePack
unfolding pack_to_proto
get_language_pack d language_id =
    if is_empty language_id
    then (invalid_argument, none)
    else elim (lookup language_id d.language_packs) [
      | none ↦ (not_found, none)
      | some pack ↦ (ok, some (pack_to_proto pack))
    ]

-- `toProto(LanguageList)`
unfoldable pub list_languages : Device → List Text
list_languages d = map (λ entry. entry.0) d.language_packs

unfoldable pub has_language : Device → Text → Bool
has_language d language_id = contains_key language_id d.language_packs
