-- ===== src/Device/Packs.antt =====
-- The language packs of a device over any sequence of additions and removals.
use catena.Base.{
  ◌≡◌, refl, ap, sym, ◌∙◌, ◌⊎◌, inl, inr, true, false, ◌||◌, ◌&&◌, not, List, [], ◌∷◌, ◌++◌, some,
  Bool-cases, arith,
}
use mathlib.Core.List.{append-nil, append_assoc}
use catena.Base.Text.{
  Text, eqb, eqb_self, eqb_sym, eqb_sound, lookup, insert, erase, contains_key, lookup-insert,
  lookup-erase, contains_key-insert, contains_key-erase, contains_key-lookup, IsMap,
}
use catena.Base.TextSet
use catena.Base.TextSet.{contains-insert, contains-erase}
use catena.Status.{ok, is_ok}
use catena.Authorizer.{Authorizer, write_authz, scope_name, admin}
use catena.Device.{Device, LanguagePack}
use catena.Device.Languages.{
  AddLanguagePayload, add_language, remove_language, get_language_pack, copy_words, is_empty,
  pack_from_proto, pack_to_proto,
}

-- A pack that came with the device.
pub record IsShipped (d : Device) (id : Text) (pack : LanguagePack) : Type 0 where
  pub here : lookup id d.language_packs ≡ some pack
  pub not_added : TextSet.contains id d.added_packs ≡ false

-- Every added pack is one of the device's packs.
unfoldable pub IsTracked : Device → Type 0
IsTracked d =
    (id : Text) → TextSet.contains id d.added_packs ≡ true → contains_key id d.language_packs ≡ true

-- The requests that change the packs.
pub data LanguageStep : Device → Device → Type 0 where
  added :
      (d : Device) (language : AddLanguagePayload) (authz : Authorizer)
      → LanguageStep d ((add_language d language authz).1)
  removed :
      (d : Device) (id : Text) (authz : Authorizer)
      → LanguageStep d ((remove_language d id authz).1)

pub data LanguageSteps : Device → Device → Type 0 where
  done : (d : Device) → LanguageSteps d d
  step : (c d e : Device) → LanguageStep c d → LanguageSteps d e → LanguageSteps c e

-- A request for a pack that came with the device changes nothing.
add-cases :
    (d : Device) (l : AddLanguagePayload) (authz : Authorizer)
    → (((add_language d l authz).1 ≡ d) × (is_ok ((add_language d l authz).0) ≡ false))
      ⊎ ((is_empty l.language ≡ false)
          × ((contains_key l.language d.language_packs
                  && not (TextSet.contains l.language d.added_packs))
                ≡ false
              × ((add_language d l authz) ≡ (
                ok,
                record d {
                  added_packs = TextSet.insert l.language d.added_packs;
                  language_packs =
                      insert l.language
                        (pack_from_proto l.name l.words (record { name = l.name; words = [] }))
                        d.language_packs;
                },
              ))))
unfolding add_language
add-cases d l authz = elim (Bool-cases (write_authz authz (scope_name admin))) [
  | inr refused ↦ inl (rw refused, rw refused)
  | inl allowed ↦ elim (Bool-cases (is_empty l.name || is_empty l.language)) [
    | inl bad ↦ inl (rw (allowed, bad), rw (allowed, bad))
    | inr good ↦
        elim (Bool-cases (
          contains_key l.language d.language_packs
          && not (TextSet.contains l.language d.added_packs))) [
            | inl shipped ↦ inl (rw (allowed, good, shipped), rw (allowed, good, shipped))
            | inr free ↦ inr (ground arith, (free, rw (allowed, good, free)))
          ]
  ]
]

remove-cases :
    (d : Device) (id : Text) (authz : Authorizer)
    → ((remove_language d id authz).1 ≡ d)
      ⊎ ((contains_key id d.language_packs && not (TextSet.contains id d.added_packs)) ≡ false
          × ((remove_language d id authz) ≡ (
            ok,
            record d {
              added_packs = TextSet.erase id d.added_packs;
              language_packs = erase id d.language_packs;
            },
          )))
unfolding remove_language
remove-cases d id authz = elim (Bool-cases (write_authz authz (scope_name admin))) [
  | inr refused ↦ inl (rw refused)
  | inl allowed ↦
      elim (Bool-cases
        (contains_key id d.language_packs && not (TextSet.contains id d.added_packs))) [
          | inl shipped ↦ inl (rw (allowed, shipped))
          | inr free ↦ elim (Bool-cases (contains_key id d.language_packs)) [
            | inr missing ↦ inl (rw (allowed, free, missing))
            | inl here ↦ inr (free, rw (allowed, free, here))
          ]
        ]
]

-- A pack that came with the device is none that may be changed.
other :
    (d : Device) (id j : Text) (pack : LanguagePack)
    → IsShipped d id pack
    → (contains_key j d.language_packs && not (TextSet.contains j d.added_packs)) ≡ false
    → eqb j id ≡ false
other d id j pack s free = elim (Bool-cases (eqb j id)) [
  | inr differ ↦ differ
  | inl same ↦
      let clash : true ≡ false =
        rw (eqb_sound j id same, contains_key-lookup id d.language_packs, s.here, s.not_added) at
          free in
      cc
]

step-IsShipped :
    (c d : Device) (id : Text) (pack : LanguagePack)
    → LanguageStep c d
    → IsShipped c id pack
    → IsShipped d id pack
step-IsShipped c _ id pack (added _ language authz) s = elim (add-cases c language authz) [
  | inl (same, refused) ↦ rw same s
  | inr (named, (free, now)) ↦ rw now (record {
    here =
        lookup-insert language.language id _ c.language_packs
        ∙ rw (other c id language.language pack s free, s.here);
    not_added =
        contains-insert language.language id c.added_packs
        ∙ rw (other c id language.language pack s free, s.not_added);
  })
]
step-IsShipped c _ id pack (removed _ j authz) s = elim (remove-cases c j authz) [
  | inl same ↦ rw same s
  | inr (free, now) ↦ rw now (record {
    here = lookup-erase j id c.language_packs ∙ rw (other c id j pack s free, s.here);
    not_added = contains-erase j id c.added_packs ∙ rw (other c id j pack s free, s.not_added);
  })
]

-- A pack that came with the device is still there, unchanged, after any sequence of requests to add
-- and to remove packs, by whatever client.
pub steps-IsShipped :
    (c d : Device) (id : Text) (pack : LanguagePack)
    → LanguageSteps c d
    → IsShipped c id pack
    → IsShipped d id pack
steps-IsShipped c _ id pack (done _) s = s
steps-IsShipped c e id pack (step _ d _ first rest) s =
    steps-IsShipped d e id pack rest (step-IsShipped c d id pack first s)

insert-there :
    (id j : Text) (ids : List Text) (v : LanguagePack) (packs : List (Text × LanguagePack))
    → (TextSet.contains id ids ≡ true → contains_key id packs ≡ true)
    → TextSet.contains id (TextSet.insert j ids) ≡ true
    → contains_key id (insert j v packs) ≡ true
insert-there id j ids v packs there =
    ground (arith, contains_key-insert j id v packs, contains-insert j id ids)

erase-there :
    (id j : Text) (ids : List Text) (packs : List (Text × LanguagePack))
    → (TextSet.contains id ids ≡ true → contains_key id packs ≡ true)
    → TextSet.contains id (TextSet.erase j ids) ≡ true
    → contains_key id (erase j packs) ≡ true
erase-there id j ids packs there =
    ground (arith, contains_key-erase j id packs, contains-erase j id ids)

step-IsTracked : (c d : Device) → LanguageStep c d → IsTracked c → IsTracked d
unfolding IsTracked
step-IsTracked c _ (added _ l authz) t = elim (add-cases c l authz) [
  | inl (same, refused) ↦ rw same t
  | inr (named, (free, now)) ↦
      rw now λ id. insert-there id l.language c.added_packs _ c.language_packs (t id)
]
step-IsTracked c _ (removed _ j authz) t = elim (remove-cases c j authz) [
  | inl same ↦ rw same t
  | inr (free, now) ↦ rw now λ id. erase-there id j c.added_packs c.language_packs (t id)
]

-- Where every added pack is one of the device's packs, that still holds after any sequence of
-- requests to add and to remove packs.
pub steps-IsTracked : (c d : Device) → LanguageSteps c d → IsTracked c → IsTracked d
steps-IsTracked c _ (done _) t = t
steps-IsTracked c e (step _ d _ first rest) t =
    steps-IsTracked d e rest (step-IsTracked c d first t)

contains_key-append :
    (k : Text) (a b : List (Text × Text))
    → contains_key k (a ++ b) ≡ (contains_key k a || contains_key k b)
unfolding contains_key
contains_key-append k [] b = refl
contains_key-append k ((j, w) ∷ a) b = ground (arith, contains_key-append k a b)

insert-new :
    (k v : Text) (into words : List (Text × Text))
    → IsMap (into ++ (k, v) ∷ words)
    → insert k v into ≡ into ++ (k, v) ∷ []
unfolding insert contains_key IsMap
insert-new k v [] words distinct = refl
insert-new k v ((j, w) ∷ into) words (new, distinct) =
    let differ : eqb j k ≡ false =
      ground (arith, contains_key-append j into ((k, v) ∷ words), eqb_sym j k) in
    rw (differ, insert-new k v into words distinct)

copy_words-append :
    (into words : List (Text × Text))
    → IsMap (into ++ words)
    → copy_words into words ≡ into ++ words
unfolding copy_words
copy_words-append into [] distinct = sym (append-nil into)
copy_words-append into ((k, v) ∷ words) distinct = rw (insert-new k v into words distinct) (
    copy_words-append (into ++ (k, v) ∷ []) words
      (rw (append_assoc into ((k, v) ∷ []) words) distinct)
    ∙ append_assoc into ((k, v) ∷ []) words)

-- A pack that was added is what a request for it is answered with, its name and its words.
add-get :
    (d d' : Device) (l : AddLanguagePayload) (authz : Authorizer)
    → IsMap l.words
    → add_language d l authz ≡ (ok, d')
    → get_language_pack d' l.language ≡ (ok, some (record { name = l.name; words = l.words }))
unfolding get_language_pack pack_from_proto pack_to_proto
add-get d d' l authz distinct h = elim (add-cases d l authz) [
  | inl (same, refused) ↦ let clash : true ≡ false = rw h at refused in cc
  | inr (named, (free, now)) ↦
      let d'_lem = ap (λ r. r.1) (sym h ∙ now) in
      rw (
        d'_lem,
        named,
        lookup-insert l.language l.language
            (pack_from_proto l.name l.words (record { name = l.name; words = [] }))
            d.language_packs,
        eqb_self l.language,
        copy_words-append [] l.words distinct,
        copy_words-append [] l.words distinct,
      )
]
