-- ===== src/Tests/Devices.antt =====
-- Devices, their calls and the subscriptions.
use catena.Base.{
  ℕ, ◌≤◌, ◌≡◌, ◌↔◌, refl, sym, ◌∙◌, ◌⊎◌, true, false, List, [], ◌∷◌, Option, none, some, All, ◌==◌,
}
use catena.Base.Int.{pos}
use catena.Base.Text.{Text, txt, eqb, lookup, insert, contains_key, IsMap, starts_with, ends_with}
use catena.Base.TextSet
use catena.Status.{
  StatusCode, ok, unauthenticated, Outcome, returns, throws, Exception, with_status,
  returns-injective,
}
use catena.Proto.{ProtoValue, int32_value}
use catena.Authorizer.{Claim, authz_disabled, write_authz, write_authz_param, has_authz, read_authz}
use catena.Utils.{subs, subs_loop, find_seq}
use catena.ParamPath.Syntax.{tokens}
use catena.ParamPath.{
  ParamPath, Segment, parse, back_as_index, front_as_string, front_is_string, back_is_index,
  pop_back, pop, empty, k_none, k_end,
}
use catena.Params.{can_read, can_write, read_only, max_length, total_length}
use catena.Params.Convert.{valid_int32, breaks_choice}
use catena.Params.Stored.{
  check_lengths, holds_vector, is_settable, member_sizes, message_size, size, test_member, valid,
  validate_member, validate_set_value, validate_whole,
}
use catena.Device.Lookup.{get_param}
use catena.Device.{Device}
use catena.Device.Values.{
  SetValue, overlaps, reset_values, set_value, try_values, validate_at, validate_one,
  try_multi_set_value, commit_multi_set_value,
}
use catena.Device.Single.{set_value_cases}
use catena.Device.Overlap.{Apart, try_multi_set_value-Accepted}
use catena.Device.Frame.{IsFramed, Spares, commit_multi_set_value-IsFramed}
use catena.Device.Languages.{AddLanguagePayload, add_language, remove_language}
use catena.Device.Packs.{IsShipped, IsTracked, LanguageSteps, removed, done, step, steps-IsShipped}
use catena.Rpc.{Context}
use catena.Rpc.Controllers.{Devices, device_at, get_value_body, multi_set_value_body}
use catena.Rpc.Slots.{IsPermitted, multi_set_value_body-IsPermitted, multi_set_value_body-rejected}
use catena.Subscriptions.{Subscribed, remove_subscription, is_subscribed}
use catena.Subscriptions.Removed.{IsTaken, is_subscribed-remove_subscription}
use catena.Tests.{english, mixer}

abbrev set_gain : SetValue
set_gain = record { oid = txt "/gain"; value = int32_value (pos 7) }

abbrev append_level : SetValue
append_level = record { oid = txt "/levels/-"; value = int32_value (pos 5) }

abbrev end_path : ParamPath
end_path = record {
  segments = Segment.string (txt "levels") ∷ Segment.index k_end ∷ [];
  front_idx = 0;
}

parse-end_path : parse (txt "/levels/-") ≡ returns end_path
unfolding parse tokens subs subs_loop find_seq starts_with
parse-end_path = refl

not_none :
    (path : ParamPath)
    → parse (txt "/levels/-") ≡ returns path
    → (back_as_index path == k_none) ≡ false
unfolding back_as_index
not_none path h = rw (← returns-injective (sym parse-end_path ∙ h))

set_value_cases_example :
    ((rc : StatusCode) × ((set_value mixer (txt "/levels/-") (int32_value (pos 5)) authz_disabled).0
        ≡ returns rc))
    ⊎ ((e : Exception) × ((parse (txt "/levels/-") ≡ throws e)
          × ((set_value mixer (txt "/levels/-") (int32_value (pos 5)) authz_disabled).0
              ≡ throws e)))
set_value_cases_example =
    set_value_cases mixer (txt "/levels/-") (int32_value (pos 5)) authz_disabled not_none

-- A value for one member, and one for another parameter.
both_accepted :
    try_multi_set_value mixer (set_gain ∷ append_level ∷ []) ok authz_disabled ≡ returns ok
unfolding try_multi_set_value try_values overlaps validate_one validate_at reset_values parse tokens
    empty back_is_index back_as_index pop_back front_is_string front_as_string lookup eqb subs
    subs_loop find_seq starts_with ends_with can_read read_authz has_authz pop get_param valid_int32
    breaks_choice write_authz write_authz_param can_write read_only max_length total_length
    check_lengths holds_vector is_settable member_sizes message_size size test_member valid
    validate_member validate_set_value validate_whole
both_accepted = refl

try_multi_set_value-Accepted_example :
    All (λ v. validate_one mixer authz_disabled v ≡ returns ok) (set_gain ∷ append_level ∷ [])
    × (Apart (set_gain ∷ append_level ∷ []) × ((2 ≤ 1) ⊎ (mixer.multi_set_enabled ≡ true)))
try_multi_set_value-Accepted_example =
    try_multi_set_value-Accepted mixer authz_disabled (set_gain ∷ append_level ∷ []) both_accepted

append_level-Spares : Spares (txt "gain") (append_level ∷ [])
unfolding Spares back_is_index pop_back front_as_string eqb
append_level-Spares = ((λ path h. rw (← returns-injective (sym parse-end_path ∙ h))), tt)

commit_multi_set_value-IsFramed_example :
    IsFramed
      (txt "gain")
      mixer
      ((commit_multi_set_value mixer (append_level ∷ []) ok authz_disabled).1)
commit_multi_set_value-IsFramed_example =
    commit_multi_set_value-IsFramed mixer (append_level ∷ []) ok authz_disabled (txt "gain")
      append_level-Spares

english-IsShipped : IsShipped mixer (txt "en") english
unfolding lookup eqb TextSet.contains
english-IsShipped = record { here = refl; not_added = refl }

abbrev removal : LanguageSteps mixer ((remove_language mixer (txt "en") authz_disabled).1)
removal =
    step mixer ((remove_language mixer (txt "en") authz_disabled).1)
      ((remove_language mixer (txt "en") authz_disabled).1)
      (removed mixer (txt "en") authz_disabled)
      (done ((remove_language mixer (txt "en") authz_disabled).1))

steps-IsShipped_example :
    IsShipped ((remove_language mixer (txt "en") authz_disabled).1) (txt "en") english
steps-IsShipped_example =
    steps-IsShipped mixer ((remove_language mixer (txt "en") authz_disabled).1) (txt "en") english
      removal english-IsShipped

mixer-IsTracked : IsTracked mixer
unfolding IsTracked TextSet.contains
mixer-IsTracked id h = cc

abbrev french : AddLanguagePayload
french = record { language = txt "fr"; name = txt "French"; words = (txt "hi", txt "Salut") ∷ [] }

french-IsMap : IsMap french.words
unfolding IsMap contains_key
french-IsMap = (refl, tt)

abbrev with_french : Device
with_french = record mixer {
  language_packs =
      (txt "en", english)
      ∷ (txt "fr", record { name = txt "French"; words = (txt "hi", txt "Salut") ∷ [] })
      ∷ [];
  added_packs = txt "fr" ∷ [];
}

add_french : add_language mixer french authz_disabled ≡ (ok, with_french)
unfolding add_language write_authz has_authz contains_key eqb insert TextSet.insert
add_french = refl

abbrev no_token : Text → Option (List (Text × Claim))
no_token t = none

abbrev no_metadata : Context
no_metadata = record { authorization_enabled = true; metadata = some [] }

abbrev devices : Devices
devices = (1, some mixer) ∷ []

-- A service that asks for no authorization.
abbrev unprotected : Context
unprotected = record { authorization_enabled = false; metadata = none }

multi_set_value_body-IsPermitted_example :
    IsPermitted no_token unprotected
      (pos 1)
      (set_gain ∷ [])
      devices
      ((multi_set_value_body no_token unprotected (pos 1) (set_gain ∷ []) devices).1)
multi_set_value_body-IsPermitted_example =
    multi_set_value_body-IsPermitted no_token unprotected (pos 1) (set_gain ∷ []) devices

-- The token is not decoded.
abbrev bad_token : Context
bad_token = record {
  authorization_enabled = true;
  metadata = some ((txt "authorization", txt "Bearer abc") ∷ []);
}

multi_set_value_body-rejected_example :
    ((multi_set_value_body no_token bad_token (pos 1) (set_gain ∷ []) devices).1 ≡ devices)
    × ((n : ℕ) (d : Device)
        → pos 1 ≡ pos n
        → n ≤ 65535
        → device_at n devices ≡ some d
        → (multi_set_value_body no_token bad_token (pos 1) (set_gain ∷ []) devices).0
          ≡ throws (with_status unauthenticated))
multi_set_value_body-rejected_example =
    multi_set_value_body-rejected no_token bad_token (pos 1) (set_gain ∷ []) devices refl
      (λ meta t sent there. refl)

abbrev get_gain : Devices → Outcome (StatusCode × Option ProtoValue) × Devices
get_gain = get_value_body no_token no_metadata (pos 1) (txt "/gain")

abbrev watched : Subscribed
watched slot = txt "/gain" ∷ txt "/levels" ∷ []

is_subscribed-remove_subscription_example :
    (is_subscribed (txt "/levels") 1 ((remove_subscription (txt "/level/*") 1 watched).1) ≡ true)
    ↔ ((is_subscribed (txt "/levels") 1 watched ≡ true)
        × (◌≡◌ {A = ℕ} 1 1 → IsTaken (txt "/level/*") (txt "/levels") → ⊥))
is_subscribed-remove_subscription_example =
    is_subscribed-remove_subscription (txt "/level/*") (txt "/levels") 1 1 watched
