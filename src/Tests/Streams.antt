-- ===== src/Tests/Streams.antt =====
-- The parts of a device, the streams, and requests for subscriptions.
use catena.Base.{
  ℕ, suc, ◌≡◌, refl, true, false, ◌||◌, ◌&&◌, List, [], ◌∷◌, ◌++◌, map, any, length, Option, none,
  some, All, ◌==◌, arith, if◌then◌else◌,
}
use catena.Base.Int.{pos}
use catena.Base.Text.{Text, txt, eqb, lookup, contains_key, IsMap}
use catena.Base.TextSet.{contains}
use catena.Status.{ok, returns}
use catena.Authorizer.{Claim, authz_disabled}
use catena.ParamPath.Syntax.{is_start, is_word}
use catena.Params.{can_read}
use catena.Params.Stored.{Stored, to_proto}
use catena.Device.{Param, minimal, full}
use catena.Device.Parts.{get_device_serializer}
use catena.Device.Sent.{is_param, allows, get_device_serializer-param}
use catena.Rpc.{Action, Context, client_authorizer}
use catena.Rpc.Controllers.{device_at, checked_slot}
use catena.Rpc.Streams.{stream_life}
use catena.Rpc.Closing.{IsClosed}
use catena.Rpc.Streaming.{
  Service, Updating, not_updating, add_all, remove_all, with_device, update_device, update_body,
  update_round, device_body, device_round,
}
use catena.Device.Serializer.{should_send_param}
use catena.Rpc.Pushing.{Pushing, no_update, pushed_value, update_response}
use catena.Rpc.Pushed.{update_response-should_send_param}
use catena.Rpc.Ending.{update_round-IsClosed}
use catena.Rpc.Sending.{steady, device_round-sends}
use catena.Visitor.{walked}
use catena.Visitor.Below.{IsFlat}
use catena.Subscriptions.{Subscribed, is_subscribed}
use catena.Subscriptions.Adding.{add_subscription}
use catena.Subscriptions.Added.{covers, is_subscribed-add_subscription}
use catena.Tests.{gain, levels, operator_authz, mixer}

abbrev gain_param : Param
gain_param = record { descriptor = gain; value = Stored.int32 (pos 5) }

abbrev levels_param : Param
levels_param = record { descriptor = levels; value = Stored.int32_array (pos 5 ∷ []) }

mixer-IsMap : IsMap mixer.params
unfolding IsMap contains_key eqb
mixer-IsMap = (refl, (refl, tt))

gain_found : lookup (txt "gain") mixer.params ≡ some gain_param
unfolding lookup eqb
gain_found = refl

levels_found : lookup (txt "levels") mixer.params ≡ some levels_param
unfolding lookup eqb
levels_found = refl

get_device_serializer-param_example :
    any (is_param (txt "gain")) (get_device_serializer mixer operator_authz [] minimal)
    ≡ (can_read operator_authz gain && allows minimal true (contains (txt "/gain") []))
get_device_serializer-param_example =
    get_device_serializer-param mixer operator_authz [] minimal (txt "gain") gain_param mixer-IsMap
      gain_found

mixer-IsFlat : All (IsFlat mixer) mixer.params
unfolding is_start is_word
mixer-IsFlat =
    let gain_flat : IsFlat mixer (txt "gain", gain_param) = record {
      named = (refl, (refl, (refl, (refl, tt))));
      found = gain_found;
      same_oid = refl;
      no_fields = refl;
    } in
    let levels_flat : IsFlat mixer (txt "levels", levels_param) = record {
      named = (refl, (refl, (refl, (refl, (refl, (refl, tt))))));
      found = levels_found;
      same_oid = refl;
      no_fields = refl;
    } in
    (gain_flat, (levels_flat, tt))

abbrev watched : Subscribed
watched slot = txt "/gain" ∷ []

is_subscribed-add_subscription_example :
    (after : Subscribed) × (((add_subscription 2 (txt "/*") mixer operator_authz watched).1
        ≡ walked after)
      × ((o : Text) (slot : ℕ)
          → is_subscribed o slot after ≡ (
              (slot == 1 && covers mixer operator_authz (txt "/*") o)
              || is_subscribed o slot watched)))
is_subscribed-add_subscription_example =
    is_subscribed-add_subscription mixer operator_authz 0 (txt "/*") watched mixer-IsFlat

abbrev no_claims : Text → Option (List (Text × Claim))
no_claims t = some []

abbrev open_context : Context
open_context = record { authorization_enabled = false; metadata = some [] }

abbrev service : Service
service = ((1, some mixer) ∷ [], watched)

abbrev updating : Updating
updating = record { slot = 1; authz = authz_disabled; left = txt "/gain" ∷ [] }

update_body_returns :
    (update_body no_claims open_context 2 (pos 1) [] [] service).0 ≡ returns (ok, updating)
unfolding update_body with_device update_device add_all remove_all checked_slot device_at
    client_authorizer
update_body_returns = refl

-- One event of the four fails.
update_round-IsClosed_example : IsClosed 1 (
    stream_life (update_body no_claims open_context 2 (pos 1) [] []) update_round not_updating (
      (true, service)
      ∷ (true, service)
      ∷ (true, service)
      ∷ (false, service)
      ∷ (true, service)
      ∷ []))
update_round-IsClosed_example =
    update_round-IsClosed no_claims open_context 2 (pos 1) [] [] true true service service
      ((true, service) ∷ (false, service) ∷ (true, service) ∷ [])
      (rw update_body_returns (omega arith))

in_range : checked_slot (pos 1) ≡ returns 1
unfolding checked_slot
in_range = refl

mixer_there : device_at 1 service.0 ≡ some mixer
unfolding device_at
mixer_there = refl

authz_known : client_authorizer no_claims open_context ≡ returns authz_disabled
unfolding client_authorizer
authz_known = refl

device_round-sends_example :
    stream_life (device_body no_claims open_context 2 (pos 1) full []) device_round none (
      steady
        (suc (suc (suc (length (get_device_serializer mixer authz_disabled [] full)))))
        service)
    ≡ Action.request
      ∷ Action.spawn true
      ∷ Action.notify_when_done
      ∷ (map (λ r. Action.send r) (get_device_serializer mixer authz_disabled [] full)
          ++ Action.complete ∷ Action.deregister ∷ [])
device_round-sends_example =
    device_round-sends no_claims open_context 2 (pos 1) full [] service 1 mixer authz_disabled
      in_range mixer_there authz_known refl

abbrev gain_pushing : Pushing
gain_pushing = record {
  level = minimal;
  authz = operator_authz;
  shutdown = false;
  has_update = false;
  response = no_update;
}

update_response-should_send_param_example :
    update_response false false (txt "/gain") gain_param 1 gain_pushing ≡ (
      if should_send_param (record mixer { detail_level = minimal }) gain_param false operator_authz
      then record gain_pushing {
        response =
            pushed_value 1 (txt "/gain") ((to_proto (Stored.int32 (pos 5)) gain operator_authz).1);
        has_update = true;
      }
      else gain_pushing)
update_response-should_send_param_example =
    update_response-should_send_param mixer false (txt "/gain") gain_param 1 gain_pushing
