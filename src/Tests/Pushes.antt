-- ===== src/Tests/Pushes.antt =====
-- A REST connection that is told of a language pack and of the shutdown, and a request for information.
use catena.Base.{◌≡◌, refl, true, false, [], ◌∷◌, none, some}
use catena.Base.Int.{pos}
use catena.Base.Text.{insert, txt, contains_key}
use catena.Status.{ok, cancelled, internal}
use catena.Authorizer.{read_authz, has_authz, is_expired}
use catena.Connections.{register, register_connection, insert_connection, init_priority, deregister}
use catena.Device.{LanguagePack}
use catena.Device.Languages.{pack_to_proto}
use catena.Rpc.Controllers.{populated_slots}
use catena.Rpc.Infos.{info_body}
use catena.Rpc.Pushing.{Connected, slots_added, pushed_pack, update_language, shut_down}
use catena.Subscriptions.{Subscribed}
use catena.Rest.{Request, get}
use catena.Rest.Agreement.{same_client}
use catena.Rest.Connecting.{
  setup, greet, push_round, push_rounds, deliver, deliver_all, language_added, shutdown_signal,
  Turn, serve_connection, is_connection_cancelled,
}
use catena.Rest.Controllers.{settled, rest_authorizer}
use catena.Rest.Infos.{is_recursive, is_refused, infos_answer}
use catena.Rest.Informed.{infos_answer-info_body}
use catena.Rest.Pushes.{IsServed, serve_connection-IsServed}
use catena.Tests.Rest.{set_gain, mixers, no_claims}

abbrev french : LanguagePack
french = record { name = txt "French"; words = (txt "hello", txt "Bonjour") ∷ [] }

-- The pack comes while the first round waits, and the shutdown while the second does.
abbrev told : Turn
told = record {
  signals_before = [];
  open_before = true;
  now_before = 0;
  signals_waiting = language_added french 1 ∷ [];
  open_after = true;
  now = 0;
}

abbrev ended : Turn
ended = record told { signals_waiting = shutdown_signal ∷ [] }

abbrev alone : Connected
alone = (mixers, [])

serve_connection-IsServed_example :
    IsServed mixers
      (serve_connection (setup no_claims false 4 7 0 set_gain) 7 (told ∷ ended ∷ told ∷ []) alone)
serve_connection-IsServed_example =
    serve_connection-IsServed no_claims false 4 7 0 set_gain (told ∷ ended ∷ told ∷ []) alone

pack_then_cancelled :
    serve_connection (setup no_claims false 4 7 0 set_gain) 7 (told ∷ ended ∷ told ∷ []) alone
    ≡ some (
      (ok, some (slots_added (1 ∷ [])))
          ∷ (ok, some (pushed_pack 1 french))
          ∷ (cancelled, none)
          ∷ [],
      (mixers, []),
    )
unfolding serve_connection setup greet push_rounds push_round deliver deliver_all update_language
    shut_down is_connection_cancelled rest_authorizer register_connection init_priority deregister
    populated_slots pack_to_proto read_authz register is_expired insert_connection has_authz insert
pack_then_cancelled = refl

abbrev unsubscribed : Subscribed
unsubscribed slot = []

abbrev about_gain : Request
about_gain = record set_gain {
  method = get;
  target = record { slot = 1; endpoint = txt "/param-info"; fqoid = txt "/gain"; stream = false };
}

about_gain_allowed : is_refused about_gain ≡ false
unfolding is_refused is_recursive contains_key
about_gain_allowed = refl

infos_answer-info_body_example :
    infos_answer no_claims false 2 about_gain mixers
    ≡ settled internal [] (
        (info_body no_claims
          (same_client false about_gain)
          2
          (pos 1)
          (txt "/gain")
          (is_recursive about_gain)
          (mixers, unsubscribed)).0)
infos_answer-info_body_example =
    infos_answer-info_body no_claims false 2 about_gain (mixers, unsubscribed) about_gain_allowed
