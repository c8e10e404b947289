-- ===== src/Rpc/Pushing.antt =====
-- sdks/cpp/common/include/rpc/Connect.h (`updateResponse_`, `shutdown`) and
-- sdks/cpp/connections/gRPC/src/controllers/Connect.cpp: a connection that is told of new values.
--
-- The signals of the devices call `updateResponse_` between two events of the call. The wait for an
-- update is over where `has_update` is set. What `IsCancelled` answers comes with each step, as does
-- the time.
use catena.Base.{ℕ, Bool, true, false, ◌||◌, List, [], ◌∷◌, ◌++◌, Option, none, some, if◌then◌else◌}
use catena.Base.Text.{Text}
use catena.Status.{
  StatusCode, ok, is_ok, cancelled, internal, unauthenticated, resource_exhausted, Outcome, returns,
  throws,
}
use catena.Proto.{ProtoValue}
use catena.Authorizer.{
  Authorizer, Claim, authz_disabled, is_expired, read_authz, scope_name, monitor,
}
use catena.Params.{can_read}
use catena.Params.Stored.{to_proto}
use catena.Connections.{Connection, register_connection, init_priority, deregister}
use catena.Device.{
  Param, LanguagePack, DetailLevel, full, subscriptions, minimal, commands_only, unset, none_level,
}
use catena.Device.Languages.{pack_to_proto}
use catena.Subscriptions.{Subscribed, is_subscribed}
use catena.Rpc.{CallStatus, Action, Context, answer, client_authorizer}
use catena.Rpc.Controllers.{Devices, device_at, populated_slots}

-- `st2138::PushUpdates`
pub data PushUpdates : Type 0 where
  no_update : PushUpdates
  slots_added : List ℕ → PushUpdates
  pushed_value : ℕ → Text → Option ProtoValue → PushUpdates
  pushed_pack : ℕ → LanguagePack → PushUpdates

-- The members of `Connect` that an update reads or writes.
pub record Pushing : Type 0 where
  pub level : DetailLevel
  pub authz : Authorizer
  pub shutdown : Bool
  pub has_update : Bool
  pub response : PushUpdates

abbrev pub not_pushing : Pushing
not_pushing = record {
  level = unset;
  authz = authz_disabled;
  shutdown = false;
  has_update = false;
  response = no_update;
}

-- `isCancelled` of the gRPC connection.
unfoldable pub is_cancelled : Bool → ℕ → Pushing → Bool
is_cancelled context_cancelled now w = context_cancelled || w.shutdown || is_expired w.authz now

-- `detailLevelMap`, where the level is one of its keys.
unfoldable pub level_wants : DetailLevel → Param → Bool → Bool
level_wants full p subscribed = true
level_wants minimal p subscribed = p.descriptor.own.minimal_set
level_wants subscriptions p subscribed = p.descriptor.own.minimal_set || subscribed
level_wants commands_only p subscribed = p.descriptor.own.is_command
level_wants none_level p subscribed = false
level_wants unset p subscribed = false

-- `dms_[slot] && subscriptionManager_.isSubscribed(oid, *dms_[slot])`
unfoldable pub watches : Devices → Subscribed → ℕ → Text → Bool
unfolding device_at is_subscribed
watches dms s slot oid = elim (device_at slot dms) [
  | none ↦ false
  | some d ↦ is_subscribed oid d.slot s
]

-- `updateResponse_` for a parameter: the response is overwritten even where an update is waiting.
unfoldable pub update_response : Bool → Bool → Text → Param → ℕ → Pushing → Pushing
unfolding level_wants to_proto
update_response gone subscribed oid p slot w =
    let (rc, value) = to_proto p.value p.descriptor w.authz in
    if gone
    then record w { has_update = true }
    else if can_read w.authz p.descriptor
    then if level_wants w.level p subscribed
      then record w {
        response = pushed_value slot oid value;
        has_update = w.has_update || is_ok rc;
      }
      else w
    else w

-- `updateResponse_` for a language pack.
unfoldable pub update_language : Bool → LanguagePack → ℕ → Pushing → Pushing
unfolding pack_to_proto
update_language gone pack slot w =
    if gone
    then record w { has_update = true }
    else if read_authz w.authz (scope_name monitor)
    then record w { response = pushed_pack slot (pack_to_proto pack); has_update = true }
    else w

-- `shutdown`
unfoldable pub shut_down : Pushing → Pushing
shut_down w = record w { shutdown = true; has_update = true }

-- What the connections share: the devices and the queue.
abbrev pub Connected : Type 0
Connected = Devices × List Connection

-- The body of `kProcess`: an authorizer, and a place in the queue. The connections that are shut down
-- for it come with its answer.
unfoldable pub connect_body :
    (Text → Option (List (Text × Claim)))
    → Context
    → ℕ
    → ℕ
    → ℕ
    → DetailLevel
    → Connected
    → Outcome (StatusCode × (Pushing × List Connection)) × Connected
unfolding client_authorizer register_connection init_priority
connect_body decode ctx max handle object_id level (dms, queue) =
    elim (client_authorizer decode ctx) [
      | throws e ↦ (throws e, (dms, queue))
      | returns authz ↦
          let connection : Connection = record {
            handle = handle;
            priority = init_priority ctx.authorization_enabled authz;
            object_id = object_id;
            cancelled = false;
          } in
          elim (register_connection max (some connection) queue) [
            | throws e ↦ (throws e, (dms, queue))
            | returns r ↦ (
              returns (
                if r.added then ok else resource_exhausted,
                (record not_pushing { level = level; authz = authz }, r.shut_down),
              ),
              (dms, r.queue),
            )
          ]
    ]

-- `kProcess`: the first message has the slots of the devices.
unfoldable pub connect_process :
    (Connected → Outcome (StatusCode × (Pushing × List Connection)) × Connected)
    → Bool
    → Connected
    → CallStatus × ((Pushing × Connected) × List (Action PushUpdates))
unfolding answer populated_slots
connect_process body ok_event s =
    let (result, s') = body s in
    let start : List (Action PushUpdates) = Action.spawn ok_event ∷ Action.notify_when_done ∷ [] in
    elim result [
      | throws e ↦ (CallStatus.finish, ((not_pushing, s'), start ++ answer (throws e) ∷ []))
      | returns (rc, (w, shut)) ↦
          if is_ok rc
          then (
            CallStatus.write,
            ((w, s'), start ++ Action.send (slots_added (populated_slots s'.0)) ∷ []),
          )
          else (CallStatus.finish, ((w, s'), start ++ Action.respond_error rc ∷ []))
    ]

-- `kWrite`, after the wait. Where the client has cancelled, `proceed` is called again at once.
unfoldable pub connect_write :
    Bool
    → ℕ
    → ℕ
    → Pushing
    → Connected
    → CallStatus × ((Pushing × Connected) × List (Action PushUpdates))
unfolding deregister
connect_write context_cancelled now handle w (dms, queue) =
    let told = record w { has_update = false } in
    if context_cancelled
    then (CallStatus.finish, ((told, (dms, deregister handle queue)), Action.deregister ∷ []))
    else if w.shutdown
    then (CallStatus.finish, ((told, (dms, queue)), Action.respond_error cancelled ∷ []))
    else if is_expired w.authz now
    then (CallStatus.finish, ((told, (dms, queue)), Action.respond_error unauthenticated ∷ []))
    else (CallStatus.write, ((told, (dms, queue)), Action.send w.response ∷ []))

-- `proceed`; an event that fails counts only for a call that waits for its client. That call is the
-- newest one, and tells the others to shut down.
unfoldable pub connect_proceed :
    (Connected → Outcome (StatusCode × (Pushing × List Connection)) × Connected)
    → ℕ
    → Bool
    → Bool
    → ℕ
    → CallStatus
    → Pushing
    → Connected
    → CallStatus × ((Pushing × Connected) × List (Action PushUpdates))
unfolding connect_process connect_write deregister
connect_proceed body handle ok_event context_cancelled now status w (dms, queue) =
    let finished : CallStatus × ((Pushing × Connected) × List (Action PushUpdates)) =
      (CallStatus.finish, ((w, (dms, deregister handle queue)), Action.deregister ∷ [])) in
    elim status [
      | CallStatus.create ↦ (CallStatus.process, ((w, (dms, queue)), Action.request ∷ []))
      | CallStatus.process ↦
          let processed = connect_process body ok_event (dms, queue) in
          let (status', (state', asked)) = finished in
          if ok_event then processed else (status', (state', Action.emit_shutdown ∷ asked))
      | CallStatus.write ↦ connect_write context_cancelled now handle w (dms, queue)
      | CallStatus.finish ↦ finished
      | _ ↦ (CallStatus.finish, ((w, (dms, queue)), Action.respond_error internal ∷ []))
    ]
