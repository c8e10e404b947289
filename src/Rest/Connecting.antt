-- ===== src/Rest/Connecting.antt =====
-- sdks/cpp/connections/REST/src/controllers/Connect.cpp: a connection that pushes updates.
--
-- The updates come between two rounds of the loop, from the signals of the devices, with `Pushing` of the
-- gRPC connection as the members they change.
use catena.Base.{
  ℕ, Bool, true, false, ◌||◌, not, List, [], ◌∷◌, ◌++◌, Option, none, some, if◌then◌else◌,
}
use catena.Base.Text.{Text}
use catena.Status.{
  StatusCode, ok, is_ok, cancelled, internal, unauthenticated, resource_exhausted, Outcome, returns,
  throws, with_status, std_exception, null_dereference,
}
use catena.Authorizer.{Authorizer, Claim, is_expired}
use catena.Connections.{Connection, register_connection, init_priority, deregister}
use catena.Device.{Param, LanguagePack}
use catena.Rpc.Controllers.{Devices, populated_slots}
use catena.Rpc.Pushing.{
  PushUpdates, slots_added, Pushing, not_pushing, update_response, update_language, shut_down,
  Connected,
}
use catena.Rest.{Request}
use catena.Rest.Controllers.{rest_authorizer}

-- One call of `sendResponse`: the status, and the message if there is one.
abbrev pub Pushed : Type 0
Pushed = StatusCode × Option PushUpdates

-- `isCancelled`; `authz_` is null until it is made.
unfoldable pub is_connection_cancelled : Bool → ℕ → Option Authorizer → Pushing → Bool
is_connection_cancelled socket_open now authz w =
    not socket_open || w.shutdown || (elim authz [ none ↦ false | some a ↦ is_expired a now ])

-- The part inside `try`: an authorizer, and a place in the queue.
unfoldable pub setup :
    (Text → Option (List (Text × Claim)))
    → Bool
    → ℕ
    → ℕ
    → ℕ
    → Request
    → Connected
    → Outcome (StatusCode × (Pushing × List Connection)) × Connected
unfolding rest_authorizer register_connection init_priority
setup decode authorization_enabled max handle object_id req (dms, queue) =
    elim (rest_authorizer decode authorization_enabled req) [
      | throws e ↦ (throws e, (dms, queue))
      | returns authz ↦
          let connection : Connection = record {
            handle = handle;
            priority = init_priority authorization_enabled authz;
            object_id = object_id;
            cancelled = false;
          } in
          elim (register_connection max (some connection) queue) [
            | throws e ↦ (throws e, (dms, queue))
            | returns r ↦ (
              returns (
                if r.added then ok else resource_exhausted,
                (
                  record not_pushing { level = req.heading.detail_level; authz = authz },
                  r.shut_down,
                ),
              ),
              (dms, r.queue),
            )
          ]
    ]

-- The first call of `sendResponse`, and the members with which the loop begins.
unfoldable pub greet :
    Devices → Outcome (StatusCode × (Pushing × List Connection)) → Option (Pushed × Pushing)
unfolding populated_slots
greet dms (returns (rc, (w, shut))) =
    if is_ok rc
    then some ((ok, some (slots_added (populated_slots dms))), w)
    else some ((rc, none), record w { shutdown = true })
greet dms (throws (with_status rc)) = some ((rc, none), record not_pushing { shutdown = true })
greet dms (throws std_exception) = some ((internal, none), record not_pushing { shutdown = true })
greet dms (throws null_dereference) = none

-- A round of the loop, behind the wait.
unfoldable pub push_round : Bool → ℕ → Pushing → List Pushed × Pushing
push_round socket_open now w =
    let told = record w { has_update = false } in
    if not socket_open
    then ([], told)
    else if w.shutdown
    then ((cancelled, none) ∷ [], told)
    else if is_expired w.authz now
    then ((unauthenticated, none) ∷ [], record told { shutdown = true })
    else ((ok, some w.response) ∷ [], told)

-- What the connection is told: of a new value, of a new language pack, or to shut down.
pub data Signal : Type 0 where
  value_set : Bool → Text → Param → ℕ → Signal
  language_added : LanguagePack → ℕ → Signal
  shutdown_signal : Signal

-- The handlers that `proceed` connects. A value comes with whether it is subscribed to.
unfoldable pub deliver : Bool → ℕ → Signal → Pushing → Pushing
unfolding is_connection_cancelled update_response update_language shut_down
deliver socket_open now (value_set subscribed oid p slot) w =
    update_response (is_connection_cancelled socket_open now (some w.authz) w) subscribed oid p slot
      w
deliver socket_open now (language_added pack slot) w =
    update_language (is_connection_cancelled socket_open now (some w.authz) w) pack slot w
deliver socket_open now shutdown_signal w = shut_down w

unfoldable pub deliver_all : Bool → ℕ → List Signal → Pushing → Pushing
unfolding deliver
deliver_all socket_open now [] w = w
deliver_all socket_open now (s ∷ signals) w =
    deliver_all socket_open now signals (deliver socket_open now s w)

-- What comes with a round: the socket and the time at the test of the loop and behind the wait, and the
-- signals before each.
pub record Turn : Type 0 where
  pub signals_before : List Signal
  pub open_before : Bool
  pub now_before : ℕ
  pub signals_waiting : List Signal
  pub open_after : Bool
  pub now : ℕ

-- The loop. Where a round waits for an update that does not come, or the turns are over, nothing more is
-- sent.
unfoldable pub push_rounds : List Turn → Pushing → List Pushed × Pushing
unfolding push_round deliver_all
push_rounds [] w = ([], w)
push_rounds (t ∷ turns) w =
    let begun = deliver_all t.open_before t.now_before t.signals_before w in
    let woken = deliver_all t.open_after t.now t.signals_waiting begun in
    let (sent, w') = push_round t.open_after t.now woken in
    let (rest, w'') = push_rounds turns w' in
    if not t.open_before || begun.shutdown
    then ([], begun)
    else if woken.has_update
    then (sent ++ rest, w'')
    else ([], woken)

-- `proceed`, and the destructor of the connection behind it.
unfoldable pub serve_connection :
    (Connected → Outcome (StatusCode × (Pushing × List Connection)) × Connected)
    → ℕ
    → List Turn
    → Connected
    → Option (List Pushed × Connected)
unfolding greet push_rounds deregister
serve_connection body handle turns s =
    let (result, (dms, queue)) = body s in
    elim (greet dms result) [
      | none ↦ none
      | some (first, w) ↦ some (first ∷ (push_rounds turns w).0, (dms, deregister handle queue))
    ]
