-- ===== src/Rpc/Commands.antt =====
-- sdks/cpp/connections/gRPC/src/controllers/ExecuteCommand.cpp, and `executeCommand` of
-- common/include/ParamDescriptor.h.
--
-- What a command does is the device's own: an argument gives its responder, as the responses or the
-- exceptions that its coroutine comes to. The clock is part of the shared state.
use catena.Base.{
  ℕ, Bool, true, false, not, List, [], ◌∷◌, Option, none, some, length, if◌then◌else◌,
}
use catena.Base.Int.{ℤ}
use catena.Base.Text.{Text}
use catena.Status.{
  StatusCode, ok, internal, unauthenticated, not_found, permission_denied, Outcome, returns, throws,
  with_status,
}
use catena.Proto.{ProtoValue}
use catena.Authorizer.{Authorizer, Claim, authz_disabled, is_expired}
use catena.Params.{can_write}
use catena.Device.{Device}
use catena.Device.Lookup.{Target, absent, present, get_command}
use catena.Rpc.{Context, client_authorizer}
use catena.Rpc.Controllers.{Devices, device_at, checked_slot}
use catena.Rpc.Streams.{Round, sends, ends, fails}

-- `CommandResponder`: what is still to come of it.
abbrev pub Responder : Type 0 → Type 0
Responder R = List (Outcome R)

-- `ICommandResponder::hasMore`
unfoldable pub responder_has_more : {R : Type 0} → Responder R → Bool
responder_has_more [] = false
responder_has_more (r ∷ rs) = true

-- `ICommandResponder::getNext`; `blank` is the response of a coroutine that is done. An exception
-- ends the coroutine.
unfoldable pub responder_get_next : {R : Type 0} → R → Responder R → Outcome R × Responder R
responder_get_next blank [] = (returns blank, [])
responder_get_next blank (returns r ∷ rs) = (returns r, rs)
responder_get_next blank (throws e ∷ rs) = (throws e, [])

-- What a call keeps: `responder_`, `authz_` and the flag of the request.
pub record Executing (R : Type 0) : Type 0 where
  pub responder : Option (Responder R)
  pub authz : Authorizer
  pub respond : Bool

abbrev pub not_executing : {R : Type 0} → Executing R
not_executing = record { responder = none; authz = authz_disabled; respond = true }

module _ {R : Type 0} (blank : R) (run : Text → ProtoValue → Bool → Option (Responder R)) where
  -- `executeCommand`: the status, and the responder of the command's implementation.
  unfoldable pub execute_command :
      Target → ProtoValue → Bool → Authorizer → StatusCode × Option (Responder R)
  execute_command t value respond authz =
      if not (can_write authz t.descriptor)
      then (permission_denied, none)
      else (ok, run t.descriptor.own.oid value respond)

  unfoldable pub execute_device :
      Text → ProtoValue → Bool → Device → Authorizer → Outcome (StatusCode × Executing R)
  unfolding get_command execute_command
  execute_device oid value respond d authz = elim (get_command d oid authz) [
    | throws e ↦ throws e
    | returns (absent rc) ↦ returns (rc, not_executing)
    | returns (present t) ↦
        let (rc, responder) = execute_command t value respond authz in
        returns (rc, record { responder = responder; authz = authz; respond = respond })
  ]

  -- The body of `kProcess`; the second part of the shared state is the time.
  unfoldable pub execute_body :
      (Text → Option (List (Text × Claim)))
      → Context
      → ℤ
      → Text
      → ProtoValue
      → Bool
      → Devices × ℕ
      → Outcome (StatusCode × Executing R) × (Devices × ℕ)
  unfolding device_at checked_slot client_authorizer execute_device
  execute_body decode ctx slot oid value respond (dms, now) = elim (checked_slot slot) [
    | throws e ↦ (throws e, (dms, now))
    | returns n ↦ elim (device_at n dms) [
      | none ↦ (returns (not_found, not_executing), (dms, now))
      | some d ↦ elim (client_authorizer decode ctx) [
        | throws e ↦ (throws e, (dms, now))
        | returns authz ↦ (execute_device oid value respond d authz, (dms, now))
      ]
    ]
  ]

  -- The rounds of the loop for a client that wants no responses: they go on while there are more.
  unfoldable pub silent_rounds : Executing R → Responder R → Round (Executing R) R
  silent_rounds w [] = ends (record w { responder = some [] })
  silent_rounds w (throws e ∷ rs) = fails e (record w { responder = some [] })
  silent_rounds w (returns r ∷ rs) = silent_rounds w rs

  -- `kWrite`
  unfoldable pub execute_round : Devices × ℕ → Executing R → Round (Executing R) R
  unfolding silent_rounds responder_get_next responder_has_more
  execute_round (dms, now) w = elim w.responder [
    | none ↦ fails (with_status internal) w
    | some rs ↦
        if is_expired w.authz now
        then fails (with_status unauthenticated) w
        else if w.respond
        then (let (next, rest) = responder_get_next blank rs in
            elim next [
              | throws e ↦ fails e (record w { responder = some rest })
              | returns r ↦ sends r (responder_has_more rest) (record w { responder = some rest })
            ])
        else silent_rounds w rs
  ]

  -- How many responses are still to come.
  abbrev pub responses_left : Executing R → ℕ
  responses_left w = elim w.responder [ none ↦ 0 | some rs ↦ length rs ]
