-- ===== src/Rpc/Streams.antt =====
-- The state machine that the streaming controllers under
-- sdks/cpp/connections/gRPC/src/controllers share: DeviceRequest, UpdateSubscriptions, ExecuteCommand
-- and ParamInfoRequest.
--
-- `S` is what the calls share, `W` what a call keeps for itself between two events.
use catena.Base.{Bool, List, [], ◌∷◌, ◌++◌, if◌then◌else◌, any}
use catena.Status.{StatusCode, is_ok, internal, Outcome, returns, throws, Exception}
use catena.Rpc.{CallStatus, Action, answer, initial_status}
use catena.Rpc.Lifecycle.{is_deregister}

-- What one round of `kWrite` comes to: a message, and whether more follow; the end of the stream; or
-- an error.
pub data Round (W R : Type 0) : Type 0 where
  sends : R → Bool → W → Round W R
  ends : W → Round W R
  fails : Exception → W → Round W R

abbrev pub error_answer : {R : Type 0} → Exception → Action R
unfolding answer
error_answer e = answer (throws e)

-- Before the request comes a call keeps `idle`.
module _ {R S W : Type 0} (handle : S → Outcome (StatusCode × W) × S) (round : S → W → Round W R)
    (idle : W) where
  unfoldable pub write_round : S → W → CallStatus × (W × List (Action R))
  write_round s w = elim (round s w) [
    | sends r more w' ↦
        (if more then CallStatus.write else CallStatus.post_write, (w', Action.send r ∷ []))
    | ends w' ↦ (CallStatus.finish, (w', Action.complete ∷ []))
    | fails e w' ↦ (CallStatus.finish, (w', error_answer e ∷ []))
  ]

  -- `kProcess`, which falls through to `kWrite`.
  unfoldable pub process_round : Bool → W → S → CallStatus × ((W × S) × List (Action R))
  unfolding write_round
  process_round ok w s =
      let (result, s') = handle s in
      let start : List (Action R) = Action.spawn ok ∷ Action.notify_when_done ∷ [] in
      elim result [
        | throws e ↦ (CallStatus.finish, ((w, s'), start ++ error_answer e ∷ []))
        | returns (rc, w') ↦
            let (status, (w'', asked)) = write_round s' w' in
            if is_ok rc
            then (status, ((w'', s'), start ++ asked))
            else (CallStatus.finish, ((w', s'), start ++ Action.respond_error rc ∷ []))
      ]

  -- `proceed`
  unfoldable pub proceed_stream :
      Bool → CallStatus → W → S → CallStatus × ((W × S) × List (Action R))
  unfolding write_round process_round
  proceed_stream ok status w s = elim (if ok then status else CallStatus.finish) [
    | CallStatus.create ↦ (CallStatus.process, ((w, s), Action.request ∷ []))
    | CallStatus.process ↦ process_round ok w s
    | CallStatus.write ↦ let (status', (w', asked)) = write_round s w in (status', ((w', s), asked))
    | CallStatus.post_write ↦ (CallStatus.finish, ((w, s), Action.complete ∷ []))
    | CallStatus.finish ↦ (CallStatus.finish, ((w, s), Action.deregister ∷ []))
    | _ ↦ (CallStatus.finish, ((w, s), Action.respond_error internal ∷ []))
  ]

  -- `proceed` at each event until the call is deregistered. Each event comes with what the other
  -- calls have made of the shared state by then.
  abbrev pub run_stream : List (Bool × S) → CallStatus → W → List (Action R)
  run_stream [] status w = []
  run_stream ((ok, s) ∷ events) status w =
      let (status', ((w', s'), asked)) = proceed_stream ok status w s in
      let rest = run_stream events status' w' in
      asked ++ (if any is_deregister asked then [] else rest)

  -- A call as its constructor starts it.
  abbrev pub stream_life : List (Bool × S) → List (Action R)
  stream_life [] = []
  stream_life ((ok, s) ∷ events) = run_stream ((ok, s) ∷ events) (initial_status ok) idle
