-- ===== src/Rest/Pushes.antt =====
-- What a client of the REST connection is sent, from the first message to the last.
use catena.Base.{
  ℕ, ◌≡◌, refl, Bool, true, false, ◌||◌, not, List, [], ◌∷◌, ◌++◌, Option, none, some, Bool-cases,
  ◌⊎◌, inl, inr, arith,
}
use catena.Base.Text.{Text}
use catena.Status.{
  StatusCode, ok, is_ok, cancelled, unauthenticated, Outcome, returns, throws, with_status,
}
use catena.Authorizer.{Authorizer, Claim, authorizer, is_expired}
use catena.Connections.{Connection, register_connection}
use catena.Rpc.Controllers.{Devices, populated_slots}
use catena.Rpc.Pushing.{
  PushUpdates, slots_added, Pushing, not_pushing, update_response, update_language, shut_down,
  Connected,
}
use catena.Rest.{Request}
use catena.Rest.Controllers.{rest_authorizer}
use catena.Rest.Connecting.{
  Pushed, setup, greet, push_round, Signal, value_set, language_added, shutdown_signal, deliver,
  deliver_all, Turn, push_rounds, serve_connection,
}

-- Updates, and an error at most at the end.
pub data IsOrderly : List Pushed → Type 0 where
  silent : IsOrderly []
  closed : (rc : StatusCode) → is_ok rc ≡ false → IsOrderly ((rc, none) ∷ [])
  update : (m : PushUpdates) (sent : List Pushed) → IsOrderly sent → IsOrderly ((ok, some m) ∷ sent)

-- An error and nothing else, or the slots of the devices and then what is orderly.
pub data IsServed (dms : Devices) : Option (List Pushed × Connected) → Type 0 where
  refused :
      (rc : StatusCode) (s : Connected)
      → is_ok rc ≡ false
      → IsServed dms (some ((rc, none) ∷ [], s))
  served :
      (sent : List Pushed) (s : Connected)
      → IsOrderly sent
      → IsServed dms (some ((ok, some (slots_added (populated_slots dms))) ∷ sent, s))

deliver-keeps :
    (socket_open : Bool) (now : ℕ) (s : Signal) (w : Pushing)
    → w.shutdown ≡ true
    → (deliver socket_open now s w).shutdown ≡ true
unfolding deliver update_response update_language shut_down
deliver-keeps socket_open now (value_set subscribed oid p slot) w h = ground arith
deliver-keeps socket_open now (language_added pack slot) w h = ground arith
deliver-keeps socket_open now shutdown_signal w h = refl

deliver_all-keeps :
    (socket_open : Bool) (now : ℕ) (signals : List Signal) (w : Pushing)
    → w.shutdown ≡ true
    → (deliver_all socket_open now signals w).shutdown ≡ true
unfolding deliver_all
deliver_all-keeps socket_open now [] w h = h
deliver_all-keeps socket_open now (s ∷ signals) w h =
    deliver_all-keeps socket_open now signals (deliver socket_open now s w)
      (deliver-keeps socket_open now s w h)

-- The loop is left where it is told to.
push_rounds-shutdown :
    (turns : List Turn) (w : Pushing) → w.shutdown ≡ true → (push_rounds turns w).0 ≡ []
unfolding push_rounds
push_rounds-shutdown [] w h = refl
push_rounds-shutdown (t ∷ turns) w h =
    ground (arith, deliver_all-keeps t.open_before t.now_before t.signals_before w h)

-- A round sends one thing at most, behind an error of which the loop is left.
push_round-IsOrderly :
    (socket_open : Bool) (now : ℕ) (w : Pushing) (rest : List Pushed)
    → IsOrderly rest
    → ((push_round socket_open now w).1.shutdown ≡ true → rest ≡ [])
    → IsOrderly ((push_round socket_open now w).0 ++ rest)
unfolding push_round
push_round-IsOrderly false now w rest h e = h
push_round-IsOrderly true now w rest h e = elim (Bool-cases w.shutdown) [
  | inl down ↦ rw (down, e (rw down refl)) (closed cancelled refl)
  | inr up ↦ elim (Bool-cases (is_expired w.authz now)) [
    | inl old ↦ rw (up, old, e (rw (up, old) refl)) (closed unauthenticated refl)
    | inr fresh ↦ rw (up, fresh) (update w.response rest h)
  ]
]

push_rounds-IsOrderly : (turns : List Turn) (w : Pushing) → IsOrderly (push_rounds turns w).0
unfolding push_rounds
push_rounds-IsOrderly [] w = silent
push_rounds-IsOrderly (t ∷ turns) w = elim (Bool-cases (not t.open_before || begun.shutdown)) [
  | inl left ↦ rw left silent
  | inr stays ↦ elim (Bool-cases woken.has_update) [
    | inr waits ↦ rw (stays, waits) silent
    | inl told ↦
        rw (stays, told)
          (push_round-IsOrderly t.open_after t.now woken (push_rounds turns after).0
            (push_rounds-IsOrderly turns after) (push_rounds-shutdown turns after))
  ]
]
  where
    begun : Pushing
    begun = deliver_all t.open_before t.now_before t.signals_before w

    woken : Pushing
    woken = deliver_all t.open_after t.now t.signals_waiting begun

    after : Pushing
    after = (push_round t.open_after t.now woken).1

authorizer_cases :
    (claims : Option (List (Text × Claim)))
    → (authorizer claims ≡ throws (with_status unauthenticated))
      ⊎ ((a : Authorizer) × (authorizer claims ≡ returns a))
unfolding authorizer
authorizer_cases none = inl refl
authorizer_cases (some claims) = decided _
  where
    decided :
        (r : Option Authorizer)
        → let made : Outcome Authorizer = elim r [
          | none ↦ throws (with_status unauthenticated)
          | some a ↦ returns a
        ] in
          (made ≡ throws (with_status unauthenticated)) ⊎ ((a : Authorizer) × (made ≡ returns a))
    decided none = inl refl
    decided (some a) = inr (a, refl)

-- What the part inside `try` comes to: it throws only where there is no authorizer.
data IsSetup (dms : Devices)
    : Outcome (StatusCode × (Pushing × List Connection)) × Connected → Type 0 where
  unknown_client :
      (queue : List Connection) → IsSetup dms (throws (with_status unauthenticated), (dms, queue))
  answered :
      (rc : StatusCode) (r : Pushing × List Connection) (queue : List Connection)
      → IsSetup dms (returns (rc, r), (dms, queue))

setup-IsSetup :
    (decode : Text → Option (List (Text × Claim))) (authorization_enabled : Bool)
    (max handle object_id : ℕ) (req : Request) (s : Connected)
    → IsSetup s.0 (setup decode authorization_enabled max handle object_id req s)
unfolding setup rest_authorizer register_connection
setup-IsSetup decode authorization_enabled max handle object_id req s =
    elim (Bool-cases authorization_enabled) [
      | inr off ↦ rw off (answered _ _ _)
      | inl on ↦ elim (authorizer_cases (decode req.heading.jws_token)) [
        | inl e ↦ rw (on, setup, e) (unknown_client s.1)
        | inr (a, e) ↦ rw (on, setup, e) (answered _ _ _)
      ]
    ]

serve-IsServed :
    (body : Connected → Outcome (StatusCode × (Pushing × List Connection)) × Connected) (handle : ℕ)
    (turns : List Turn) (s : Connected)
    (r : Outcome (StatusCode × (Pushing × List Connection)) × Connected)
    → body s ≡ r
    → IsSetup s.0 r
    → IsServed s.0 (serve_connection body handle turns s)
unfolding serve_connection greet
serve-IsServed body handle turns s _ e (unknown_client queue) =
    rw
      (
        serve_connection,
        e,
        push_rounds-shutdown turns (record not_pushing { shutdown = true }) refl,
      )
      (refused unauthenticated _ refl)
serve-IsServed body handle turns s _ e (answered rc (w, shut) queue) =
    elim (Bool-cases (is_ok rc)) [
      | inl good ↦ rw (serve_connection, e, good, e) (served _ _ (push_rounds-IsOrderly turns w))
      | inr bad ↦
          rw
            (
              serve_connection,
              e,
              bad,
              push_rounds-shutdown turns (record w { shutdown = true }) refl,
            )
            (refused rc _ bad)
    ]

-- A connection is answered with one error, or with the slots of the devices and then updates, of which
-- an error may be the last; whatever the signals, the socket and the time are.
pub serve_connection-IsServed :
    (decode : Text → Option (List (Text × Claim))) (authorization_enabled : Bool)
    (max handle object_id : ℕ) (req : Request) (turns : List Turn) (s : Connected)
    → IsServed s.0 (
        serve_connection
          (setup decode authorization_enabled max handle object_id req)
          handle
          turns
          s)
serve_connection-IsServed decode authorization_enabled max handle object_id req turns s =
    serve-IsServed _ handle turns s _ refl
      (setup-IsSetup decode authorization_enabled max handle object_id req s)
