-- ===== src/Rpc/Lifecycle.antt =====
-- The life of a unary call, from the constructor of its controller to its deregistration.
use catena.Base.{
  ℕ, ◌≤◌, ◌≡◌, Bool, true, false, List, [], ◌∷◌, ◌++◌, if◌then◌else◌, any, keep, length, arith,
}
use catena.Status.{
  StatusCode, with_status, std_exception, null_dereference, Outcome, returns, throws,
}
use catena.Rpc.{CallStatus, Action, initial_status, answer, proceed}

abbrev pub is_deregister : {R : Type 0} → Action R → Bool
is_deregister Action.deregister = true
is_deregister _ = false

abbrev pub is_answer : {R : Type 0} → Action R → Bool
is_answer (Action.respond r) = true
is_answer (Action.respond_error rc) = true
is_answer Action.crash = true
is_answer Action.complete = true
is_answer _ = false

abbrev is_spawn : {R : Type 0} → Action R → Bool
is_spawn (Action.spawn b) = true
is_spawn _ = false

abbrev pub count : {R : Type 0} → (Action R → Bool) → List (Action R) → ℕ
count p actions = length (keep p actions)

module _ {R S : Type 0} (handle : S → Outcome (StatusCode × R) × S) where
  -- `proceed` at each event until the call is deregistered, which deletes it.
  abbrev run : List Bool → CallStatus → S → List (Action R)
  run [] status s = []
  run (ok ∷ oks) status s =
      let (status', (s', asked)) = proceed handle ok status s in
      asked ++ (if any is_deregister asked then [] else run oks status' s')

  -- A call as its constructor starts it.
  abbrev pub life : List Bool → S → List (Action R)
  life [] s = []
  life (ok ∷ oks) s = run (ok ∷ oks) (initial_status ok) s

  answer-counts :
      (o : Outcome (StatusCode × R))
      → (is_answer (answer o) ≡ true)
        × (is_spawn (answer o) ≡ false)
        × (is_deregister (answer o) ≡ false)
  unfolding answer
  answer-counts (returns (rc, r)) = ground arith
  answer-counts (throws (with_status rc)) = ground arith
  answer-counts (throws std_exception) = ground arith
  answer-counts (throws null_dereference) = ground arith

  -- However the events come out, a call is answered at most once, makes at most one successor and is
  -- deregistered at most once.
  life-once :
      (oks : List Bool) (s : S)
      → (count is_answer (life oks s) ≤ 1)
        × (count is_spawn (life oks s) ≤ 1)
        × (count is_deregister (life oks s) ≤ 1)
  unfolding proceed initial_status
  life-once [] s = ground arith
  life-once (false ∷ oks) s = ground arith
  life-once (true ∷ []) s = ground arith
  life-once (true ∷ false ∷ oks) s = ground arith
  life-once (true ∷ true ∷ []) s =
      let (answers, spawns, deregisters) = answer-counts ((handle s).0) in
      rw (answers, spawns, deregisters) (ground arith)
  life-once (true ∷ true ∷ true ∷ oks) s =
      let (answers, spawns, deregisters) = answer-counts ((handle s).0) in
      rw (answers, spawns, deregisters) (ground arith)
  life-once (true ∷ true ∷ false ∷ oks) s =
      let (answers, spawns, deregisters) = answer-counts ((handle s).0) in
      rw (answers, spawns, deregisters) (ground arith)
