-- ===== src/Rpc/Closing.antt =====
-- Every stream comes to an end.
use catena.Base.{
  ℕ, ◌+◌, ◌≤◌, ◌<◌, ◌≡◌, refl, ap, ◌⊎◌, inl, inr, Bool, true, false, List, [], ◌∷◌, ◌++◌, length,
  Bool-cases, any, if◌then◌else◌, arith,
}
use catena.Status.{
  StatusCode, is_ok, Outcome, returns, throws, Outcome-cases, Exception, with_status, std_exception,
  null_dereference,
}
use catena.Rpc.{CallStatus, Action, answer, initial_status}
use catena.Rpc.Lifecycle.{is_deregister, is_answer, count}
use catena.Rpc.Streams.{
  Round, sends, ends, fails, error_answer, write_round, process_round, proceed_stream, run_stream,
  stream_life,
}

-- The actions end with the deregistration, their only one, and hold at most `n` answers.
unfoldable pub IsClosed : {R : Type 0} → ℕ → List (Action R) → Type 0
IsClosed n actions =
    (before : List (Action _)) × ((actions ≡ before ++ Action.deregister ∷ [])
      × (count is_deregister before ≡ 0)
      × (count is_answer before ≤ n))

module _ {R : Type 0} where
  IsClosed-silent :
      (x : Action R) (xs : List (Action R)) (n : ℕ)
      → is_deregister x ≡ false
      → is_answer x ≡ false
      → IsClosed n xs
      → IsClosed n (x ∷ xs)
  unfolding IsClosed
  IsClosed-silent x xs n d a (before, (same, none, answers)) =
      (x ∷ before, (ap (λ l. x ∷ l) same, rw d none, rw a answers))

  IsClosed-answered :
      (x : Action R) (xs : List (Action R))
      → is_deregister x ≡ false
      → IsClosed 0 xs
      → IsClosed 1 (x ∷ xs)
  unfolding IsClosed
  IsClosed-answered x xs d (before, (same, none, answers)) =
      (x ∷ before, (ap (λ l. x ∷ l) same, rw d none, ground arith))

IsClosed-deregister : (R : Type 0) (n : ℕ) → IsClosed {R = R} n (Action.deregister ∷ [])
unfolding IsClosed
IsClosed-deregister R n = ([], (refl, refl, omega arith))

error_answer-closes : (R : Type 0) (e : Exception) → is_deregister (error_answer {R = R} e) ≡ false
unfolding answer
error_answer-closes R (with_status rc) = refl
error_answer-closes R std_exception = refl
error_answer-closes R null_dereference = refl

Round-cases :
    {W R : Type 0} (x : Round W R)
    → ((r : R) × (m : Bool) × (w : W) × (x ≡ sends r m w))
      ⊎ (((w : W) × (x ≡ ends w)) ⊎ ((e : Exception) × (w : W) × (x ≡ fails e w)))
Round-cases (sends r m w) = inl (r, m, w, refl)
Round-cases (ends w) = inr (inl (w, refl))
Round-cases (fails e w) = inr (inr (e, w, refl))

-- The events that a call may take for what its body returns.
abbrev pub needed : {W : Type 0} → (W → ℕ) → Outcome (StatusCode × W) → ℕ
needed bound (throws e) = 1
needed bound (returns (rc, w)) = 2 + bound w

module _ {R S W : Type 0} (handle : S → Outcome (StatusCode × W) × S) (round : S → W → Round W R)
    (idle : W) where
  finish-IsClosed :
      (n : ℕ) (ok : Bool) (s : S) (events : List (Bool × S)) (w : W)
      → IsClosed n (run_stream handle round idle ((ok, s) ∷ events) CallStatus.finish w)
  unfolding proceed_stream
  finish-IsClosed n true s events w = IsClosed-deregister R n
  finish-IsClosed n false s events w = IsClosed-deregister R n

  post_write-IsClosed :
      (events : List (Bool × S)) (w : W)
      → 2 ≤ length events
      → IsClosed 1 (run_stream handle round idle events CallStatus.post_write w)
  unfolding proceed_stream
  post_write-IsClosed [] w h = absurd (omega arith)
  post_write-IsClosed ((ok, s) ∷ []) w h = absurd (omega arith)
  post_write-IsClosed ((true, s) ∷ (ok, s') ∷ events) w h =
      IsClosed-answered Action.complete _ refl (finish-IsClosed 0 ok s' events w)
  post_write-IsClosed ((false, s) ∷ e ∷ events) w h = IsClosed-deregister R 1

  pub run_write :
      (events : List (Bool × S)) (s : S) (w w' : W) (status : CallStatus) (asked : List (Action R))
      → write_round handle round idle s w ≡ (status, (w', asked))
      → run_stream handle round idle ((true, s) ∷ events) CallStatus.write w
        ≡ asked
          ++ (if any is_deregister asked then [] else run_stream handle round idle events status w')
  unfolding proceed_stream
  run_write events s w w' status asked h = rw h

  process_round_good :
      (s : S) (rc : StatusCode) (w w' : W)
      → (handle s).0 ≡ returns (rc, w')
      → is_ok rc ≡ true
      → process_round handle round idle true w s ≡ (
          let (status, (w'', asked)) = write_round handle round idle ((handle s).1) w' in
          (status, ((w'', (handle s).1), Action.spawn true ∷ Action.notify_when_done ∷ asked)))
  unfolding process_round
  process_round_good s rc w w' e good = rw (e, process_round, good)

  -- The first round of writing belongs to the event of the request.
  pub run_process :
      (events : List (Bool × S)) (s : S) (rc : StatusCode) (w w' : W)
      → (handle s).0 ≡ returns (rc, w')
      → is_ok rc ≡ true
      → run_stream handle round idle ((true, s) ∷ events) CallStatus.process w
        ≡ Action.spawn true
          ∷ Action.notify_when_done
          ∷ run_stream handle round idle ((true, (handle s).1) ∷ events) CallStatus.write w'
  unfolding proceed_stream
  run_process events s rc w w' e good = rw (process_round_good s rc w w' e good)

  run_failure :
      (events : List (Bool × S)) (s : S) (w w' : W) (x : Action R)
      → is_deregister x ≡ false
      → process_round handle round idle true w s ≡ (
        CallStatus.finish,
        ((w', (handle s).1), Action.spawn true ∷ Action.notify_when_done ∷ x ∷ []),
      )
      → 1 ≤ length events
      → IsClosed 1 (run_stream handle round idle ((true, s) ∷ events) CallStatus.process w)
  unfolding proceed_stream
  run_failure [] s w w' x d e h = absurd (omega arith)
  run_failure ((ok, s') ∷ events) s w w' x d e h =
      rw (e, d)
        (IsClosed-silent (Action.spawn true) _ 1 refl refl (
          IsClosed-silent Action.notify_when_done _ 1 refl refl
            (IsClosed-answered x _ d (finish-IsClosed 0 ok s' events w'))))

  -- A bound that every round with more to follow lessens.
  module _ (bound : W → ℕ)
      (less : (s : S) (w w' : W) (r : R) → round s w ≡ sends r true w' → bound w' < bound w) where
    write-IsClosed :
        (events : List (Bool × S)) (w : W)
        → 3 + bound w ≤ length events
        → IsClosed 1 (run_stream handle round idle events CallStatus.write w)
    unfolding proceed_stream
    write-IsClosed [] w h = absurd (omega arith)
    write-IsClosed ((false, s) ∷ events) w h = IsClosed-deregister R 1
    write-IsClosed ((true, s) ∷ events) w h = elim (Round-cases (round s w)) [
      | inl (r, true, w', e) ↦
          rw (run_write events s w w' CallStatus.write (Action.send r ∷ []) (rw (e, write_round))) (
            IsClosed-silent (Action.send r) _ 1 refl refl
              (write-IsClosed events w' (omega (arith, less s w w' r e))))
      | inl (r, false, w', e) ↦
          rw
            (run_write events s w w' CallStatus.post_write (Action.send r ∷ [])
              (rw (e, write_round)))
            (IsClosed-silent (Action.send r) _ 1 refl refl
              (post_write-IsClosed events w' (omega arith)))
      | inr (inl (w', e)) ↦
          rw
            (run_write events s w w' CallStatus.finish (Action.complete ∷ []) (rw (e, write_round)))
            (IsClosed-answered Action.complete _ refl (finished w' events (omega arith)))
      | inr (inr (x, w', e)) ↦
          rw (run_write events s w w' CallStatus.finish (error_answer x ∷ []) (rw (e, write_round)))
            (rw (error_answer-closes R x) (
              IsClosed-answered (error_answer x) _ (error_answer-closes R x)
                (finished w' events (omega arith))))
    ]
      where
        finished :
            (w' : W) (rest : List (Bool × S))
            → 1 ≤ length rest
            → IsClosed 0 (run_stream handle round idle rest CallStatus.finish w')
        finished w' [] h' = absurd (omega arith)
        finished w' ((ok, s') ∷ rest) h' = finish-IsClosed 0 ok s' rest w'

    process-IsClosed :
        (events : List (Bool × S)) (s : S) (w : W)
        → needed bound ((handle s).0) ≤ length events
        → IsClosed 1 (run_stream handle round idle ((true, s) ∷ events) CallStatus.process w)
    unfolding process_round
    process-IsClosed events s w h = elim (Outcome-cases ((handle s).0)) [
      | inl (e, thrown) ↦
          run_failure events s w w (error_answer e) (error_answer-closes R e)
            (rw (thrown, process_round)) (rw thrown at h)
      | inr ((rc, w'), body) ↦ elim (Bool-cases (is_ok rc)) [
        | inl good ↦ rw (run_process events s rc w w' body good) (
            IsClosed-silent (Action.spawn true) _ 1 refl refl (
              IsClosed-silent Action.notify_when_done _ 1 refl refl (
                write-IsClosed ((true, (handle s).1) ∷ events) w'
                  (let h' = rw body at h in omega arith))))
        | inr bad ↦
            run_failure events s w w' (Action.respond_error rc) refl (rw (body, process_round, bad))
              (let h' = rw body at h in omega arith)
      ]
    ]

    -- Whatever the other calls do to the shared state, and whichever events fail, a stream of rounds
    -- that lessen a bound ends: after the two events of its request and as many as its body asks for,
    -- it has been deregistered, once and as its last action, and was answered at most once.
    pub stream_life-IsClosed :
        (a b : Bool) (s t : S) (events : List (Bool × S))
        → needed bound ((handle t).0) ≤ length events
        → IsClosed 1 (stream_life handle round idle ((a, s) ∷ (b, t) ∷ events))
    unfolding proceed_stream initial_status
    stream_life-IsClosed false b s t events h = IsClosed-deregister R 1
    stream_life-IsClosed true false s t events h =
        IsClosed-silent Action.request _ 1 refl refl (IsClosed-deregister R 1)
    stream_life-IsClosed true true s t events h =
        IsClosed-silent Action.request _ 1 refl refl (process-IsClosed events t idle h)
