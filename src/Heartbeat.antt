-- ===== src/Heartbeat.antt =====
-- sdks/cpp/common/include/rpc/Heartbeat.h and sdks/cpp/common/src/Heartbeat.cpp.
--
-- Any threads call `start` and `stop`, and one more is the one that `start` makes; what each does while it
-- holds the lock is one step. A slot of the signal does not call `stop`, which would join its own thread.
use catena.Base.{
  ℕ, ◌+◌, ◌≡◌, ◌≢◌, refl, ◌⊎◌, inl, inr, Bool, true, false, ◌||◌, if◌then◌else◌, arith,
}

-- `thread_` is null or joined, sleeps in `wait_for`, emits, or is past its loop; `terminated` is the end of
-- the program, where a thread that was not joined is replaced, or two calls join the same one.
pub data BeatPhase : Type 0 where
  absent sleeping emitting ended terminated : BeatPhase

-- `stopping` holds while `stop` waits for the thread; `emitted` counts the signals. `overlapped` is of no
-- variable of the program: it says that `start` or `stop` was called while another `stop` had not returned.
pub record Beat : Type 0 where
  pub running : Bool
  pub stopping : Bool
  pub overlapped : Bool
  pub phase : BeatPhase
  pub emitted : ℕ

abbrev pub still : Beat
still = record {
  running = false;
  stopping = false;
  overlapped = false;
  phase = absent;
  emitted = 0;
}

-- `std::make_unique<std::thread>` in place of what `thread_` was.
unfoldable pub new_thread : BeatPhase → BeatPhase
new_thread absent = sleeping
new_thread _ = terminated

-- `start`
unfoldable pub start : Beat → Beat
unfolding new_thread
start s = if s.running then s else record s { running = true; phase = new_thread s.phase }

-- `stop` up to `join`: one that comes while another waits joins the same thread.
unfoldable pub joined_twice : BeatPhase → BeatPhase
joined_twice absent = absent
joined_twice _ = terminated

unfoldable pub stop : Beat → Beat
unfolding joined_twice
stop s = record s {
  running = false;
  stopping = true;
  phase = if s.stopping then joined_twice s.phase else s.phase;
}

-- The thread behind the wait, whether the time is over or it was notified; and behind an emission.
unfoldable pub woken : Beat → Beat
woken s = if s.running then record s { phase = emitting } else record s { phase = ended }

unfoldable pub relocked : Beat → Beat
relocked s =
    if s.running
    then record s { phase = sleeping; emitted = s.emitted + 1 }
    else record s { phase = ended; emitted = s.emitted + 1 }

-- What `join` waits for.
pub data IsJoinable : BeatPhase → Type 0 where
  no_thread : IsJoinable absent
  over : IsJoinable ended

pub data BeatStep : Beat → Beat → Type 0 where
  starts : (s : Beat) → BeatStep s (record (start s) { overlapped = s.overlapped || s.stopping })
  wakes : (s : Beat) → s.phase ≡ sleeping → BeatStep s (woken s)
  emits : (s : Beat) → s.phase ≡ emitting → BeatStep s (relocked s)
  stops : (s : Beat) → BeatStep s (record (stop s) { overlapped = s.overlapped || s.stopping })
  joins :
      (s : Beat)
      → s.stopping ≡ true
      → IsJoinable s.phase
      → BeatStep s (record s { stopping = false; phase = absent })

pub data BeatReach (s : Beat) : Beat → Type 0 where
  here : BeatReach s s
  next : {t u : Beat} → BeatReach s t → BeatStep t u → BeatReach s u

-- There is no thread where neither flag is set, and the program has not been terminated.
pub record IsSteady (s : Beat) : Type 0 where
  pub quiet : s.running ≡ false → s.stopping ≡ false → s.phase ≡ absent
  pub alive : s.phase ≢ terminated
  pub exclusive : s.stopping ≡ true → s.running ≡ false
  pub at_work : s.running ≡ true → (s.phase ≡ sleeping) ⊎ (s.phase ≡ emitting)

if-IsSteady :
    (b : Bool) (s t : Beat)
    → (b ≡ true → IsSteady s)
    → (b ≡ false → IsSteady t)
    → IsSteady (if b then s else t)
if-IsSteady true s t on off = on refl
if-IsSteady false s t on off = off refl

-- The thread that is made where there is none.
new_thread-IsSteady :
    (s : Beat)
    → s.stopping ≡ false
    → s.phase ≡ absent
    → IsSteady (record s { running = true; phase = new_thread s.phase })
unfolding new_thread
new_thread-IsSteady s h e = record {
  quiet = λ on k. absurd (ground arith);
  alive = rw e (ground arith);
  exclusive = λ k. absurd (ground arith);
  at_work = λ on. inl (rw e refl);
}

-- A thread past its loop, where it is not to run.
ended-IsSteady :
    (s : Beat) (n : ℕ)
    → s.running ≡ false
    → IsSteady s
    → (s.stopping ≡ false → s.phase ≡ absent → ⊥)
    → IsSteady (record s { phase = ended; emitted = n })
ended-IsSteady s n off k busy = record {
  quiet = λ e h. absurd (busy h (k.quiet off h));
  alive = ground arith;
  exclusive = λ h. off;
  at_work = λ on. absurd (ground arith);
}

busy-IsSteady :
    (s : Beat) (p : BeatPhase) (n : ℕ)
    → s.running ≡ true
    → IsSteady s
    → (p ≡ sleeping) ⊎ (p ≡ emitting)
    → IsSteady (record s { phase = p; emitted = n })
busy-IsSteady s p n on k busy = record {
  quiet = λ off h. absurd (ground arith);
  alive = ground arith;
  exclusive = k.exclusive;
  at_work = λ h. busy;
}

-- The mark is no part of what is steady.
marked-IsSteady : (s : Beat) (o : Bool) → IsSteady s → IsSteady (record s { overlapped = o })
marked-IsSteady s o k = record {
  quiet = k.quiet;
  alive = k.alive;
  exclusive = k.exclusive;
  at_work = k.at_work;
}

start-IsSteady : (s : Beat) → s.stopping ≡ false → IsSteady s → IsSteady (start s)
unfolding start
start-IsSteady s h k =
    if-IsSteady s.running s _ (λ on. k) (λ off. new_thread-IsSteady s h (k.quiet off h))

stop-IsSteady : (s : Beat) → s.stopping ≡ false → IsSteady s → IsSteady (stop s)
unfolding stop
stop-IsSteady s h k = record {
  quiet = λ off e. absurd (ground arith);
  alive = rw h k.alive;
  exclusive = λ e. refl;
  at_work = λ on. absurd (ground arith);
}

-- One step keeps it, unless it is a call while another waits.
BeatStep-IsSteady :
    (s t : Beat)
    → BeatStep s t
    → (s.overlapped ≡ false → IsSteady s)
    → t.overlapped ≡ false
    → IsSteady t
unfolding start stop woken relocked
BeatStep-IsSteady _ _ (starts s) k h =
    marked-IsSteady (start s) _ (start-IsSteady s (ground arith) (k (ground arith)))
BeatStep-IsSteady _ _ (stops s) k h =
    marked-IsSteady (stop s) _ (stop-IsSteady s (ground arith) (k (ground arith)))
BeatStep-IsSteady _ _ (wakes s asleep) k h =
    let before = k (ground arith) in
    if-IsSteady s.running _ _ (λ on. busy-IsSteady s emitting s.emitted on before (inr refl))
      (λ off. ended-IsSteady s s.emitted off before (λ e none_there. ground arith))
BeatStep-IsSteady _ _ (emits s busy) k h =
    let before = k (ground arith) in
    if-IsSteady s.running _ _ (λ on. busy-IsSteady s sleeping (s.emitted + 1) on before (inl refl))
      (λ off. ended-IsSteady s (s.emitted + 1) off before (λ e none_there. ground arith))
BeatStep-IsSteady _ _ (joins s waits j) k h =
    let before = k h in
    record {
      quiet = λ off e. refl;
      alive = ground arith;
      exclusive = λ e. absurd (ground arith);
      at_work = λ on. absurd (let off = before.exclusive waits in ground arith);
    }

-- As long as `start` and `stop` are never called while another `stop` has not returned, and whatever the timing
-- of the thread that beats: no thread is replaced that was not joined, there is a thread at work while the
-- heartbeat is running, and once `stop` has returned there is none that could emit, until the next `start`.
pub run-IsSteady : {s : Beat} → BeatReach still s → s.overlapped ≡ false → IsSteady s
run-IsSteady here h = record {
  quiet = λ e k. refl;
  alive = ground arith;
  exclusive = λ e. refl;
  at_work = λ e. absurd (ground arith);
}
run-IsSteady (next r step) h = BeatStep-IsSteady _ _ step (run-IsSteady r) h
