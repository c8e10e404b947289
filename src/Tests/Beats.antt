-- ===== src/Tests/Beats.antt =====
-- A heartbeat that is started, beats once, and is stopped; and one that is started again too early.
use catena.Base.{refl, true}
use catena.Heartbeat.{
  start, stop, new_thread, woken, relocked, still, IsSteady, over, terminated, starts, wakes, emits,
  stops, joins, BeatReach, here, next, run-IsSteady,
}

abbrev beaten_once : BeatReach still (record still { emitted = 1 })
unfolding start stop new_thread woken relocked
beaten_once =
    next
      (next (next (next (next (next here (starts _)) (wakes _ refl)) (emits _ refl)) (stops _))
        (wakes _ refl))
      (joins _ refl over)

run-IsSteady_example : IsSteady (record still { emitted = 1 })
run-IsSteady_example = run-IsSteady beaten_once refl

-- A call of `start` while `stop` waits replaces the thread that is yet to be joined.
started_too_early :
    BeatReach still
      (record still { running = true; stopping = true; overlapped = true; phase = terminated })
unfolding start stop new_thread
started_too_early = next (next (next here (starts _)) (stops _)) (starts _)
