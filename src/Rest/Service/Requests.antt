-- ===== src/Rest/Service/Requests.antt =====
-- ServiceImpl.cpp: the active requests are the connections whose threads are at work, and `run` waits for
-- them.
use catena.Base.{ℕ, zero, suc, ◌+◌, ◌<◌, ◌≡◌, refl, Bool, true, false, if◌then◌else◌, arith}
use catena.Rest.Service.{
  Phase, accepting, counted, waiting, returned, Server, started, wrap, Step, accept, spawn,
  complete, shut_down, leave, Reach, here, next,
}

-- A connection that is counted and has no thread yet.
abbrev pub pending : Phase → ℕ
pending counted = 1
pending _ = 0

-- Behind the loop no connection is accepted, and no thread is started.
abbrev pub IsLeaving : Phase → Type 0
IsLeaving waiting = Unit
IsLeaving returned = Unit
IsLeaving _ = ⊥

-- The counter is the number of the threads and of such a connection. The loop is left behind the flag, and
-- `run` returns when nothing is counted.
pub record IsCounted (s : Server) : Type 0 where
  pub counts : s.active_requests ≡ s.running + pending s.phase
  pub fits : s.running + pending s.phase < 4294967296
  pub drained : s.phase ≡ returned → s.running ≡ 0
  pub flagged : IsLeaving s.phase → s.shutdown ≡ true

spawn-IsCounted :
    (s : Server) (b : Bool)
    → s.shutdown ≡ b
    → s.phase ≡ counted
    → IsCounted s
    → IsCounted (record s { phase = if b then waiting else accepting; running = s.running + 1 })
spawn-IsCounted s true e p h = record {
  counts = let before = rw p at h.counts in omega arith;
  fits = let before = rw p at h.fits in omega arith;
  drained = λ q. absurd (ground arith);
  flagged = λ q. e;
}
spawn-IsCounted s false e p h = record {
  counts = let before = rw p at h.counts in omega arith;
  fits = let before = rw p at h.fits in omega arith;
  drained = λ q. absurd (ground arith);
  flagged = λ q. absurd q;
}

Step-IsCounted : {s t : Server} → Step s t → IsCounted s → IsCounted t
Step-IsCounted (accept s p room) h = record {
  counts = let before = rw p at h.counts in omega arith;
  fits = omega arith;
  drained = λ q. absurd (ground arith);
  flagged = λ q. absurd q;
}
Step-IsCounted (spawn s p) h = spawn-IsCounted s s.shutdown refl p h
Step-IsCounted (complete s n p) h = record {
  counts = let before = h.counts in let room = h.fits in omega arith;
  fits = let room = h.fits in omega arith;
  drained = λ q. (let none = h.drained q in absurd (omega arith));
  flagged = h.flagged;
}
Step-IsCounted (shut_down s) h = record {
  counts = h.counts;
  fits = h.fits;
  drained = h.drained;
  flagged = λ q. refl;
}
Step-IsCounted (leave s p q) h = record {
  counts = let before = rw p at h.counts in omega arith;
  fits = let before = rw p at h.fits in omega arith;
  drained = λ e. (let before = rw p at h.counts in omega arith);
  flagged = λ e. h.flagged (rw p tt);
}

started-IsCounted : IsCounted started
started-IsCounted = record {
  counts = refl;
  fits = omega arith;
  drained = λ q. refl;
  flagged = λ q. absurd q;
}

pub Reach-IsCounted : {s t : Server} → IsCounted s → Reach s t → IsCounted t
Reach-IsCounted h here = h
Reach-IsCounted h (next r st) = Step-IsCounted st (Reach-IsCounted h r)

-- When `run` has returned the flag of `Shutdown` is set and the thread of no connection is at work, in
-- whatever order connections came, threads ended and the flag was set.
pub run-drained :
    {s : Server} → Reach started s → s.phase ≡ returned → (s.shutdown ≡ true) × (s.running ≡ 0)
run-drained r p = let h = Reach-IsCounted started-IsCounted r in (h.flagged (rw p tt), h.drained p)

Reach-trans : {s t u : Server} → Reach s t → Reach t u → Reach s u
Reach-trans r here = r
Reach-trans r (next q st) = next (Reach-trans r q) st

drains :
    (n : ℕ) (s : Server)
    → s.running ≡ n
    → s.phase ≡ waiting
    → IsCounted s
    → (t : Server) × Reach s t × (t.phase ≡ returned)
drains zero s e p h = (
  record s { phase = returned },
  next here (leave s p (let counts = rw p at h.counts in omega arith)),
  refl,
)
drains (suc n) s e p h =
    let st = complete s n e in
    let (t, r, done) =
      drains n (record s { running = n; active_requests = wrap (s.active_requests + 4294967295) })
        refl p (Step-IsCounted st h) in
    (t, Reach-trans (next here st) r, done)

-- Once the loop is left, `run` can always return: there are steps to its end.
run-returns :
    {s : Server}
    → Reach started s
    → s.phase ≡ waiting
    → (t : Server) × Reach s t × (t.phase ≡ returned)
run-returns {s} r p = drains s.running s refl p (Reach-IsCounted started-IsCounted r)
