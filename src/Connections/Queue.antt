-- ===== src/Connections/Queue.antt =====
-- What a registration does to the queue.
use mathlib.Core.List.{Perm, perm_middle, perm_append_singleton, append-nil, append_assoc}
use mathlib.Core.List.Perm
use catena.Base.{
  ℕ, ◌≤◌, ◌<◌, ◌≡◌, refl, Bool, true, false, not, List, [], ◌∷◌, ◌++◌, length, keep, Bool-cases,
  inl, inr, arith, if◌then◌else◌, All, leb, length-keep-le, ap, sym,
}
use mathlib.Core.Path.{subst}
use catena.Connections.{
  Connection, lt_connection, insert_connection, live, goes_first, replace, register, Registration,
}
use catena.Connections.Order.{
  Before, IsAscending, All-Before-trans, insert-IsAscending, keep-IsAscending, insert-perm,
  length-insert,
}

-- The queue that the new connection meets, and those that were cleared out of it: a queue with room
-- is left as it is.
abbrev pub purged : ℕ → List Connection → List Connection
purged max queue = if leb max (length queue) then live queue else queue

abbrev pub cleared : ℕ → List Connection → List Connection
cleared max queue = if leb max (length queue) then keep (λ d. d.cancelled) queue else []

pub data IsRegistered (c : Connection) (max : ℕ) (queue : List Connection) (r : Registration)
    : Type 0 where
  refused :
      max ≤ length (purged max queue)
      → All (Before c) (purged max queue)
      → r.queue ≡ purged max queue
      → r.shut_down ≡ cleared max queue
      → r.added ≡ false
      → IsRegistered c max queue r
  accepted :
      length (purged max queue) < max
      → r.queue ≡ insert_connection c (purged max queue)
      → r.shut_down ≡ cleared max queue
      → r.added ≡ true
      → IsRegistered c max queue r
  replaced :
      (victim : Connection)
      → max ≤ length (purged max queue)
      → victim ∷ r.queue ≡ insert_connection c (purged max queue)
      → All (Before victim) (purged max queue)
      → lt_connection c victim ≡ false
      → r.shut_down ≡ cleared max queue ++ victim ∷ []
      → r.added ≡ true
      → IsRegistered c max queue r

lt_connection_self : (c : Connection) → Before c c
unfolding lt_connection
lt_connection_self c = ground arith

replace_lem :
    (c d : Connection) (ds shut : List Connection)
    → lt_connection c d ≡ false
    → replace c (d ∷ ds) shut
      ≡ record { queue = insert_connection c ds; shut_down = shut ++ d ∷ []; added = true }
unfolding replace insert_connection
replace_lem c d ds shut h = ground arith

-- The full queue: `purged` with the new connection in it, or refused.
full_cases :
    (c : Connection) (max : ℕ) (queue ps : List Connection)
    → ps ≡ purged max queue
    → IsAscending ps
    → max ≤ length ps
    → IsRegistered c max queue (
        if goes_first c ps
        then record { queue = ps; shut_down = cleared max queue; added = false }
        else replace c ps (cleared max queue))
unfolding goes_first insert_connection
full_cases c max queue [] e asc h = refused (rw (← e) h) (rw (← e) tt) e refl refl
full_cases c max queue (d ∷ ds) e asc h = elim (Bool-cases (lt_connection c d)) [
  | inl first ↦
      rw first
        (refused (rw (← e) h) (rw (← e) (first, All-Before-trans c d ds first asc.0)) e refl refl)
  | inr later ↦
      rw (later, replace_lem c d ds (cleared max queue) later)
        (replaced d (rw (← e) h) (rw (← e) (rw later refl)) (rw (← e) (lt_connection_self d, asc.0))
          later refl refl)
]

purged-IsAscending :
    (max : ℕ) (queue : List Connection) → IsAscending queue → IsAscending (purged max queue)
purged-IsAscending max queue h = elim (Bool-cases (leb max (length queue))) [
  | inl e ↦ rw e (unfold live in keep-IsAscending (λ c. not c.cancelled) queue h)
  | inr e ↦ rw e h
]

-- What a registration does to a queue in ascending order is one of three things: a connection that
-- is below all of a full queue is refused, one with room is put in its place, and another takes the
-- place of the lowest, which is shut down. Cancelled connections are first cleared out of a full queue.
pub register_cases :
    (max : ℕ) (c : Connection) (queue : List Connection)
    → IsAscending queue
    → IsRegistered c max queue (register max c queue)
unfolding register
register_cases max c queue asc = elim (Bool-cases (leb max (length (purged max queue)))) [
  | inl full ↦ rw full (
      full_cases c max queue (purged max queue) refl (purged-IsAscending max queue asc)
        (ground arith))
  | inr room ↦ rw room (accepted (ground arith) refl refl refl)
]

pub record IsQueue (max : ℕ) (queue : List Connection) : Type 0 where
  pub bounded : length queue ≤ max
  pub ascending : IsAscending queue

-- A registration keeps the queue in ascending order and within its limit, whatever it answers.
pub register-IsQueue :
    (max : ℕ) (c : Connection) (queue : List Connection)
    → IsQueue max queue
    → IsQueue max (register max c queue).queue
unfolding live
register-IsQueue max c queue h =
    kept (register max c queue) (register_cases max c queue h.ascending)
  where
    asc : IsAscending (purged max queue)
    asc = purged-IsAscending max queue h.ascending

    within : length (purged max queue) ≤ max
    within = ground (arith, h.bounded, length-keep-le (λ d. not d.cancelled) queue)

    inserted : IsAscending (insert_connection c (purged max queue))
    inserted = insert-IsAscending c (purged max queue) asc

    kept : (r : Registration) → IsRegistered c max queue r → IsQueue max r.queue
    kept r (refused full before e s a) = record { bounded = rw e within; ascending = rw e asc }
    kept r (accepted room e s a) = record {
      bounded = rw e (omega (arith, length-insert c (purged max queue), room));
      ascending = rw e inserted;
    }
    kept r (replaced v full e before later s a) = record {
      bounded = omega (arith, ap length e, length-insert c (purged max queue), within);
      ascending = (subst IsAscending (sym e) inserted).1;
    }

keep-perm :
    (p : Connection → Bool) (cs : List Connection) → Perm (keep (λ c. not (p c)) cs ++ keep p cs) cs
keep-perm p [] = Perm.refl []
keep-perm p (c ∷ cs) = elim (Bool-cases (p c)) [
  | inl e ↦ rw e (
      Perm.trans (perm_middle (keep (λ c. not (p c)) cs) (keep p cs))
        (Perm.cons c (keep-perm p cs)))
  | inr e ↦ rw e (Perm.cons c (keep-perm p cs))
]

purged-perm :
    (max : ℕ) (queue : List Connection) → Perm (purged max queue ++ cleared max queue) queue
unfolding live
purged-perm max queue = elim (Bool-cases (leb max (length queue))) [
  | inl e ↦ rw e (keep-perm (λ c. c.cancelled) queue)
  | inr e ↦ rw e (rw append-nil (Perm.refl queue))
]

-- A registration loses no connection and makes none up: what is in the queue and what was shut down
-- are together the old queue, with the new connection if it was added.
register-perm :
    (max : ℕ) (c : Connection) (queue : List Connection)
    → IsAscending queue
    → let r = register max c queue in
      Perm (r.queue ++ r.shut_down) (if r.added then c ∷ queue else queue)
register-perm max c queue asc = kept (register max c queue) (register_cases max c queue asc)
  where
    with_new : Perm (insert_connection c (purged max queue) ++ cleared max queue) (c ∷ queue)
    with_new =
        Perm.trans (Perm.append_right (cleared max queue) (insert-perm c (purged max queue)))
          (Perm.cons c (purged-perm max queue))

    kept :
        (r : Registration)
        → IsRegistered c max queue r
        → Perm (r.queue ++ r.shut_down) (if r.added then c ∷ queue else queue)
    kept r (refused full before e s a) = rw (e, s, a) (purged-perm max queue)
    kept r (accepted room e s a) = rw (e, s, a) with_new
    kept r (replaced v full e before later s a) =
        rw (s, a, ← append_assoc)
          (Perm.trans (perm_append_singleton v (r.queue ++ cleared max queue))
            (subst (λ l. Perm (l ++ cleared max queue) (c ∷ queue)) (sym e) with_new))
