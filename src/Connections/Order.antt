-- ===== src/Connections/Order.antt =====
-- The order of the queue.
use mathlib.Core.List.{Perm}
use mathlib.Core.List.Perm
use catena.Base.{
  suc, ◌≡◌, refl, Bool, true, false, List, [], ◌∷◌, length, keep, Bool-cases, inl, inr, arith, All,
  All-keep,
}
use catena.Connections.{Connection, lt_connection, insert_connection}

-- `a` may stand in front of `b`: it has a lower priority, or the same one and is not older.
abbrev pub Before : Connection → Connection → Type 0
Before a b = lt_connection a b ≡ true

-- Ascending: each connection may stand in front of all that follow it.
abbrev pub IsAscending : List Connection → Type 0
IsAscending [] = Unit
IsAscending (c ∷ cs) = All (Before c) cs × IsAscending cs

pub lt_connection_total : (a b : Connection) → lt_connection a b ≡ false → lt_connection b a ≡ true
unfolding lt_connection
lt_connection_total a b h = ground arith

lt_connection_trans : (a b c : Connection) → Before a b → Before b c → Before a c
unfolding lt_connection
lt_connection_trans a b c p q = ground arith

pub All-Before-trans :
    (a b : Connection) (cs : List Connection) → Before a b → All (Before b) cs → All (Before a) cs
All-Before-trans a b [] p h = tt
All-Before-trans a b (c ∷ cs) p h = (lt_connection_trans a b c p h.0, All-Before-trans a b cs p h.1)

pub All-insert {ℓ} :
    (P : Connection → Type ℓ) (c : Connection) (cs : List Connection)
    → P c
    → All P cs
    → All P (insert_connection c cs)
unfolding insert_connection
All-insert P c [] p h = (p, tt)
All-insert P c (d ∷ ds) p h = elim (Bool-cases (lt_connection c d)) [
  | inl e ↦ rw e (p, h)
  | inr e ↦ rw e (h.0, All-insert P c ds p h.1)
]

pub insert-IsAscending :
    (c : Connection) (cs : List Connection) → IsAscending cs → IsAscending (insert_connection c cs)
unfolding insert_connection
insert-IsAscending c [] h = (tt, tt)
insert-IsAscending c (d ∷ ds) h = elim (Bool-cases (lt_connection c d)) [
  | inl e ↦ rw e ((e, All-Before-trans c d ds e h.0), h)
  | inr e ↦
      rw e (All-insert (Before d) c ds (lt_connection_total c d e) h.0, insert-IsAscending c ds h.1)
]

pub keep-IsAscending :
    (p : Connection → Bool) (cs : List Connection) → IsAscending cs → IsAscending (keep p cs)
keep-IsAscending p [] h = tt
keep-IsAscending p (c ∷ cs) h = elim (Bool-cases (p c)) [
  | inl e ↦ rw e (All-keep (Before c) p cs h.0, keep-IsAscending p cs h.1)
  | inr e ↦ rw e (keep-IsAscending p cs h.1)
]

pub insert-perm : (c : Connection) (cs : List Connection) → Perm (insert_connection c cs) (c ∷ cs)
unfolding insert_connection
insert-perm c [] = Perm.refl _
insert-perm c (d ∷ ds) = elim (Bool-cases (lt_connection c d)) [
  | inl e ↦ rw e (Perm.refl _)
  | inr e ↦ rw e (Perm.trans (Perm.cons d (insert-perm c ds)) (Perm.swap c d ds))
]

pub length-insert :
    (c : Connection) (cs : List Connection) → length (insert_connection c cs) ≡ suc (length cs)
unfolding insert_connection
length-insert c [] = refl
length-insert c (d ∷ ds) = ground (arith, length-insert c ds)
