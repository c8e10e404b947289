-- ===== src/Utils/Joined.antt =====
-- utils.cpp: `split` of pieces that were joined.
use catena.Base.{
  ℕ, zero, suc, ◌<◌, ◌≡◌, refl, ap, ◌≢◌, List, [], ◌∷◌, ◌++◌, some, arith, length, All,
}
use catena.Base.Text.{Text, starts_with}
use catena.Utils.{find_seq, split_loop, split, timeout}
use catena.Utils.Subs.{join, find_seq-none}

-- The delimiter is found behind a piece that lacks it.
pub find_seq-append :
    (c : ℕ) (s rest : Text)
    → All (λ x. x ≢ c) s
    → find_seq (c ∷ []) (s ++ (c ∷ rest)) ≡ some (s, rest)
unfolding find_seq starts_with
find_seq-append c [] rest h = ground arith
find_seq-append c (x ∷ s) rest h = ground (arith, find_seq-append c s rest h.1)

split_loop-join :
    (n c : ℕ) (prev s : Text) (pieces : List Text)
    → All (λ p. All (λ x. x ≢ c) p) (s ∷ pieces)
    → length pieces < n
    → split_loop n (c ∷ []) prev (join (c ∷ []) (s ∷ pieces)) ≡ s ∷ pieces
unfolding split_loop
split_loop-join zero c prev s pieces h lt = absurd (omega arith)
split_loop-join (suc n) c prev s [] h lt = rw (find_seq-none c [] s h.0, split_loop) refl
split_loop-join (suc n) c prev s (t ∷ pieces) h lt =
    rw (find_seq-append c s (join (c ∷ []) (t ∷ pieces)) h.0, split_loop)
      (ap (λ l. s ∷ l) (split_loop-join n c _ t pieces h.1 (omega arith)))

-- Pieces without the delimiter come back from their join, while they are at most as many as the rounds
-- that `split` allows.
pub split-join :
    (c : ℕ) (s : Text) (pieces : List Text)
    → All (λ p. All (λ x. x ≢ c) p) (s ∷ pieces)
    → length pieces < timeout
    → split (join (c ∷ []) (s ∷ pieces)) (c ∷ []) ≡ s ∷ pieces
unfolding split
split-join c s pieces h lt = split_loop-join timeout c (join (c ∷ []) (s ∷ pieces)) s pieces h lt
