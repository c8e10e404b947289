-- ===== src/Utils/Subs.antt =====
-- `split` against `join`, and `subs` against both.
use catena.Base.{
  ℕ, zero, suc, ◌<◌, ◌≤◌, ◌≡◌, refl, sym, ap, ◌≢◌, inl, inr, ◌∙◌, List, [], ◌∷◌, ◌++◌, none, some,
  true, Bool-cases, Option-cases, arith, length, length-append, drop, All,
}
use catena.Base.Text.{Text, starts_with}
use catena.Utils.{find_seq, subs_loop, subs, split_loop, split, timeout}

-- The pieces put together again, with a text between each two.
abbrev pub join : Text → List Text → Text
join sep [] = []
join sep (x ∷ []) = x
join sep (x ∷ y ∷ ys) = x ++ (sep ++ join sep (y ∷ ys))

join-cons : (sep x : Text) (l : List Text) → l ≢ [] → join sep (x ∷ l) ≡ x ++ (sep ++ join sep l)
join-cons sep x [] h = absurd (h refl)
join-cons sep x (y ∷ ys) h = refl

starts_with-drop : (s t : Text) → starts_with s t ≡ true → s ≡ t ++ drop (length t) s
unfolding starts_with
starts_with-drop s [] h = refl
starts_with-drop (a ∷ s) (b ∷ t) h = ground (arith, starts_with-drop s t)
starts_with-drop [] (b ∷ t) h = cc

-- A match lies where it is said to lie.
pub find_seq_sound :
    (seq s before after : Text)
    → find_seq seq s ≡ some (before, after)
    → s ≡ before ++ (seq ++ after)
unfolding find_seq
find_seq_sound seq [] before after h = cc
find_seq_sound seq (c ∷ s) before after h = elim (Bool-cases (starts_with (c ∷ s) seq)) [
  | inl e ↦ ground (arith, starts_with-drop (c ∷ s) seq e)
  | inr e ↦ elim (Option-cases (find_seq seq s)) [
    | inl missed ↦ ground arith
    | inr ((b, a), found) ↦ ground (arith, find_seq_sound seq s b a found)
  ]
]

-- No match begins in a text without the first character.
pub find_seq-none : (c : ℕ) (seq s : Text) → All (λ x. x ≢ c) s → find_seq (c ∷ seq) s ≡ none
unfolding find_seq starts_with
find_seq-none c seq [] h = refl
find_seq-none c seq (x ∷ s) h = ground (arith, find_seq-none c seq s h.1)

split_loop-ne-nil : (n : ℕ) (delim prev pos : Text) → split_loop n delim prev pos ≢ []
unfolding split_loop
split_loop-ne-nil zero delim prev pos h = cc
split_loop-ne-nil (suc n) delim prev pos h = ground arith

-- One round of the loop of `split`.
module _ (n : ℕ) (delim prev pos : Text) where
  split_loop_last : find_seq delim pos ≡ none → split_loop (suc n) delim prev pos ≡ pos ∷ []
  unfolding split_loop
  split_loop_last h = ground arith

  split_loop_more :
      (before after : Text)
      → find_seq delim pos ≡ some (before, after)
      → split_loop (suc n) delim prev pos ≡ before ∷ split_loop n delim pos after
  unfolding split_loop
  split_loop_more before after h = ground arith

subs_loop-join :
    (n : ℕ) (seq rep prev pos : Text)
    → subs_loop n seq rep prev pos ≡ join rep (split_loop n seq prev pos)
unfolding subs_loop split_loop
subs_loop-join zero seq rep prev pos = refl
subs_loop-join (suc n) seq rep prev pos = elim (Option-cases (find_seq seq pos)) [
  | inl e ↦ ground arith
  | inr ((before, after), e) ↦ ground (
    arith,
    subs_loop-join n seq rep pos after,
    join-cons rep before (split_loop n seq pos after) (split_loop-ne-nil n seq pos after),
  )
]

-- Replacing a text is splitting at it and joining the pieces by what replaces it.
subs-join :
    (str : Text) (c : ℕ) (seq rep : Text) → subs str (c ∷ seq) rep ≡ join rep (split str (c ∷ seq))
unfolding subs split
subs-join str c seq rep = subs_loop-join timeout (c ∷ seq) rep str str

-- A loop that ends within its rounds loses and repeats nothing.
join-split_loop :
    (n : ℕ) (delim prev pos : Text)
    → length (split_loop n delim prev pos) ≤ n
    → join delim (split_loop n delim prev pos) ≡ pos
join-split_loop zero delim prev pos h = absurd (ground (arith, split_loop-ne-nil 0 delim prev pos))
join-split_loop (suc n) delim prev pos h = elim (Option-cases (find_seq delim pos)) [
  | inl e ↦ rw (split_loop_last n delim prev pos e)
  | inr ((before, after), e) ↦
      let step = split_loop_more n delim prev pos before after e in
      rw step (
        join-cons delim before _ (split_loop-ne-nil n delim pos after)
        ∙ ap (λ t. before ++ (delim ++ t))
            (join-split_loop n delim pos after (omega (arith, ap length step)))
        ∙ sym (find_seq_sound delim pos before after e))
]

-- One that runs out of rounds repeats a part of the text.
join-split_loop_timeout :
    (n : ℕ) (delim prev pos : Text)
    → 0 < length delim
    → length pos < length prev
    → n < length (split_loop n delim prev pos)
    → length pos < length (join delim (split_loop n delim prev pos))
join-split_loop_timeout zero delim prev pos d p h = unfold split_loop in p
join-split_loop_timeout (suc n) delim prev pos d p h = elim (Option-cases (find_seq delim pos)) [
  | inl e ↦ absurd (omega (arith, ap length (split_loop_last n delim prev pos e)))
  | inr ((before, after), e) ↦
      let step = split_loop_more n delim prev pos before after e in
      let whole = ap length (find_seq_sound delim pos before after e) in
      let joined = ap length (join-cons delim before _ (split_loop-ne-nil n delim pos after)) in
      rw step (
        omega (
          arith,
          whole,
          joined,
          length-append before (delim ++ after),
          length-append delim after,
          length-append before (delim ++ join delim (split_loop n delim pos after)),
          length-append delim (join delim (split_loop n delim pos after)),
          join-split_loop_timeout n delim pos after d
              (omega
                (arith, whole, length-append before (delim ++ after), length-append delim after))
              (omega (arith, ap length step)),
        ))
]

split_loop_first :
    (n : ℕ) (delim s : Text)
    → 0 < length delim
    → suc n < length (split_loop (suc n) delim s s)
    → length s < length (join delim (split_loop (suc n) delim s s))
split_loop_first n delim s d h = elim (Option-cases (find_seq delim s)) [
  | inl e ↦ absurd (omega (arith, ap length (split_loop_last n delim s s e)))
  | inr ((before, after), e) ↦
      let step = split_loop_more n delim s s before after e in
      let whole = ap length (find_seq_sound delim s before after e) in
      rw step (
        omega (
          arith,
          whole,
          ap length (join-cons delim before _ (split_loop-ne-nil n delim s after)),
          length-append before (delim ++ after),
          length-append delim after,
          length-append before (delim ++ join delim (split_loop n delim s after)),
          length-append delim (join delim (split_loop n delim s after)),
          join-split_loop_timeout n delim s after d
              (omega
                (arith, whole, length-append before (delim ++ after), length-append delim after))
              (omega (arith, ap length step)),
        ))
]

-- While the pieces are at most as many as the rounds allowed, `split` takes the text apart without
-- loss: the pieces, joined by the delimiter, are the text.
join-split :
    (str : Text) (c : ℕ) (delim : Text)
    → length (split str (c ∷ delim)) ≤ timeout
    → join (c ∷ delim) (split str (c ∷ delim)) ≡ str
unfolding split
join-split str c delim h = join-split_loop timeout (c ∷ delim) str str h

-- With more pieces than that the rounds ran out, and the pieces joined are longer than the text:
-- the last piece repeats a part of it.
pub split_times_out :
    (str : Text) (c : ℕ) (delim : Text)
    → timeout < length (split str (c ∷ delim))
    → length str < length (join (c ∷ delim) (split str (c ∷ delim)))
unfolding split
split_times_out str c delim h = split_loop_first 999 (c ∷ delim) str (omega arith) h

-- A text without the first character of what is looked for is left as it is.
pub subs_none :
    (str : Text) (c : ℕ) (seq rep : Text) → All (λ x. x ≢ c) str → subs str (c ∷ seq) rep ≡ str
unfolding subs
subs_none str c seq rep h = subs_loop_none 999 str (find_seq-none c seq str h)
  where
    subs_loop_none :
        (n : ℕ) (s : Text) → find_seq (c ∷ seq) s ≡ none → subs_loop (suc n) (c ∷ seq) rep s s ≡ s
    subs_loop_none n s e = unfold subs_loop in ground arith
