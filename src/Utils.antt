-- ===== src/Utils.antt =====
-- sdks/cpp/common/src/utils.cpp: replacing and splitting. A position in the string is kept as the
-- text from there to the end.
pub mod Subs
pub mod Base64
pub mod Joined
pub mod Numbers
use catena.Base.{ℕ, zero, suc, List, [], ◌∷◌, ◌++◌, Option, none, some, drop, length, if◌then◌else◌}
use catena.Base.Text.{Text, starts_with}

-- `str.find(seq, pos)`: what stands before the match, and what follows it.
unfoldable pub find_seq : Text → Text → Option (Text × Text)
find_seq seq [] = none
find_seq seq (c ∷ s) =
    let later = find_seq seq s in
    if starts_with (c ∷ s) seq
    then some ([], drop (length seq) (c ∷ s))
    else elim later [ none ↦ none | some (before, after) ↦ some (c ∷ before, after) ]

-- The rounds that the code allows a loop before it gives up.
abbrev pub timeout : ℕ
timeout = 1000

-- The loop of `subs`: `prev` is where the round before this one began. When the rounds run out the
-- loop stops behind a match, and the code writes the string from `prev` on.
unfoldable pub subs_loop : ℕ → Text → Text → Text → Text → Text
subs_loop zero seq rep prev pos = prev
subs_loop (suc n) seq rep prev pos = elim (find_seq seq pos) [
  | none ↦ pos
  | some (before, after) ↦ before ++ (rep ++ subs_loop n seq rep pos after)
]

unfoldable pub subs : Text → Text → Text → Text
subs str [] rep = str
subs str (c ∷ seq) rep = subs_loop timeout (c ∷ seq) rep str str

-- The loop of `split`, which ends in the same way.
unfoldable pub split_loop : ℕ → Text → Text → Text → List Text
split_loop zero delim prev pos = prev ∷ []
split_loop (suc n) delim prev pos = elim (find_seq delim pos) [
  | none ↦ pos ∷ []
  | some (before, after) ↦ before ∷ split_loop n delim pos after
]

unfoldable pub split : Text → Text → List Text
split str [] = str ∷ []
split str (c ∷ delim) = split_loop timeout (c ∷ delim) str str
