-- ===== src/ParamPath/Syntax.antt =====
-- The regular expressions of `Path::Path`, as a scanner.
use catena.Base.{
  ℕ, zero, suc, Bool, ◌||◌, ◌&&◌, List, [], ◌∷◌, Option, none, some, length, leb, ◌==◌,
  if◌then◌else◌,
}
use catena.Base.Text.{Text}

-- `[a-zA-Z_]`, `\d` and `\w`.
unfoldable pub is_start : ℕ → Bool
is_start c = (leb b'a' c && leb c b'z') || (leb b'A' c && leb c b'Z') || c == b'_'

unfoldable pub is_digit : ℕ → Bool
is_digit c = leb b'0' c && leb c b'9'

unfoldable pub is_word : ℕ → Bool
unfolding is_start is_digit
is_word c = is_start c || is_digit c

-- What one of the three alternatives matched, without its solidus.
pub data Token : Type 0 where
  oid idx : Text → Token
  end : Token

abbrev pub take_while : (ℕ → Bool) → Text → Text
take_while p [] = []
take_while p (c ∷ s) = if p c then c ∷ take_while p s else []

abbrev pub drop_while : (ℕ → Bool) → Text → Text
drop_while p [] = []
drop_while p (c ∷ s) = if p c then drop_while p s else c ∷ s

-- What follows a solidus: as much as the alternative can take, since no segment could begin with
-- what a shorter match would leave.
unfoldable pub scan_body : Text → Option (Token × Text)
scan_body [] = none
scan_body (c ∷ s) =
    if is_start c
    then some (oid (c ∷ take_while is_word s), drop_while is_word s)
    else if is_digit c
    then some (idx (c ∷ take_while is_digit s), drop_while is_digit s)
    else if c == b'-'
    then some (end, s)
    else none

unfoldable pub scan : Text → Option (Token × Text)
scan [] = none
scan (c ∷ s) = if c == b'/' then scan_body s else none

-- The whole text, one round for a segment.
unfoldable pub scan_all : ℕ → Text → Option (List Token)
scan_all fuel [] = some []
scan_all zero (c ∷ s) = none
scan_all (suc fuel) (c ∷ s) = elim (scan (c ∷ s)) [
  | none ↦ none
  | some (t, rest) ↦ elim (scan_all fuel rest) [ none ↦ none | some ts ↦ some (t ∷ ts) ]
]

-- Every round takes a character at least, so the length is fuel enough.
unfoldable pub tokens : Text → Option (List Token)
unfolding scan_all scan scan_body is_word
tokens s = scan_all (length s) s
