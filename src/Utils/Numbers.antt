-- ===== src/Utils/Numbers.antt =====
-- sdks/cpp/common/src/utils.cpp: `readTimestamp`; and `std::stoi`, which the REST connection calls.
use catena.Base.{
  ℕ, zero, suc, Bool, true, false, ◌&&◌, ◌||◌, [], ◌∷◌, Option, none, some, if◌then◌else◌, leb, ltb,
  ◌==◌, length, drop, all,
}
use catena.Base.Int.{ℤ, pos, negsuc}
use catena.Base.Text.{Text}
use catena.ParamPath.Decimal.{value_from}

abbrev pub is_digit : ℕ → Bool
is_digit c = leb b'0' c && leb c b'9'

-- `std::isspace` in the C locale.
abbrev pub is_space : ℕ → Bool
is_space c = c == b' ' || (leb 9 c && leb c 13)

unfoldable pub skip_spaces : Text → Text
skip_spaces [] = []
skip_spaces (c ∷ s) = let rest = skip_spaces s in if is_space c then rest else c ∷ s

unfoldable pub digits_of : Text → Text
digits_of [] = []
digits_of (c ∷ s) = let more = c ∷ digits_of s in if is_digit c then more else []

abbrev pub int_limit : ℕ
int_limit = 2147483648

-- `-n`
abbrev pub negated : ℕ → ℤ
negated zero = pos 0
negated (suc m) = negsuc m

-- The number behind the sign, where there is a digit and an int can hold it; and what follows.
unfoldable pub signed : Bool → Text → Option (ℤ × Text)
unfolding digits_of value_from
signed minus s = elim (digits_of s) [
  | [] ↦ none
  | d ∷ ds ↦
      let n = value_from 0 (d ∷ ds) in
      let rest = drop (length (d ∷ ds)) s in
      if minus
      then (if leb n int_limit then some (negated n, rest) else none)
      else (if ltb n int_limit then some (pos n, rest) else none)
]

unfoldable pub after_spaces : Text → Option (ℤ × Text)
unfolding signed
after_spaces [] = none
after_spaces (c ∷ s) =
    if c == b'-' then signed true s else if c == b'+' then signed false s else signed false (c ∷ s)

-- `std::stoi(s, &processed)`: the number, and what stands from `processed` on; `none` where it throws.
unfoldable pub stoi : Text → Option (ℤ × Text)
unfolding skip_spaces after_spaces
stoi s = after_spaces (skip_spaces s)

-- 2 ^ 63
abbrev pub long_limit : ℕ
long_limit = 9223372036854775808

-- `readTimestamp`: what `dest` becomes, where it changes.
unfoldable pub read_timestamp : Text → Option ℕ
unfolding value_from
read_timestamp [] = none
read_timestamp (c ∷ s) =
    if all is_digit (c ∷ s) && ltb (value_from 0 (c ∷ s)) long_limit
    then some (value_from 0 (c ∷ s))
    else none
