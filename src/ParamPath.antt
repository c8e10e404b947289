-- ===== src/ParamPath.antt =====
-- sdks/cpp/common/src/Path.cpp and include/Path.h: the segments of a parameter's path.
--
-- The regular expressions of the constructor are a scanner, one function for a segment. An `Index`
-- is a `size_t` of 64 bits.
pub mod Syntax
pub mod Decimal
pub mod Language
pub mod RoundTrip
pub mod Walk
pub mod Errors
use catena.Base.{
  ℕ, ◌+◌, ◌-◌, ◌<◌, ◌≤◌, Bool, true, false, ◌&&◌, not, List, [], ◌∷◌, ◌++◌, Option, none, some,
  length, get_elem?, last?, drop_last, drop, ltb, leb, ◌==◌, if◌then◌else◌,
}
use catena.Base.Text.{Text, txt, eqb}
use catena.Status.{Outcome, returns, throws, with_status, std_exception, invalid_argument, ◌>>=◌}
use catena.Utils.{subs}
use Syntax.{Token, oid, idx, end, tokens}
use Decimal.{stoul, print_index, word_size}

pub data Segment : Type 0 where
  index : ℕ → Segment
  string : Text → Segment

pub record ParamPath : Type 0 where
  pub segments : List Segment
  pub front_idx : ℕ

-- `Index(-1)` and the two values below it.
abbrev pub k_end : ℕ
k_end = word_size - 1

abbrev pub k_error : ℕ
k_error = word_size - 2

abbrev pub k_none : ℕ
k_none = word_size - 3

unfoldable pub escape : Text → Text
escape str = subs (subs str (txt "~") (txt "~0")) (txt "/") (txt "~1")

unfoldable pub unescape : Text → Text
unescape str = subs (subs str (txt "~0") (txt "~")) (txt "~1") (txt "/")

-- `unescape_(match.str()).substr(1)`
strip : Text → Text
unfolding unescape
strip text = drop 1 (unescape (b'/' ∷ text))

-- One round of the loop over the matches; `std::stoul` throws on a number that does not fit.
segment : Token → Outcome Segment
unfolding strip
segment (oid text) = returns (string (strip text))
segment (idx text) = elim (stoul (strip text)) [
  | none ↦ throws std_exception
  | some n ↦ returns (index n)
]
segment end = returns (index k_end)

segments_of : List Token → Outcome (List Segment)
unfolding segment
segments_of [] = returns []
segments_of (t ∷ ts) = do seg ← segment t; segs ← segments_of ts; returns (seg ∷ segs)

-- The constructor.
unfoldable pub parse : Text → Outcome ParamPath
unfolding segments_of
parse jptr = elim (tokens jptr) [
  | none ↦ throws (with_status invalid_argument)
  | some ts ↦ do segs ← segments_of ts; returns (record { segments = segs; front_idx = 0 })
]

abbrev pub is_index : Option Segment → Bool
is_index none = false
is_index (some (index n)) = true
is_index (some (string s)) = false

abbrev pub is_string : Option Segment → Bool
is_string none = false
is_string (some (index n)) = false
is_string (some (string s)) = true

abbrev pub as_index : Option Segment → ℕ
as_index none = k_error
as_index (some (index n)) = n
as_index (some (string s)) = k_error

abbrev pub as_string : Option Segment → Text
as_string none = []
as_string (some (index n)) = []
as_string (some (string s)) = s

-- What the accessors of the front and the back look at.
abbrev pub front : ParamPath → Option Segment
front p = if ltb p.front_idx (length p.segments) then get_elem? p.segments p.front_idx else none

abbrev pub back : ParamPath → Option Segment
back p = last? p.segments

unfoldable pub front_is_index : ParamPath → Bool
front_is_index p = is_index (front p)

unfoldable pub front_is_string : ParamPath → Bool
front_is_string p = is_string (front p)

unfoldable pub front_as_index : ParamPath → ℕ
front_as_index p = as_index (front p)

unfoldable pub front_as_string : ParamPath → Text
front_as_string p = as_string (front p)

unfoldable pub back_is_index : ParamPath → Bool
back_is_index p = is_index (back p)

unfoldable pub back_is_string : ParamPath → Bool
back_is_string p = is_string (back p)

unfoldable pub back_as_index : ParamPath → ℕ
back_as_index p = as_index (back p)

unfoldable pub back_as_string : ParamPath → Text
back_as_string p = as_string (back p)

-- `segments_.size() - frontIdx_` in 64 bits.
unfoldable pub size : ParamPath → ℕ
size p = length p.segments - p.front_idx

unfoldable pub empty : ParamPath → Bool
empty p = leb (length p.segments) p.front_idx

unfoldable pub pop : ParamPath → ParamPath
pop p = if ltb p.front_idx (length p.segments) then record p { front_idx = p.front_idx + 1 } else p

unfoldable pub unpop : ParamPath → ParamPath
unpop p = if ltb 0 p.front_idx then record p { front_idx = p.front_idx - 1 } else p

unfoldable pub rewind : ParamPath → ParamPath
rewind p = record p { front_idx = 0 }

unfoldable pub walked : ParamPath → ℕ
walked p = p.front_idx

abbrev shortened : List Segment → ℕ → ParamPath
shortened rest front_idx = record {
  segments = rest;
  front_idx = if ltb (length rest) front_idx then length rest else front_idx;
}

-- `popBack`, which keeps the front within the segments that are left.
unfoldable pub pop_back : ParamPath → ParamPath
pop_back p = if ltb 0 (length p.segments) then shortened (drop_last p.segments) p.front_idx else p

unfoldable pub push_back_index : ℕ → ParamPath → ParamPath
push_back_index i p = record p { segments = p.segments ++ index i ∷ [] }

unfoldable pub push_back_string : Text → ParamPath → ParamPath
push_back_string s p = record p {
  segments = p.segments ++ (if eqb s (txt "-") then index k_end else string (escape s)) ∷ [];
}

abbrev pub print_segment : Segment → Text
print_segment (index n) = if n == k_end then txt "-" else print_index n
print_segment (string s) = s

-- The loop of `toString`: only the first segment may go without its solidus.
unfoldable pub print_from : Bool → Bool → List Segment → Text
print_from leading first [] = []
print_from leading first (s ∷ segs) =
    (if first && not leading then [] else txt "/")
    ++ (print_segment s ++ print_from leading false segs)

unfoldable pub to_string : Bool → ParamPath → Text
unfolding print_from
to_string leading p = print_from leading true (drop p.front_idx p.segments)

unfoldable pub fqoid : ParamPath → Text
unfolding print_from
fqoid p = print_from true true p.segments
