-- ===== src/ParamPath/RoundTrip.antt =====
-- A path that is printed is read back, and what is read is a valid path.
use catena.Base.{
  ℕ, ◌<◌, ◌≤◌, ◌≡◌, refl, sym, ◌≢◌, inl, inr, Bool, true, false, List, [], ◌∷◌, length, ◌==◌,
  if◌then◌else◌, Bool-cases, Option-cases, All, All-append, arith, map,
}
use catena.Base.Text.{Text, txt}
use catena.Status.{returns, >>=-eq-returns, returns-injective}
use catena.Utils.Subs.{subs_none}
use catena.ParamPath.Syntax.{is_start, is_digit, is_word, Token, oid, idx, end, tokens}
use catena.ParamPath.Decimal.{
  stoul, print_index, word_size, stoul-print_index, print_index-digits, IsDigit,
}
use catena.ParamPath.Language.{IsName, IsToken, body, text_of, tokens_iff}
use catena.ParamPath.{
  Segment, index, string, ParamPath, k_end, strip, segment, segments_of, parse, print_segment,
  print_from, fqoid, rewind,
}

-- A name in the syntax of the constructor, or a number that fits.
abbrev pub IsSegment : Segment → Type 0
IsSegment (index n) = n < word_size
IsSegment (string s) = IsName s

-- The front is a segment or the end.
pub record IsValid (p : ParamPath) : Type 0 where
  pub spelled : All IsSegment p.segments
  pub within : p.front_idx ≤ length p.segments

abbrev token_of : Segment → Token
token_of (index n) = if n == k_end then end else idx (print_index n)
token_of (string s) = oid s

-- A word holds neither of the characters that are escaped.
word-plain : (c : ℕ) → is_word c ≡ true → c ≢ b'~'
unfolding is_word
word-plain c h = ground arith

name-plain : (s : Text) → All (λ x. is_word x ≡ true) s → All (λ x. x ≢ b'~') s
name-plain [] h = tt
name-plain (c ∷ s) h = (word-plain c h.0, name-plain s h.1)

digit-word : (c : ℕ) → is_digit c ≡ true → is_word c ≡ true
unfolding is_word
digit-word c h = ground arith

start-word : (c : ℕ) → is_start c ≡ true → is_word c ≡ true
unfolding is_word
start-word c h = ground arith

digits-words : (s : Text) → All (λ x. is_digit x ≡ true) s → All (λ x. is_word x ≡ true) s
digits-words [] h = tt
digits-words (c ∷ s) h = (digit-word c h.0, digits-words s h.1)

body-words : (t : Token) → IsToken t → All (λ x. x ≢ b'~') (body t)
body-words (oid []) h = absurd h
body-words (oid (c ∷ s)) h = name-plain (c ∷ s) (start-word c h.0, h.1)
body-words (idx []) h = absurd h
body-words (idx (c ∷ s)) h = name-plain (c ∷ s) (digits-words (c ∷ s) h)
body-words end h = omega arith

-- `unescape_` has nothing to do in the constructor: no segment holds a tilde.
strip_lem : (s : Text) → All (λ x. x ≢ b'~') s → strip s ≡ s
unfolding strip
strip_lem s h =
    let plain : All (λ x. x ≢ b'~') (b'/' ∷ s) = (omega arith, h) in
    rw (subs_none (b'/' ∷ s) b'~' (txt "0") (txt "~") plain)
      (rw (subs_none (b'/' ∷ s) b'~' (txt "1") (txt "/") plain))

IsDigit-is_digit : (s : Text) → All IsDigit s → All (λ x. is_digit x ≡ true) s
IsDigit-is_digit [] h = tt
IsDigit-is_digit (c ∷ s) h = (unfold is_digit in ground arith, IsDigit-is_digit s h.1)

token_of-IsToken : (s : Segment) → IsSegment s → IsToken (token_of s)
token_of-IsToken (index n) h = elim (Bool-cases (n == k_end)) [
  | inl e ↦ rw e tt
  | inr e ↦
      let (d, ds, printed, all) = print_index-digits n in
      rw (e, printed) (IsDigit-is_digit (d ∷ ds) all)
]
token_of-IsToken (string s) h = h

tokens_of-IsToken : (segs : List Segment) → All IsSegment segs → All IsToken (map token_of segs)
tokens_of-IsToken [] h = tt
tokens_of-IsToken (s ∷ segs) h = (token_of-IsToken s h.0, tokens_of-IsToken segs h.1)

body-token_of : (s : Segment) → body (token_of s) ≡ print_segment s
body-token_of (index n) = elim (Bool-cases (n == k_end)) [ inl e ↦ rw e | inr e ↦ rw e ]
body-token_of (string s) = refl

print_from-text_of :
    (first : Bool) (segs : List Segment) → print_from true first segs ≡ text_of (map token_of segs)
unfolding print_from
print_from-text_of first [] = refl
print_from-text_of true (s ∷ segs) = rw (print_from-text_of false segs, body-token_of s)
print_from-text_of false (s ∷ segs) = rw (print_from-text_of false segs, body-token_of s)

segment-token_of : (s : Segment) → IsSegment s → segment (token_of s) ≡ returns s
unfolding segment
segment-token_of (index n) h = elim (Bool-cases (n == k_end)) [
  | inl e ↦ let same : n ≡ k_end = ground arith in rw (e, same)
  | inr e ↦
      let (d, ds, printed, all) = print_index-digits n in
      let plain : strip (print_index n) ≡ print_index n =
        rw printed
          (strip_lem (d ∷ ds) (body-words (idx (d ∷ ds)) (IsDigit-is_digit (d ∷ ds) all))) in
      rw e (indexed plain)
]
  where
    indexed :
        strip (print_index n) ≡ print_index n → segment (idx (print_index n)) ≡ returns (index n)
    indexed plain = ground (arith, plain, stoul-print_index n h)
segment-token_of (string s) h = rw (strip_lem s (body-words (oid s) h))

segments_of-tokens :
    (segs : List Segment) → All IsSegment segs → segments_of (map token_of segs) ≡ returns segs
segments_of-tokens [] h = unfold segments_of in refl
segments_of-tokens (s ∷ segs) h =
    segments_of_step (token_of s) (map token_of segs) s segs (segment-token_of s h.0)
      (segments_of-tokens segs h.1)
  where
    segments_of_step :
        (t : Token) (ts : List Token) (a : Segment) (as' : List Segment)
        → segment t ≡ returns a
        → segments_of ts ≡ returns as'
        → segments_of (t ∷ ts) ≡ returns (a ∷ as')
    segments_of_step t ts a as' e f = unfold segments_of in ground arith

-- A valid path is read back from its full text, from its first segment on.
pub parse-fqoid : (p : ParamPath) → IsValid p → parse (fqoid p) ≡ returns (rewind p)
unfolding parse fqoid rewind
parse-fqoid p v =
    let found =
      (tokens_iff (fqoid p) (map token_of p.segments)).1
        (tokens_of-IsToken p.segments v.spelled, sym (print_from-text_of true p.segments)) in
    ground (arith, found, segments_of-tokens p.segments v.spelled)

-- What a token that is read gives is a segment of a valid path.
segment-IsSegment : (t : Token) (s : Segment) → IsToken t → segment t ≡ returns s → IsSegment s
segment-IsSegment (oid t) s h e =
    let same : string (strip t) ≡ s = unfold segment in ground arith in
    rw (← same) (rw (strip_lem t (body-words (oid t) h)) h)
segment-IsSegment (idx t) s h e = unfold segment stoul in ground arith
segment-IsSegment end s h e = unfold segment in ground arith

segments_of-IsSegment :
    (ts : List Token) (segs : List Segment)
    → All IsToken ts
    → segments_of ts ≡ returns segs
    → All IsSegment segs
unfolding segments_of
segments_of-IsSegment [] segs h e = let same : [] ≡ segs = ground arith in rw (← same) tt
segments_of-IsSegment (t ∷ ts) segs h e =
    let (s, first, e') = >>=-eq-returns (segment t) _ e in
    let (rest, later, same) = >>=-eq-returns (segments_of ts) _ e' in
    rw (← returns-injective same)
      (segment-IsSegment t s h.0 first, segments_of-IsSegment ts rest h.1 later)

-- A path that the constructor builds is valid, and stands at its first segment.
pub parse-IsValid : (s : Text) (p : ParamPath) → parse s ≡ returns p → IsValid p × (p.front_idx ≡ 0)
unfolding parse
parse-IsValid s p e = elim (Option-cases (tokens s)) [
  | inl none_found ↦ absurd (ground arith)
  | inr (ts, found) ↦
      let (segs, read, same) = >>=-eq-returns (segments_of ts) _ (rw (found, parse) at e) in
      rw (← returns-injective same) (
        record {
          spelled = segments_of-IsSegment ts segs ((tokens_iff s ts).0 found).0 read;
          within = omega arith;
        },
        refl,
      )
]

All-tokens-plain : (ts : List Token) → All IsToken ts → All (λ x. x ≢ b'~') (text_of ts)
All-tokens-plain [] h = tt
All-tokens-plain (t ∷ ts) h =
    (omega arith, All-append _ (body t) (text_of ts) (body-words t h.0) (All-tokens-plain ts h.1))

-- Whatever the constructor accepts holds no tilde: a segment with a character that had to be
-- escaped cannot be named.
pub parse-plain : (s : Text) (p : ParamPath) → parse s ≡ returns p → All (λ x. x ≢ b'~') s
unfolding parse
parse-plain s p e = elim (Option-cases (tokens s)) [
  | inl none_found ↦ absurd (ground arith)
  | inr (ts, found) ↦
      let (all, whole) = (tokens_iff s ts).0 found in rw (← whole) (All-tokens-plain ts all)
]
