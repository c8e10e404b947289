-- ===== src/Visitor/Paths.antt =====
-- The paths that the visitor makes, and what the constructor reads in them.
use catena.Base.{
  ℕ, ◌<◌, ◌≡◌, ◌≢◌, ◌⊎◌, inl, inr, Bool, true, false, List, [], ◌∷◌, ◌++◌, All, All-append, ◌==◌,
  arith,
}
use catena.Base.Text.{Text, txt, eqb}
use catena.Status.{returns}
use catena.Utils.Subs.{subs_none}
use catena.ParamPath.{
  ParamPath, Segment, index, string, parse, escape, push_back_string, to_string, fqoid, rewind,
  print_from, print_segment, k_end,
}
use catena.ParamPath.Decimal.{print_index, print_index-digits, IsDigit}
use catena.ParamPath.Language.{IsName}
use mathlib.Core.List.{append-nil}
use catena.ParamPath.RoundTrip.{IsSegment, IsValid, parse-fqoid}
use catena.Visitor.{u32_mod}

abbrev pub at_front : List Segment → ParamPath
at_front segs = record { segments = segs; front_idx = 0 }

digits-plain : (c : ℕ) (s : Text) → All IsDigit s → (c < b'0') ⊎ (b'9' < c) → All (λ x. x ≢ c) s
digits-plain c [] h e = tt
digits-plain c (x ∷ s) (lo, hi) e = ((λ same. ground arith), digits-plain c s hi e)

print_index-plain : (i c : ℕ) → (c < b'0') ⊎ (b'9' < c) → All (λ x. x ≢ c) (print_index i)
print_index-plain i c e =
    let (d, ds, printed, all) = print_index-digits i in rw printed (digits-plain c (d ∷ ds) all e)

print_index-number : (i : ℕ) → eqb (print_index i) (txt "-") ≡ false
unfolding eqb
print_index-number i =
    let (d, ds, printed, all) = print_index-digits i in
    let first : (d == b'-') ≡ false = ground arith in rw (printed, first)

-- Digits hold nothing that is escaped.
escape-print_index : (i : ℕ) → escape (print_index i) ≡ print_index i
unfolding escape
escape-print_index i =
    rw (subs_none (print_index i) b'~' [] (txt "~0") (print_index-plain i b'~' (inr (omega arith))))
      (subs_none (print_index i) b'/' [] (txt "~1") (print_index-plain i b'/' (inl (omega arith))))

print_from-same :
    (l f : Bool) (segs : List Segment) (x y : Segment)
    → print_segment x ≡ print_segment y
    → print_from l f (segs ++ x ∷ []) ≡ print_from l f (segs ++ y ∷ [])
unfolding print_from
print_from-same l f [] x y h = rw h
print_from-same l f (s ∷ segs) x y h = rw (print_from-same l false segs x y h)

-- The path of a member is read as the array's path with the index.
pub parse-member :
    (segs : List Segment) (i : ℕ)
    → All IsSegment segs
    → i < u32_mod
    → parse (to_string true (push_back_string (print_index i) (at_front segs)))
      ≡ returns (at_front (segs ++ index i ∷ []))
unfolding to_string push_back_string
parse-member segs i h small =
    let inner : (i == k_end) ≡ false = ground arith in
    let spelled : All IsSegment (segs ++ index i ∷ []) =
      All-append IsSegment segs (index i ∷ []) h (omega arith, tt) in
    let valid : IsValid (at_front (segs ++ index i ∷ [])) = record {
      spelled = spelled;
      within = omega arith;
    } in
    let printed : print_segment (string (escape (print_index i))) ≡ print_segment (index i) =
      rw (inner, escape-print_index i) in
    rw (print_index-number i) (
      rw (print_from-same true true segs (string (escape (print_index i))) (index i) printed)
        (unfold fqoid rewind in parse-fqoid (at_front (segs ++ index i ∷ [])) valid))

-- The path of a parameter of the device.
pub parse-top :
    (name : Text) → IsName name → parse (b'/' ∷ name) ≡ returns (at_front (string name ∷ []))
unfolding fqoid rewind print_from
parse-top name h =
    let valid : IsValid (at_front (string name ∷ [])) = record {
      spelled = (h, tt);
      within = omega arith;
    } in
    let read = parse-fqoid (at_front (string name ∷ [])) valid in rw append-nil at read
