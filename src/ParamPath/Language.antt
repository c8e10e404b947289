-- ===== src/ParamPath/Language.antt =====
-- The scanner accepts the language of the regular expression, and takes a text apart in the one
-- way that there is.
use catena.Base.{
  ℕ, zero, suc, ◌≤◌, ◌≡◌, refl, sym, ap, ◌↔◌, inl, inr, Bool, true, false, List, [], ◌∷◌, ◌++◌,
  Option, some, length, length-append, ◌==◌, Bool-cases, Option-cases, All, arith,
}
use catena.Base.Text.{Text, txt}
use catena.ParamPath.Syntax.{
  is_start, is_digit, is_word, Token, oid, idx, end, take_while, drop_while, scan_body, scan,
  scan_all, tokens,
}

-- One segment of the language: `[a-zA-Z_]\w*`, `\d+`, or a dash.
abbrev pub IsName : Text → Type 0
IsName [] = ⊥
IsName (c ∷ s) = (is_start c ≡ true) × All (λ x. is_word x ≡ true) s

abbrev pub IsDigits : Text → Type 0
IsDigits [] = ⊥
IsDigits (c ∷ s) = All (λ x. is_digit x ≡ true) (c ∷ s)

abbrev pub IsToken : Token → Type 0
IsToken (oid t) = IsName t
IsToken (idx t) = IsDigits t
IsToken end = Unit

-- The text of a segment behind its solidus, and of a path.
abbrev pub body : Token → Text
body (oid t) = t
body (idx t) = t
body end = txt "-"

abbrev pub text_of : List Token → Text
text_of [] = []
text_of (t ∷ ts) = b'/' ∷ (body t ++ text_of ts)

-- What may follow a segment: nothing, or the next solidus.
abbrev Follows : Text → Type 0
Follows [] = Unit
Follows (c ∷ s) = c ≡ b'/'

text_of-Follows : (ts : List Token) → Follows (text_of ts)
text_of-Follows [] = tt
text_of-Follows (t ∷ ts) = refl

module _ (p : ℕ → Bool) where
  take_while-drop_while : (s : Text) → s ≡ take_while p s ++ drop_while p s
  take_while-drop_while [] = refl
  take_while-drop_while (c ∷ s) = ground (arith, take_while-drop_while s)

  All-take_while : (s : Text) → All (λ x. p x ≡ true) (take_while p s)
  All-take_while [] = tt
  All-take_while (c ∷ s) = ground (arith, All-take_while s)

  take_while-append :
      (s r : Text)
      → All (λ x. p x ≡ true) s
      → p b'/' ≡ false
      → Follows r
      → (take_while p (s ++ r) ≡ s) × (drop_while p (s ++ r) ≡ r)
  take_while-append [] [] h q f = (refl, refl)
  take_while-append [] (c ∷ r) h q f = rw (f, q) (refl, refl)
  take_while-append (x ∷ s) r h q f =
      let (a, b) = take_while-append s r h.1 q f in rw h.0 (rw a refl, b)

scan_body_sound :
    (s : Text) (t : Token) (r : Text) → scan_body s ≡ some (t, r) → IsToken t × (s ≡ body t ++ r)
unfolding scan_body
scan_body_sound [] t r h = cc
scan_body_sound (c ∷ s) t r h = elim (Bool-cases (is_start c)) [
  | inl e ↦
      scanned (oid (c ∷ take_while is_word s)) (drop_while is_word s) (e, All-take_while is_word s)
        (ap (◌∷◌ c) (take_while-drop_while is_word s)) (ground arith)
  | inr e ↦ elim (Bool-cases (is_digit c)) [
    | inl d ↦
        scanned (idx (c ∷ take_while is_digit s)) (drop_while is_digit s)
          (d, All-take_while is_digit s) (ap (◌∷◌ c) (take_while-drop_while is_digit s))
          (ground arith)
    | inr d ↦ elim (Bool-cases (c == b'-')) [
      | inl m ↦ scanned end s tt (ground arith) (ground arith)
      | inr m ↦ absurd (ground arith)
    ]
  ]
]
  where
    scanned :
        (u : Token) (q : Text)
        → IsToken u
        → c ∷ s ≡ body u ++ q
        → ◌≡◌ {A = Option (Token × Text)} (some (u, q)) (some (t, r))
        → IsToken t × (c ∷ s ≡ body t ++ r)
    scanned u q good whole e =
        let same_t : u ≡ t = ground arith in
        let same_r : q ≡ r = ground arith in rw (← same_t, ← same_r) (good, whole)

scan_sound :
    (s : Text) (t : Token) (r : Text)
    → scan s ≡ some (t, r)
    → IsToken t × (s ≡ b'/' ∷ (body t ++ r))
unfolding scan
scan_sound [] t r h = cc
scan_sound (c ∷ s) t r h = elim (Bool-cases (c == b'/')) [
  | inl e ↦
      let (good, whole) = scan_body_sound s t r (ground arith) in
      let slash : c ≡ b'/' = ground arith in (good, rw (slash, whole))
  | inr e ↦ absurd (ground arith)
]

scan_all_sound :
    (fuel : ℕ) (s : Text) (ts : List Token)
    → scan_all fuel s ≡ some ts
    → All IsToken ts × (text_of ts ≡ s)
unfolding scan_all
scan_all_sound fuel [] ts h = let e : [] ≡ ts = ground arith in rw (← e) (tt, refl)
scan_all_sound zero (c ∷ s) ts h = cc
scan_all_sound (suc fuel) (c ∷ s) ts h = elim (Option-cases (scan (c ∷ s))) [
  | inl e ↦ absurd (ground arith)
  | inr ((t, r), e) ↦ elim (Option-cases (scan_all fuel r)) [
    | inl f ↦ absurd (ground arith)
    | inr (us, f) ↦
        let (good, whole) = scan_sound (c ∷ s) t r e in
        let (all, rest) = scan_all_sound fuel r us f in
        let same : t ∷ us ≡ ts = ground arith in rw (← same) ((good, all), rw rest (sym whole))
  ]
]

scan_complete :
    (t : Token) (r : Text) → IsToken t → Follows r → scan (b'/' ∷ (body t ++ r)) ≡ some (t, r)
unfolding scan scan_body
scan_complete (oid []) r h f = absurd h
scan_complete (oid (c ∷ s)) r h f =
    let (a, b) = take_while-append is_word s r h.1 (unfold is_word in refl) f in rw (h.0, a, b)
scan_complete (idx []) r h f = absurd h
scan_complete (idx (c ∷ s)) r h f =
    let (a, b) = take_while-append is_digit s r h.1 (unfold is_digit in refl) f in
    rw (digit-not-start c h.0, h.0, a, b)
  where
    digit-not-start : (d : ℕ) → is_digit d ≡ true → is_start d ≡ false
    digit-not-start d e = unfold is_start is_digit in ground arith
scan_complete end r h f = unfold is_start is_digit in refl

scan_all_step :
    (fuel c : ℕ) (s r : Text) (t : Token) (ts : List Token)
    → scan (c ∷ s) ≡ some (t, r)
    → scan_all fuel r ≡ some ts
    → scan_all (suc fuel) (c ∷ s) ≡ some (t ∷ ts)
unfolding scan_all
scan_all_step fuel c s r t ts e f = ground arith

scan_all_complete :
    (fuel : ℕ) (ts : List Token)
    → All IsToken ts
    → length (text_of ts) ≤ fuel
    → scan_all fuel (text_of ts) ≡ some ts
unfolding scan_all
scan_all_complete zero [] all h = refl
scan_all_complete (suc fuel) [] all h = refl
scan_all_complete zero (t ∷ ts) all h = absurd (omega arith)
scan_all_complete (suc fuel) (t ∷ ts) all h =
    scan_all_step fuel b'/' (body t ++ text_of ts) (text_of ts) t ts
      (scan_complete t (text_of ts) all.0 (text_of-Follows ts))
      (scan_all_complete fuel ts all.1 (omega (arith, length-append (body t) (text_of ts))))

-- The scanner accepts a text with the segments `ts` exactly when each of them is one of the three
-- kinds and the text is what they read, one behind the other.
pub tokens_iff :
    (s : Text) (ts : List Token) → (tokens s ≡ some ts) ↔ (All IsToken ts × (text_of ts ≡ s))
unfolding tokens
tokens_iff s ts = (
  scan_all_sound (length s) s ts,
  λ (all, whole). rw (← whole) (scan_all_complete (length (text_of ts)) ts all (omega arith)),
)
