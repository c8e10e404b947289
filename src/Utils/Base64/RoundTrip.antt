-- ===== src/Utils/Base64/RoundTrip.antt =====
-- utils.cpp: what `to_base64` writes is read back by `from_base64`.
use mathlib.Core.List.{append-nil, append_assoc}
use catena.Base.{
  ℕ, zero, suc, ◌+◌, ◌-◌, ◌*◌, ◌/◌, ◌%◌, ◌<◌, ◌≡◌, refl, ap, sym, ◌∙◌, Bool, true, false, ◌&&◌, not,
  [], ◌∷◌, ◌++◌, inl, inr, none, some, if◌then◌else◌, leb, ◌==◌, Bool-cases, length, All, arith,
  &&-elim,
}
use catena.Base.Text.{Text}
use catena.Utils.Base64.{
  shl, bits_at, base64_chars, base64_char, emit_chars, encode_bytes, pad, to_base64, strchr,
  decode_chars, from_base64,
}

abbrev pub IsByte : ℕ → Type 0
IsByte c = c < 256

-- Each character stands for its own place, and none is the padding.
stands_for : ℕ → Bool
unfolding strchr base64_char
stands_for i =
    elim (strchr base64_chars (base64_char i) 0) [ none ↦ false | some j ↦ j == i ]
    && not (base64_char i == b'=')

-- So for the characters from `k` on, `n` of them.
row : ℕ → ℕ → Bool
row k zero = true
row k (suc n) = row (k + 1) n && stands_for k

whole_row : row 0 64 ≡ true
unfolding row stands_for base64_char strchr
whole_row = refl

row-stands_for : (n k d : ℕ) → d < n → row k n ≡ true → stands_for (k + d) ≡ true
unfolding row
row-stands_for zero k d lt h = absurd (omega arith)
row-stands_for (suc n) k zero lt h =
    let e : k + 0 ≡ k = omega arith in rw e ((&&-elim (row (k + 1) n) (stands_for k) h).1)
row-stands_for (suc n) k (suc d) lt h =
    let e : k + suc d ≡ k + 1 + d = omega arith in
    rw e (row-stands_for n (k + 1) d (omega arith) ((&&-elim (row (k + 1) n) (stands_for k) h).0))

stands_for-strchr :
    (i : ℕ)
    → stands_for i ≡ true
    → (strchr base64_chars (base64_char i) 0 ≡ some i) × ((base64_char i == b'=') ≡ false)
unfolding stands_for
stands_for-strchr i h = ground arith

base64_char_lem :
    (i : ℕ)
    → i < 64
    → (strchr base64_chars (base64_char i) 0 ≡ some i) × ((base64_char i == b'=') ≡ false)
base64_char_lem i lt =
    let e : 0 + i ≡ i = omega arith in
    stands_for-strchr i (rw (← e) (row-stands_for 64 0 i lt whole_row))

-- One character of the code is read.
decode_char :
    (val bits i : ℕ) (s : Text)
    → i < 64
    → decode_chars val bits (base64_char i ∷ s) ≡ (
        if leb 8 (bits + 6)
        then bits_at (bits + 6 - 8) (shl 6 val i) 256 ∷ decode_chars (shl 6 val i) (bits + 6 - 8) s
        else decode_chars (shl 6 val i) (bits + 6) s)
unfolding decode_chars
decode_char val bits i s lt =
    let (found, other) = base64_char_lem i lt in rw (other, found, decode_chars) refl

-- The bits of four characters, and those of the three bytes that they are read as.
first_bits : (u a : ℕ) → IsByte a → bits_at 2 (shl 8 u a) 64 ≡ a / 4
first_bits u a h = omega arith

second_bits :
    (u a b : ℕ) → IsByte a → IsByte b → bits_at 4 (shl 8 (shl 8 u a) b) 64 ≡ a % 4 * 16 + b / 16
second_bits u a b h k = omega arith

third_bits :
    (u b c : ℕ) → IsByte b → IsByte c → bits_at 6 (shl 8 (shl 8 u b) c) 64 ≡ b % 16 * 4 + c / 64
third_bits u b c h k = omega arith

fourth_bits : (u c : ℕ) → IsByte c → bits_at 0 (shl 8 u c) 64 ≡ c % 64
fourth_bits u c h = omega arith

first_byte :
    (v a b : ℕ)
    → IsByte a
    → IsByte b
    → bits_at 4 (shl 6 (shl 6 v (a / 4)) (a % 4 * 16 + b / 16)) 256 ≡ a
first_byte v a b h k = omega arith

second_byte :
    (v a b c : ℕ)
    → IsByte a
    → IsByte b
    → IsByte c
    → bits_at 2 (shl 6 (shl 6 v (a % 4 * 16 + b / 16)) (b % 16 * 4 + c / 64)) 256 ≡ b
second_byte v a b c h k l = omega arith

third_byte :
    (v b c : ℕ)
    → IsByte b
    → IsByte c
    → bits_at 0 (shl 6 (shl 6 v (b % 16 * 4 + c / 64)) (c % 64)) 256 ≡ c
third_byte v b c h k = omega arith

encode_three :
    (u a b c : ℕ) (s : Text)
    → IsByte a
    → IsByte b
    → IsByte c
    → encode_bytes u 0 (a ∷ b ∷ c ∷ s)
      ≡ base64_char (a / 4)
        ∷ base64_char (a % 4 * 16 + b / 16)
        ∷ base64_char (b % 16 * 4 + c / 64)
        ∷ base64_char (c % 64)
        ∷ encode_bytes (shl 8 (shl 8 (shl 8 u a) b) c) 0 s
unfolding encode_bytes emit_chars
encode_three u a b c s ha hb hc =
    rw
      (
        ← (first_bits u a ha),
        ← (second_bits u a b ha hb),
        ← (third_bits (shl 8 u a) b c hb hc),
        ← (fourth_bits (shl 8 (shl 8 u a) b) c hc),
      )
      refl

encode_two :
    (u a b : ℕ)
    → IsByte a
    → IsByte b
    → encode_bytes u 0 (a ∷ b ∷ [])
      ≡ base64_char (a / 4)
        ∷ base64_char (a % 4 * 16 + b / 16)
        ∷ base64_char (b % 16 * 4 + 0 / 64)
        ∷ []
unfolding encode_bytes emit_chars
encode_two u a b ha hb =
    rw
      (
        ← (first_bits u a ha),
        ← (second_bits u a b ha hb),
        ← (third_bits (shl 8 u a) b 0 hb (omega arith)),
      )
      refl

encode_one :
    (u a : ℕ)
    → IsByte a
    → encode_bytes u 0 (a ∷ []) ≡ base64_char (a / 4) ∷ base64_char (a % 4 * 16 + 0 / 16) ∷ []
unfolding encode_bytes emit_chars
encode_one u a ha = rw (← (first_bits u a ha), ← (second_bits u a 0 ha (omega arith))) refl

-- The first two characters give a byte, and each of the next two another.
module _ (v a b : ℕ) (ha : IsByte a) (hb : IsByte b) (s : Text) where
  decode_two :
      decode_chars v 0 (base64_char (a / 4) ∷ base64_char (a % 4 * 16 + b / 16) ∷ s)
      ≡ a ∷ decode_chars (shl 6 (shl 6 v (a / 4)) (a % 4 * 16 + b / 16)) 4 s
  decode_two =
      decode_char v 0 (a / 4) _ (omega arith)
      ∙ decode_char (shl 6 v (a / 4)) 6 (a % 4 * 16 + b / 16) s (omega arith)
      ∙ rw (first_byte v a b ha hb) refl

decode_third :
    (v a b c : ℕ) (s : Text)
    → IsByte a
    → IsByte b
    → IsByte c
    → decode_chars (shl 6 v (a % 4 * 16 + b / 16)) 4 (base64_char (b % 16 * 4 + c / 64) ∷ s)
      ≡ b ∷ decode_chars (shl 6 (shl 6 v (a % 4 * 16 + b / 16)) (b % 16 * 4 + c / 64)) 2 s
decode_third v a b c s ha hb hc =
    decode_char _ 4 (b % 16 * 4 + c / 64) s (omega arith) ∙ rw (second_byte v a b c ha hb hc) refl

decode_fourth :
    (v b c : ℕ) (s : Text)
    → IsByte b
    → IsByte c
    → decode_chars (shl 6 v (b % 16 * 4 + c / 64)) 2 (base64_char (c % 64) ∷ s)
      ≡ c ∷ decode_chars (shl 6 (shl 6 v (b % 16 * 4 + c / 64)) (c % 64)) 0 s
decode_fourth v b c s hb hc =
    decode_char _ 2 (c % 64) s (omega arith) ∙ rw (third_byte v b c hb hc) refl

abbrev IsPadding : Text → Type 0
IsPadding p = All (λ c. c ≡ b'=') p

decode-IsPadding : (v bits : ℕ) (p : Text) → IsPadding p → decode_chars v bits p ≡ []
unfolding decode_chars
decode-IsPadding v bits [] h = refl
decode-IsPadding v bits (c ∷ p) h = ground arith

decode-encode :
    (s : Text)
    → All IsByte s
    → (u v : ℕ) (p : Text) → IsPadding p
    → decode_chars v 0 (encode_bytes u 0 s ++ p) ≡ s
decode-encode [] h u v p q = unfold encode_bytes in decode-IsPadding v 0 p q
decode-encode (a ∷ []) (ha, _) u v p q =
    rw (encode_one u a ha)
      (decode_two v a 0 ha (omega arith) p ∙ ap (λ t. a ∷ t) (decode-IsPadding _ 4 p q))
decode-encode (a ∷ b ∷ []) (ha, (hb, _)) u v p q = rw (encode_two u a b ha hb) (
    decode_two v a b ha hb _
    ∙ ap (λ t. a ∷ t)
        (decode_third _ a b 0 p ha hb (omega arith) ∙ ap (λ t. b ∷ t) (decode-IsPadding _ 2 p q)))
decode-encode (a ∷ b ∷ c ∷ s) (ha, (hb, (hc, h))) u v p q = rw (encode_three u a b c s ha hb hc) (
    decode_two v a b ha hb _
    ∙ ap (λ t. a ∷ t)
        (decode_third _ a b c _ ha hb hc
          ∙ ap (λ t. b ∷ t)
              (decode_fourth _ b c _ hb hc ∙ ap (λ t. c ∷ t) (decode-encode s h _ _ p q))))

pad-IsPadding : (fuel : ℕ) (s : Text) → (p : Text) × (pad fuel s ≡ s ++ p) × IsPadding p
unfolding pad
pad-IsPadding zero s = ([], sym (append-nil s), tt)
pad-IsPadding (suc fuel) s = elim (Bool-cases (length s % 4 == 0)) [
  | inl full ↦ ([], rw full (sym (append-nil s)), tt)
  | inr short ↦
      let (p, e, h) = pad-IsPadding fuel (s ++ b'=' ∷ []) in
      (b'=' ∷ p, rw short (e ∙ append_assoc s (b'=' ∷ []) p), (refl, h))
]

-- `from_base64` reads back the bytes that `to_base64` has written, of any number.
pub from_base64-to_base64 : (s : Text) → All IsByte s → from_base64 (to_base64 s) ≡ s
unfolding from_base64 to_base64
from_base64-to_base64 s h =
    let (p, e, q) = pad-IsPadding 3 (encode_bytes 0 0 s) in rw e (decode-encode s h 0 0 p q)
