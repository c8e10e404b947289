-- ===== src/Utils/Base64.antt =====
-- sdks/cpp/common/src/utils.cpp: `to_base64` and `from_base64`; `base64_chars` of
-- include/utils.h.
--
-- `val` is an int that wraps: its bit pattern is kept, of which only bits below the 32nd are read.
-- `valb` is kept as the number of bits that wait, `valb + 6` and `valb + 8`.
pub mod RoundTrip
use catena.Base.{
  ℕ, zero, suc, ◌+◌, ◌-◌, ◌*◌, ◌/◌, ◌%◌, ◌^◌, ◌<◌, ◌≡◌, refl, ap, ◌∙◌, Bool, true, false, ◌&&◌,
  List, [], ◌∷◌, ◌++◌, Option, none, some, if◌then◌else◌, leb, ltb, ◌==◌, ==_iff, length, get_elem?,
  All, arith,
}
use catena.Base.Text.{Text, txt}

-- `val << k`, with what is added to it.
abbrev pub shl : ℕ → ℕ → ℕ → ℕ
shl k val c = (val * 2 ^ k + c) % 2 ^ 32

-- `(val >> k) & mask`
abbrev pub bits_at : ℕ → ℕ → ℕ → ℕ
bits_at k val n = val / 2 ^ k % n

abbrev pub base64_chars : Text
base64_chars = txt "ABCDEFGHIJKLMNOPQRSTUVWXYZabcdefghijklmnopqrstuvwxyz0123456789+/"

unfoldable pub base64_char : ℕ → ℕ
base64_char i = elim (get_elem? base64_chars i) [ none ↦ 0 | some c ↦ c ]

-- The inner loop: one character for each six bits that wait.
unfoldable pub emit_chars : ℕ → ℕ → ℕ → Text × ℕ
unfolding base64_char
emit_chars zero val bits = ([], bits)
emit_chars (suc fuel) val bits =
    let more = emit_chars fuel val (bits - 6) in
    if leb 6 bits then (base64_char (bits_at (bits - 6) val 64) ∷ more.0, more.1) else ([], bits)

-- The loop over the bytes, and the character for the bits that are left. Fewer than six bits wait
-- when a byte comes, so the inner loop makes two rounds at most.
unfoldable pub encode_bytes : ℕ → ℕ → Text → Text
unfolding emit_chars base64_char
encode_bytes val bits [] =
    if ltb 0 bits then base64_char (bits_at (bits + 2) (shl 8 val 0) 64) ∷ [] else []
encode_bytes val bits (c ∷ s) =
    let val' = shl 8 val c in
    let (out, bits') = emit_chars 3 val' (bits + 8) in out ++ encode_bytes val' bits' s

unfoldable pub pad : ℕ → Text → Text
pad zero s = s
pad (suc fuel) s = let more = pad fuel (s ++ b'=' ∷ []) in if length s % 4 == 0 then s else more

unfoldable pub to_base64 : Text → Text
unfolding encode_bytes pad
to_base64 binary = pad 3 (encode_bytes 0 0 binary)

-- `strchr`, which finds the end of the string as well.
unfoldable pub strchr : Text → ℕ → ℕ → Option ℕ
strchr [] c i = if c == 0 then some i else none
strchr (d ∷ s) c i = if d == c then some i else strchr s c (i + 1)

unfoldable pub decode_chars : ℕ → ℕ → Text → Text
unfolding strchr
decode_chars val bits [] = []
decode_chars val bits (c ∷ s) =
    let read : Text = elim (strchr base64_chars c 0) [
      | none ↦ decode_chars val bits s
      | some i ↦
          let val' = shl 6 val i in
          let full = bits_at (bits + 6 - 8) val' 256 ∷ decode_chars val' (bits + 6 - 8) s in
          let waiting = decode_chars val' (bits + 6) s in if leb 8 (bits + 6) then full else waiting
    ] in
    if c == b'=' then [] else read

unfoldable pub from_base64 : Text → Text
unfolding decode_chars
from_base64 encoded = decode_chars 0 0 encoded
