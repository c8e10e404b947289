-- ===== src/ParamPath/Decimal.antt =====
-- `std::stoul` on digits, and an index written to a stream.
use catena.Base.{
  ℕ, zero, suc, ◌+◌, ◌-◌, ◌*◌, ◌/◌, ◌%◌, ◌<◌, ◌≤◌, ◌≡◌, refl, [], ◌∷◌, ◌++◌, Option, none, some,
  ltb, lt→ltb, Bool-cases, inl, inr, All, All-append, if◌then◌else◌, arith, true, false,
}
use catena.Base.Text.{Text}

-- 2 ^ 64
abbrev pub word_size : ℕ
word_size = 18446744073709551616

unfoldable pub value_from : ℕ → Text → ℕ
value_from acc [] = acc
value_from acc (c ∷ s) = value_from (acc * 10 + (c - b'0')) s

unfoldable pub stoul : Text → Option ℕ
unfolding value_from
stoul s = if ltb (value_from 0 s) word_size then some (value_from 0 s) else none

unfoldable pub print_fuel : ℕ → ℕ → Text
print_fuel zero n = []
print_fuel (suc fuel) n =
    let more = print_fuel fuel (n / 10) ++ (b'0' + n % 10) ∷ [] in
    if ltb n 10 then (b'0' + n) ∷ [] else more

-- The decimal digits. A number has no more digits than its value and one.
unfoldable pub print_index : ℕ → Text
unfolding print_fuel
print_index n = print_fuel (suc n) n

abbrev pub IsDigit : ℕ → Type 0
IsDigit c = (b'0' ≤ c) × (c ≤ b'9')

value_from-append :
    (acc c : ℕ) (s : Text) → value_from acc (s ++ c ∷ []) ≡ value_from acc s * 10 + (c - b'0')
unfolding value_from
value_from-append acc c [] = refl
value_from-append acc c (d ∷ s) = value_from-append (acc * 10 + (d - b'0')) c s

value_from_one : (n : ℕ) → value_from 0 ((b'0' + n) ∷ []) ≡ n
unfolding value_from
value_from_one n = omega arith

print_fuel_small : (fuel n : ℕ) → ltb n 10 ≡ true → print_fuel (suc fuel) n ≡ (b'0' + n) ∷ []
unfolding print_fuel
print_fuel_small fuel n h = rw h

print_fuel_large :
    (fuel n : ℕ)
    → ltb n 10 ≡ false
    → print_fuel (suc fuel) n ≡ print_fuel fuel (n / 10) ++ (b'0' + n % 10) ∷ []
unfolding print_fuel
print_fuel_large fuel n h = rw h

value_from-print_fuel : (fuel n : ℕ) → n < fuel → value_from 0 (print_fuel fuel n) ≡ n
value_from-print_fuel zero n h = absurd (omega arith)
value_from-print_fuel (suc fuel) n h = elim (Bool-cases (ltb n 10)) [
  | inl small ↦ rw (print_fuel_small fuel n small) (value_from_one n)
  | inr large ↦ rw (print_fuel_large fuel n large) (
      rw (value_from-append 0 (b'0' + n % 10) (print_fuel fuel (n / 10)))
        (ground (arith, value_from-print_fuel fuel (n / 10))))
]

pub value_from-print_index : (n : ℕ) → value_from 0 (print_index n) ≡ n
unfolding print_index
value_from-print_index n = value_from-print_fuel (suc n) n (omega arith)

-- An index that fits in a `size_t` is read back as it was written.
pub stoul-print_index : (n : ℕ) → n < word_size → stoul (print_index n) ≡ some n
unfolding stoul
stoul-print_index n h = rw (value_from-print_index n, lt→ltb n word_size h)

-- `print_index` writes a digit at least, and nothing but digits.
print_fuel-digits :
    (fuel n : ℕ)
    → n < fuel
    → (d : ℕ) × (ds : Text) × (print_fuel fuel n ≡ d ∷ ds) × All IsDigit (d ∷ ds)
print_fuel-digits zero n h = absurd (omega arith)
print_fuel-digits (suc fuel) n h = elim (Bool-cases (ltb n 10)) [
  | inl small ↦ (b'0' + n, [], print_fuel_small fuel n small, ground arith)
  | inr large ↦
      let (d, ds, e, all) = print_fuel-digits fuel (n / 10) (ground arith) in
      (
        d,
        ds ++ (b'0' + n % 10) ∷ [],
        rw (print_fuel_large fuel n large, e),
        (all.0, All-append IsDigit ds _ all.1 (omega arith)),
      )
]

pub print_index-digits :
    (n : ℕ) → (d : ℕ) × (ds : Text) × (print_index n ≡ d ∷ ds) × All IsDigit (d ∷ ds)
unfolding print_index
print_index-digits n = print_fuel-digits (suc n) n (omega arith)
