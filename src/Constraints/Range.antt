-- ===== src/Constraints/Range.antt =====
-- What a range constraint promises of the values that it lets through and of those that it makes.
use mathlib.Core.Path.{subst}
use catena.Base.{
  sym, ◌∙◌, ℕ, ◌+◌, ◌-◌, ◌%◌, ◌<◌, ◌≡◌, refl, inl, inr, Bool, true, false, ◌&&◌, ◌||◌, not, lt→ltb,
  ◌==◌, if◌then◌else◌, arith, Bool-cases,
}
use catena.Base.Int.{ℤ, pos, negsuc, pos_part, neg_part, ◌-ℤ◌, ◌≤ℤ◌, ◌<ℤ◌, ltb_ℤ}
use catena.Proto.{int32_value}
use catena.Constraints.{
  RangeConstraint, i32_half, wrap32, rem, is_zero, offset, range_satisfied, range_apply_int,
}

-- A value of `int32_t`.
abbrev pub IsInt32 : ℤ → Type 0
IsInt32 (pos n) = n < i32_half
IsInt32 (negsuc n) = n < i32_half

wrap32_lem : (z : ℤ) → IsInt32 z → wrap32 z ≡ z
unfolding wrap32
wrap32_lem (pos n) h = ground arith
wrap32_lem (negsuc n) h = ground arith

-- A range of numbers whose differences fit in `int32_t`.
pub record IsNarrow (c : RangeConstraint) : Type 0 where
  pub min_fits : IsInt32 c.min
  pub max_fits : IsInt32 c.max
  pub ordered : c.min ≤ℤ c.max
  pub width : pos_part c.max + neg_part c.min < i32_half + pos_part c.min + neg_part c.max
  pub step_positive : pos 0 ≤ℤ c.step
  pub step_fits : IsInt32 c.step

-- The distance of a number in the range from its lower end.
abbrev pub distance : RangeConstraint → ℤ → ℕ
distance c s = pos_part s + neg_part c.min - (neg_part s + pos_part c.min)

module _ (c : RangeConstraint) (n : IsNarrow c) (s : ℤ) (low : c.min ≤ℤ s) (high : s ≤ℤ c.max) where
  difference : s -ℤ c.min ≡ pos (distance c s)
  unfolding ◌-ℤ◌
  difference = ground (arith, low)

  distance-fits : distance c s < i32_half
  distance-fits = omega (arith, n.width, low, high)

  offset_lem : offset c s ≡ pos (distance c s % pos_part c.step)
  unfolding offset rem
  offset_lem =
      rw (difference, wrap32_lem (pos (distance c s)) distance-fits)
        (ground (arith, n.step_positive))

-- What is left when the remainder is taken off divides evenly.
mod-sub_mod : (d k : ℕ) → (d - d % k) % k ≡ 0
mod-sub_mod d k = grind arith

ltb_ℤ-false : (a b : ℤ) → ltb_ℤ a b ≡ false → b ≤ℤ a
ltb_ℤ-false a b h = ground arith

ltb_ℤ-true : (a b : ℤ) → ltb_ℤ a b ≡ true → a <ℤ b
ltb_ℤ-true a b h = ground arith

module _ (c : RangeConstraint) (n : IsNarrow c) (s : ℤ) (low : c.min ≤ℤ s) (high : s ≤ℤ c.max) where
  -- Inside the range a number satisfies the constraint exactly when the step divides its distance
  -- from the lower end, or there is no step.
  range_satisfied_inside :
      range_satisfied c (int32_value s) ≡ (is_zero c.step || (distance c s % pos_part c.step == 0))
  unfolding range_satisfied
  range_satisfied_inside = rw (offset_lem c n s low high) (ground (arith, low, high))

  rounded : ℤ
  rounded = s -ℤ pos (distance c s % pos_part c.step)

  rounded-inside : (c.min ≤ℤ rounded) × (rounded ≤ℤ s)
  unfolding rounded ◌-ℤ◌
  rounded-inside = ground (arith, low, high)

  distance-rounded : distance c rounded ≡ distance c s - distance c s % pos_part c.step
  unfolding rounded ◌-ℤ◌
  distance-rounded = ground (arith, low, high)

  rounded-fits : IsInt32 rounded
  unfolding rounded ◌-ℤ◌
  rounded-fits = ground (arith, low, high, n.min_fits, n.max_fits)

satisfied_of_multiple :
    (c : RangeConstraint) (n : IsNarrow c) (s : ℤ)
    → c.min ≤ℤ s
    → s ≤ℤ c.max
    → distance c s % pos_part c.step ≡ 0
    → range_satisfied c (int32_value s) ≡ true
satisfied_of_multiple c n s low high e =
    rw (range_satisfied_inside c n s low high, e) (ground arith)

-- What `apply` makes of a number: the lower end from below, the upper end from above, and in the
-- range a number that is not above it and satisfies the constraint.
pub data IsApplied (c : RangeConstraint) (s r : ℤ) : Type 0 where
  raised : s <ℤ c.min → r ≡ c.min → IsApplied c s r
  lowered : c.max <ℤ s → r ≡ c.max → IsApplied c s r
  stepped :
      c.min ≤ℤ s
      → s ≤ℤ c.max
      → c.min ≤ℤ r
      → r ≤ℤ s
      → range_satisfied c (int32_value r) ≡ true
      → (range_satisfied c (int32_value s) ≡ true → r ≡ s)
      → IsApplied c s r

module _ (c : RangeConstraint) (n : IsNarrow c) (s : ℤ) where
  range_apply_inside :
      (low : c.min ≤ℤ s) (high : s ≤ℤ c.max)
      → range_apply_int c s ≡ (
          if not (is_zero c.step) && not (distance c s % pos_part c.step == 0)
          then rounded c n s low high
          else s)
  unfolding range_apply_int rounded
  range_apply_inside low high =
      rw
        (
          offset_lem c n s low high,
          wrap32_lem (s -ℤ pos (distance c s % pos_part c.step))
              (unfold rounded in rounded-fits c n s low high),
        )
        (ground (arith, low, high))

  IsApplied-inside :
      (low : c.min ≤ℤ s) (high : s ≤ℤ c.max)
      → (skip : Bool) → skip ≡ (is_zero c.step || (distance c s % pos_part c.step == 0))
      → IsApplied c s (if not skip then rounded c n s low high else s)
  IsApplied-inside low high true e =
      stepped low high low (omega arith) (range_satisfied_inside c n s low high ∙ sym e) (λ h. refl)
  IsApplied-inside low high false e =
      let (above, below) = rounded-inside c n s low high in
      stepped low high above below
        (satisfied_of_multiple c n (rounded c n s low high) above (omega (arith, high, below))
          (rw (distance-rounded c n s low high) (mod-sub_mod (distance c s) (pos_part c.step))))
        (λ h. absurd (impossible (sym e) (sym (range_satisfied_inside c n s low high) ∙ h)))
    where
      impossible : {b : Bool} → b ≡ false → b ≡ true → ⊥
      impossible p q = cc

  -- In a range that `int32_t` can span, `apply` never leaves the range: it gives the nearer end to a
  -- number outside, and to a number inside one that satisfies the constraint and is not greater,
  -- the number itself if that satisfies it.
  range_apply-IsApplied : IsApplied c s (range_apply_int c s)
  range_apply-IsApplied = elim (Bool-cases (ltb_ℤ s c.min)) [
    | inl below ↦ raised (ltb_ℤ-true s c.min below) (unfold range_apply_int in rw below)
    | inr above ↦ elim (Bool-cases (ltb_ℤ c.max s)) [
      | inl over ↦ lowered (ltb_ℤ-true c.max s over) (unfold range_apply_int in rw (above, over))
      | inr under ↦
          let low = ltb_ℤ-false s c.min above in
          let high = ltb_ℤ-false c.max s under in
          subst (IsApplied c s)
            (sym (
              range_apply_inside low high
              ∙ de_morgan (is_zero c.step) (distance c s % pos_part c.step == 0)
                  (rounded c n s low high) s))
            (IsApplied-inside low high _ refl)
    ]
  ]
    where
      de_morgan :
          (a b : Bool) (x y : ℤ)
          → (if not a && not b then x else y) ≡ (if not (a || b) then x else y)
      de_morgan true b x y = refl
      de_morgan false b x y = refl

  at_end :
      (r : ℤ)
      → r ≡ c.max
      → c.max <ℤ s
      → range_satisfied c (int32_value r)
        ≡ (not (ltb_ℤ c.max s) || (is_zero c.step || (distance c c.max % pos_part c.step == 0)))
  at_end r e over = rw e (
      range_satisfied_inside c n c.max n.ordered (omega arith)
      ∙ rw (lt→ltb (pos_part c.max + neg_part s) (pos_part s + neg_part c.max) over) refl)

  -- The number that `apply` makes satisfies the constraint, except where the number was above the
  -- range and there is a step that does not divide the width of the range.
  pub range_apply-satisfied :
      range_satisfied c (int32_value (range_apply_int c s))
      ≡ (not (ltb_ℤ c.max s) || (is_zero c.step || (distance c c.max % pos_part c.step == 0)))
  range_apply-satisfied = split (range_apply_int c s) range_apply-IsApplied
    where
      split :
          (r : ℤ)
          → IsApplied c s r
          → range_satisfied c (int32_value r)
            ≡ (not (ltb_ℤ c.max s) || (is_zero c.step || (distance c c.max % pos_part c.step == 0)))
      split r (raised below e) =
          let inside : ltb_ℤ c.max s ≡ false = ground (arith, n.ordered) in
          rw (inside, e) (satisfied_of_multiple c n c.min (omega arith) n.ordered (grind arith))
      split r (lowered over e) = at_end r e over
      split r (stepped low high above lower good same) =
          let inside : ltb_ℤ c.max s ≡ false = ground arith in rw inside good
