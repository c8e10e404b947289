-- ===== src/Constraints.antt =====
-- sdks/cpp/common/include/RangeConstraint.h at `int32_t`, and src/ChoiceConstraint.cpp.
--
-- `int32_t` arithmetic that overflows is undefined in C++; here it wraps round, as it does on the
-- machines that the SDK is built for. The range constraint at `float` is not modelled.
pub mod Range
use catena.Base.{
  ℕ, zero, suc, ◌+◌, ◌-◌, ◌*◌, ◌%◌, ◌<◌, ◌≤◌, Bool, true, false, ◌&&◌, ◌||◌, not, List, [], ◌∷◌,
  any, ltb, leb, ◌==◌, if◌then◌else◌,
}
use catena.Base.Int.{ℤ, pos, negsuc, pos_part, neg_part, sub_ℕ, ◌-ℤ◌, ltb_ℤ}
use catena.Base.Text.{Text, eqb}
use catena.Proto.{
  ProtoValue, kind_not_set, int32_value, get_int32, has_int32, get_string, Constraint,
}

abbrev pub i32_half : ℕ
i32_half = 2147483648

abbrev pub i32_mod : ℕ
i32_mod = 4294967296

abbrev pub residue : ℤ → ℕ
residue (pos n) = n % i32_mod
residue (negsuc n) = i32_mod - 1 - n % i32_mod

-- The `int32_t` that an integer wraps round to.
unfoldable pub wrap32 : ℤ → ℤ
wrap32 z = if ltb (residue z) i32_half then pos (residue z) else negsuc (i32_mod - 1 - residue z)

-- `a % b`: the remainder has the sign of `a`.
unfoldable pub rem : ℤ → ℤ → ℤ
rem (pos n) b = pos (n % (pos_part b + neg_part b))
rem (negsuc n) b = sub_ℕ 0 (suc n % (pos_part b + neg_part b))

-- `std::abs`
unfoldable pub abs32 : ℤ → ℤ
unfolding wrap32
abs32 z = wrap32 (pos (pos_part z + neg_part z))

abbrev pub is_zero : ℤ → Bool
is_zero (pos n) = n == 0
is_zero (negsuc n) = false

pub record RangeConstraint : Type 0 where
  pub min : ℤ
  pub max : ℤ
  pub step : ℤ

-- The constructor, which makes the step positive.
unfoldable pub range_constraint : ℤ → ℤ → ℤ → RangeConstraint
unfolding abs32
range_constraint min max step = record { min = min; max = max; step = abs32 step }

-- `(s - min_) % step_`
unfoldable pub offset : RangeConstraint → ℤ → ℤ
offset c s = rem (wrap32 (s -ℤ c.min)) c.step

unfoldable pub range_satisfied : RangeConstraint → ProtoValue → Bool
unfolding offset
range_satisfied c src =
    has_int32 src
    && not (ltb_ℤ (get_int32 src) c.min)
    && not (ltb_ℤ c.max (get_int32 src))
    && (is_zero c.step || is_zero (offset c (get_int32 src)))

-- The branches of `apply` for the number that the message holds.
unfoldable pub range_apply_int : RangeConstraint → ℤ → ℤ
unfolding offset
range_apply_int c s =
    if ltb_ℤ s c.min
    then c.min
    else if ltb_ℤ c.max s
    then c.max
    else if not (is_zero c.step) && not (is_zero (offset c s))
    then wrap32 (s -ℤ offset c s)
    else s

unfoldable pub range_apply : RangeConstraint → ProtoValue → ProtoValue
unfolding range_apply_int
range_apply c src =
    if has_int32 src then int32_value (range_apply_int c (get_int32 src)) else kind_not_set

abbrev pub int_range : RangeConstraint → Constraint
int_range c = record { is_range = true; satisfied = range_satisfied c; apply = range_apply c }

abbrev pub eq_ℤ : ℤ → ℤ → Bool
eq_ℤ (pos m) (pos n) = m == n
eq_ℤ (negsuc m) (negsuc n) = m == n
eq_ℤ _ _ = false

-- The three specialisations of `ChoiceConstraint::satisfied`; an integer choice is always strict.
unfoldable pub int_choice_satisfied : List ℤ → ProtoValue → Bool
int_choice_satisfied choices src = any (λ c. eq_ℤ c (get_int32 src)) choices

unfoldable pub string_choice_satisfied : List Text → Bool → ProtoValue → Bool
string_choice_satisfied choices strict src = not strict || any (λ c. eqb c (get_string src)) choices

abbrev pub int_choice : List ℤ → Constraint
int_choice choices = record {
  is_range = false;
  satisfied = int_choice_satisfied choices;
  apply = λ src. kind_not_set;
}

abbrev pub string_choice : List Text → Bool → Constraint
string_choice choices strict = record {
  is_range = false;
  satisfied = string_choice_satisfied choices strict;
  apply = λ src. kind_not_set;
}
