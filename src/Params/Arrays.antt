-- ===== src/Params/Arrays.antt =====
-- Arrays that are set.
use catena.Base.{
  ℕ, ◌+◌, ◌≡◌, ◌≤◌, ◌↔◌, ◌⊎◌, inl, inr, Bool, true, false, ◌||◌, ◌==◌, ◌%◌, length, List, [], ◌∷◌,
  All, map, length-map, some, arith, Bool-cases,
}
use catena.Base.Int.{ℤ, pos_part}
use catena.Base.Text.{Text}
use catena.Authorizer.{Authorizer}
use catena.Status.{StatusCode, ok, invalid_argument, is_ok}
use catena.Proto.{
  ProtoValue, int32_value, string_value, get_int32, get_ints, get_strings, has_strings,
}
use catena.Constraints.{RangeConstraint, range_apply, range_satisfied, int_range, is_zero}
use catena.Constraints.Range.{IsNarrow, distance, range_apply-satisfied}
use catena.Params.{Descriptor, can_write, max_length, total_length}
use catena.Params.Convert.{
  breaks_constraint, constrain, valid_int32_array, from_int32_array, check_strings,
  valid_string_array,
}

-- The lengths of the strings, added up.
abbrev pub sum_lengths : List Text → ℕ
sum_lengths [] = 0
sum_lengths (s ∷ ss) = length s + sum_lengths ss

abbrev pub AllowsText : Descriptor → Text → Type 0
AllowsText pd s = breaks_constraint pd (string_value s) ≡ false

check_strings_cases :
    (pd : Descriptor) (rc : StatusCode) (total : ℕ) (ss : List Text)
    → ((check_strings pd rc total ss ≡ (rc, total + sum_lengths ss)) × All (AllowsText pd) ss)
      ⊎ (((check_strings pd rc total ss).0 ≡ invalid_argument) × ¬ All (AllowsText pd) ss)
unfolding check_strings
check_strings_cases pd rc total [] = inl (ground arith, tt)
check_strings_cases pd rc total (s ∷ ss) =
    elim (Bool-cases (breaks_constraint pd (string_value s))) [
      | inl breaks ↦ inr (rw breaks, λ h. clash breaks h.0)
      | inr fits ↦ elim (check_strings_cases pd rc (total + length s) ss) [
        | inl (e, h) ↦ inl (rw fits (ground (arith, e)), (fits, h))
        | inr (e, h) ↦ inr (rw fits e, λ k. h k.1)
      ]
    ]
  where
    clash : {b : Bool} → b ≡ true → b ≡ false → ⊥
    clash p q = cc

-- What the text array's length, content and rights have to be.
pub record IsAccepted (src : ProtoValue) (pd : Descriptor) (authz : Authorizer) : Type 0 where
  pub writable : can_write authz pd ≡ true
  pub strings : has_strings src ≡ true
  pub few : length (get_strings src) ≤ max_length pd
  pub short : sum_lengths (get_strings src) ≤ total_length pd
  pub allowed : All (AllowsText pd) (get_strings src)

-- A text array is valid exactly when the client may write the parameter, the message holds a text
-- array of no more texts than the maximum length, their lengths add up to no more than the total
-- length, and the constraint allows every one.
valid_string_array_iff :
    (src : ProtoValue) (pd : Descriptor) (authz : Authorizer)
    → (valid_string_array src pd ok authz ≡ ok) ↔ IsAccepted src pd authz
unfolding valid_string_array
valid_string_array_iff src pd authz = elim (check_strings_cases pd ok 0 (get_strings src)) [
  | inl (e, h) ↦ (
    λ valid. record {
      writable = ground arith;
      strings = ground arith;
      few = ground arith;
      short = ground arith;
      allowed = h;
    },
    λ a. rw (a.writable, a.strings) (ground (arith, a.few, a.short)),
  )
  | inr (e, h) ↦ (λ valid. absurd (ground arith), λ a. absurd (h a.allowed))
]

abbrev pub AllInRange : RangeConstraint → List ℤ → Type 0
AllInRange c = All (λ n. range_satisfied c (int32_value n) ≡ true)

valid_int32_array-few :
    (src : ProtoValue) (pd : Descriptor) (authz : Authorizer)
    → is_ok (valid_int32_array src pd ok authz) ≡ true
    → length (get_ints src) ≤ max_length pd
unfolding valid_int32_array
valid_int32_array-few src pd authz h = ground arith

from_int32_array_cases :
    (src : ProtoValue) (dst : List ℤ) (pd : Descriptor) (authz : Authorizer)
    → ((is_ok (valid_int32_array src pd ok authz) ≡ true)
        × ((from_int32_array src dst pd authz).1
            ≡ map (λ i. get_int32 (constrain pd (int32_value i))) (get_ints src)))
      ⊎ ((from_int32_array src dst pd authz).1 ≡ dst)
from_int32_array_cases src dst pd authz =
    elim (Bool-cases (is_ok (valid_int32_array src pd ok authz))) [
      | inl valid ↦ inl (valid, unfold from_int32_array in rw valid)
      | inr failed ↦ inr (unfold from_int32_array in rw failed)
    ]

module _ (c : RangeConstraint) (narrow : IsNarrow c)
    (divides : (is_zero c.step || (distance c c.max % pos_part c.step == 0)) ≡ true)
    (pd : Descriptor) (has : pd.own.constraint ≡ some (int_range c)) where
  constrained :
      (n : ℤ) → range_satisfied c (int32_value (get_int32 (constrain pd (int32_value n)))) ≡ true
  constrained n =
      unfold constrain in
      rw (has, constrain)
        (unfold range_apply in rw (range_apply-satisfied c narrow n, divides) (ground arith))

  all_constrained :
      (l : List ℤ) → AllInRange c (map (λ i. get_int32 (constrain pd (int32_value i))) l)
  all_constrained [] = tt
  all_constrained (n ∷ l) = (constrained n, all_constrained l)

  -- Where the step of the range constraint divides the width of its range, or is 0: an integer array
  -- that holds only numbers that satisfy the constraint still does after any call that sets it,
  -- whatever the message and the client, and it is within the maximum length if it was before.
  pub from_int32_array-range_satisfied :
      (src : ProtoValue) (dst : List ℤ) (authz : Authorizer)
      → AllInRange c dst
      → length dst ≤ max_length pd
      → AllInRange c (from_int32_array src dst pd authz).1
        × (length (from_int32_array src dst pd authz).1 ≤ max_length pd)
  from_int32_array-range_satisfied src dst authz good fits =
      elim (from_int32_array_cases src dst pd authz) [
        | inl (valid, stored) ↦ rw stored (
          all_constrained (get_ints src),
          rw (length-map (get_ints src) (λ i. get_int32 (constrain pd (int32_value i))))
              (valid_int32_array-few src pd authz valid),
        )
        | inr kept ↦ rw kept (good, fits)
      ]
