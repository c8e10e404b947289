-- ===== src/Params/Scalars.antt =====
-- Numbers and texts that are set and read back.
use catena.Base.{
  ◌%◌, ◌==◌, ◌≡◌, ◌⊎◌, inl, inr, refl, Bool, true, false, ◌||◌, ◌&&◌, not, ltb, length, some, arith,
  Bool-cases,
}
use catena.Base.Int.{ℤ, pos_part}
use catena.Base.Text.{Text}
use catena.Authorizer.{Authorizer}
use catena.Status.{StatusCode, ok, is_ok}
use catena.Proto.{
  ProtoValue, int32_value, string_value, get_int32, has_int32, get_string, has_string,
}
use catena.Constraints.{RangeConstraint, range_apply, range_satisfied, int_range, is_zero}
use catena.Constraints.Range.{IsNarrow, distance, range_apply-satisfied}
use catena.Params.{Descriptor, can_read, can_write, total_length}
use catena.Params.Convert.{
  breaks_choice, breaks_constraint, constrain, to_string, from_int32, from_string, is_string_type,
}

-- An integer is set exactly when the client may write the parameter, the message holds an integer,
-- and no choice constraint forbids it; it is then the one of the message, passed through the range
-- constraint if there is one. Otherwise the parameter keeps its value.
from_int32_cases :
    (src : ProtoValue) (dst : ℤ) (pd : Descriptor) (authz : Authorizer)
    → ((from_int32 src dst pd authz ≡ (ok, get_int32 (constrain pd src)))
        × (can_write authz pd ≡ true)
        × (has_int32 src ≡ true)
        × (breaks_choice pd src ≡ false))
      ⊎ ((is_ok (from_int32 src dst pd authz).0 ≡ false)
          × ((from_int32 src dst pd authz).1 ≡ dst)
          × ((can_write authz pd && has_int32 src && not (breaks_choice pd src)) ≡ false))
unfolding from_int32
from_int32_cases src dst pd authz = elim (Bool-cases (can_write authz pd)) [
  | inr no_write ↦ inr (rw no_write, rw no_write, rw no_write)
  | inl write ↦ elim (Bool-cases (has_int32 src)) [
    | inr other ↦ inr (rw (write, other), rw (write, other), rw (write, other))
    | inl same ↦ elim (Bool-cases (breaks_choice pd src)) [
      | inl breaks ↦
          inr (rw (write, same, breaks), rw (write, same, breaks), rw (write, same, breaks))
      | inr fits ↦ inl (rw (write, same, fits), write, same, fits)
    ]
  ]
]

-- Once a call that sets an integer answers OK, the stored number satisfies the range constraint, whatever
-- integer the client sent: where the ends and the step of the range are numbers of 32 bits, its ends stand in
-- order, its width is one too, the step is not negative, and the step divides the width or is 0.
pub from_int32-range_satisfied :
    (src : ProtoValue) (dst : ℤ) (pd : Descriptor) (authz : Authorizer) (c : RangeConstraint)
    → pd.own.constraint ≡ some (int_range c)
    → IsNarrow c
    → (is_zero c.step || (distance c c.max % pos_part c.step == 0)) ≡ true
    → (from_int32 src dst pd authz).0 ≡ ok
    → range_satisfied c (int32_value (from_int32 src dst pd authz).1) ≡ true
from_int32-range_satisfied src dst pd authz c has narrow divides done =
    elim (from_int32_cases src dst pd authz) [
      | inr (failed, _, _) ↦ absurd (not_failed done failed)
      | inl (stored, _, holds, _) ↦
          rw (stored, constrained has)
            (unfold range_apply in
              rw holds
                (rw (range_apply-satisfied c narrow (get_int32 src), divides) (ground arith)))
    ]
  where
    not_failed : {s : StatusCode} → s ≡ ok → is_ok s ≡ false → ⊥
    not_failed p q = ground arith

    constrained : pd.own.constraint ≡ some (int_range c) → constrain pd src ≡ range_apply c src
    constrained e = unfold constrain in rw (e, constrain) refl

string_value-get_string :
    (src : ProtoValue) → has_string src ≡ true → string_value (get_string src) ≡ src
string_value-get_string (ProtoValue.string_value s) h = refl
string_value-get_string ProtoValue.kind_not_set h = cc
string_value-get_string ProtoValue.undefined_value h = cc
string_value-get_string ProtoValue.empty_value h = cc
string_value-get_string (ProtoValue.int32_value n) h = cc
string_value-get_string (ProtoValue.float32_value n) h = cc
string_value-get_string (ProtoValue.int32_array_values l) h = cc
string_value-get_string (ProtoValue.float32_array_values l) h = cc
string_value-get_string (ProtoValue.string_array_values l) h = cc
string_value-get_string (ProtoValue.data_payload l) h = cc
string_value-get_string (ProtoValue.struct_value f) h = cc
string_value-get_string (ProtoValue.struct_variant_value t v) h = cc
string_value-get_string (ProtoValue.struct_array_values l) h = cc
string_value-get_string (ProtoValue.struct_variant_array_values l) h = cc

-- The message holds a text that fits, for a parameter that is one.
abbrev pub text_fits : ProtoValue → Descriptor → Bool
text_fits src pd =
    has_string src
    && not (is_string_type pd.own.type && ltb (total_length pd) (length (get_string src)))

-- A text is set exactly when the client may write the parameter, the message holds a text, which is
-- no longer than the total length if the parameter's type is that of a text, and the constraint
-- allows it; a client that may read the parameter is then given the message again. Otherwise the
-- call answers an error, and the parameter keeps its value.
pub from_string-to_string :
    (src : ProtoValue) (dst : Text) (pd : Descriptor) (authz reader : Authorizer)
    → can_read reader pd ≡ true
    → (((from_string src dst pd authz).0 ≡ ok)
        × (to_string (from_string src dst pd authz).1 pd reader ≡ (ok, some src))
        × (can_write authz pd ≡ true)
        × (text_fits src pd ≡ true)
        × (breaks_constraint pd src ≡ false))
      ⊎ ((is_ok (from_string src dst pd authz).0 ≡ false)
          × ((from_string src dst pd authz).1 ≡ dst)
          × ((can_write authz pd && (text_fits src pd && not (breaks_constraint pd src))) ≡ false))
unfolding from_string to_string
from_string-to_string src dst pd authz reader reads = elim (Bool-cases (can_write authz pd)) [
  | inr no_write ↦ inr (rw no_write, rw no_write, rw no_write)
  | inl write ↦ elim (Bool-cases (has_string src)) [
    | inr other ↦ inr (rw (write, other), rw (write, other), rw (write, other))
    | inl text ↦
        elim (Bool-cases
          (is_string_type pd.own.type && ltb (total_length pd) (length (get_string src)))) [
            | inl long ↦
                inr (rw (write, text, long), rw (write, text, long), rw (write, text, long))
            | inr short ↦ elim (Bool-cases (breaks_constraint pd src)) [
              | inl breaks ↦ inr (
                rw (write, text, short, breaks),
                rw (write, text, short, breaks),
                rw (write, text, short, breaks),
              )
              | inr fits ↦ inl (
                rw (write, text, short, fits),
                rw (write, text, short, fits, reads, string_value-get_string src text),
                write,
                rw (text, short),
                fits,
              )
            ]
          ]
  ]
]
