-- ===== src/Params/Structs/Overwriting.antt =====
-- include/StructInfo.h: a message that is valid is written as a whole.
use catena.Base.{◌≡◌, refl, ap, inl, inr, Option, none, some, Bool-cases, ltb, arith}
use catena.Base.Text.{Text}
use catena.Status.{StatusCode, ok, is_ok-true, Outcome, returns, returns-injective, >>=-eq-returns}
use catena.Proto.{
  ProtoValue, struct_value, struct_variant_value, struct_array_values, struct_variant_array_values,
  ProtoFields,
}
use catena.Authorizer.{Authorizer}
use catena.Params.{can_write, max_length}
use catena.Params.Stored.{count_structs, count_variants}
use catena.Params.Structs.{
  valid_fields, valid_others, Shape, leaf, struct_of, variant_of, struct_array_of, variant_array_of,
  Shapes, no_shapes, shape, Tree, Value, Fields, Alternatives, descriptor_of, subs_of, find_field,
  get_sub_param, field_check, valid,
}
use catena.Params.Structs.Writing.{
  kept_first, kept_other, kept_here, from_fields, from_others, default_fields, default, checked,
  second, from_proto,
}
use catena.Params.Structs.Members.{
  from_kind-valid_kind, write_structs-valid, write_variants-valid, with_sub_ok, with_sub_at,
  Overwrites, alternative_written, valid_fields_ok, field_check_ok,
}

checked_ok :
    {A : Type 0} (validated : Outcome StatusCode) (written : Outcome A) (dst a : A)
    → validated ≡ returns ok
    → written ≡ returns a
    → checked validated written dst ≡ returns (ok, a)
unfolding checked
checked_ok validated written dst a v w = rw (v, w) refl

second-checked :
    {A : Type 0} (validated : Outcome StatusCode) (written : Outcome A) (dst a : A)
    → validated ≡ returns ok
    → written ≡ returns a
    → second (checked validated written dst) ≡ returns a
second-checked validated written dst a v w = ap second (checked_ok validated written dst a v w)

-- What the conversions of the fields, and of the members, promise.
abbrev pub FieldsOverwrite : Shapes → ProtoFields → Tree → Authorizer → Type 0
FieldsOverwrite fs items t authz =
    (v : Fields fs) × ((dst : Fields fs) → from_fields fs items dst t authz ≡ returns v)

abbrev pub OthersOverwrite : Shapes → Text → ProtoValue → Tree → Authorizer → Type 0
OthersOverwrite alts type v t authz =
    (b : Alternatives alts) × ((dst : Option (Alternatives alts))
      → from_others alts type v dst t authz ≡ returns b)

struct-Overwrites :
    (fs : Shapes) (src : ProtoValue) (t : Tree) (authz : Authorizer)
    → ((items : ProtoFields)
        → valid_fields fs items t ok authz ≡ returns ok
        → FieldsOverwrite fs items t authz)
    → valid (struct_of fs) src t ok authz ≡ returns ok
    → Overwrites (struct_of fs) src t authz
unfolding valid Value from_proto
struct-Overwrites fs (struct_value items) t authz fields h =
    elim (Bool-cases (can_write authz (descriptor_of t))) [
      | inr denied ↦ absurd (let clash = rw denied at h in ground arith)
      | inl allowed ↦
          let (v, told) = fields items (rw allowed at h) in
          (v, λ dst. checked_ok _ _ dst _ h (told dst))
    ]
struct-Overwrites fs _ t authz fields h = absurd (ground arith)

struct_array-Overwrites :
    (fs : Shapes) (src : ProtoValue) (t : Tree) (authz : Authorizer)
    → ((items : ProtoFields)
        → valid_fields fs items t ok authz ≡ returns ok
        → FieldsOverwrite fs items t authz)
    → valid (struct_array_of fs) src t ok authz ≡ returns ok
    → Overwrites (struct_array_of fs) src t authz
unfolding valid Value from_proto
struct_array-Overwrites fs (struct_array_values items) t authz fields h =
    elim (Bool-cases (can_write authz (descriptor_of t))) [
      | inr denied ↦ absurd (let clash = rw denied at h in ground arith)
      | inl allowed ↦ elim (Bool-cases (ltb (max_length (descriptor_of t)) (count_structs items))) [
        | inl longer ↦ absurd (let clash = rw (allowed, longer) at h in ground arith)
        | inr short ↦
            let (all, written) =
              write_structs-valid (λ item r. valid_fields fs item t r authz) _ items
                (λ item e.
                  (let (v, told) = fields item e in
                    (
                      v,
                      second-checked _ _ (default_fields fs) v (rw allowed e)
                          (told (default_fields fs)),
                    )))
                (rw (allowed, short) at h) in
            (all, λ dst. checked_ok _ _ dst _ h written)
      ]
    ]
struct_array-Overwrites fs _ t authz fields h = absurd (ground arith)

variant-Overwrites :
    (n : Text) (s : Shape) (alts : Shapes) (src : ProtoValue) (t : Tree) (authz : Authorizer)
    → ((v : ProtoValue) (below : Tree)
        → valid s v below ok authz ≡ returns ok
        → Overwrites s v below authz)
    → ((type : Text) (v : ProtoValue)
        → valid_others alts type v t ok authz ≡ returns ok
        → OthersOverwrite alts type v t authz)
    → valid (variant_of n s alts) src t ok authz ≡ returns ok
    → Overwrites (variant_of n s alts) src t authz
unfolding valid Value from_proto
variant-Overwrites n s alts (struct_variant_value type v) t authz one others h =
    elim (Bool-cases (can_write authz (descriptor_of t))) [
      | inr denied ↦ absurd (let clash = rw denied at h in ground arith)
      | inl allowed ↦
          let (r, told) =
            alternative_written s n type v t authz (valid_others alts type v t ok authz)
              (λ c. from_others alts type v c t authz) (λ below e. one v below e)
              (λ e. others type v e) (rw allowed at h) in
          (
            r,
            λ dst.
                checked_ok _ _ dst _ h (told (kept_first (default s) dst) (kept_other (some dst))),
          )
    ]
variant-Overwrites n s alts _ t authz one others h = absurd (ground arith)

variant_array-Overwrites :
    (n : Text) (s : Shape) (alts : Shapes) (src : ProtoValue) (t : Tree) (authz : Authorizer)
    → ((v : ProtoValue) (below : Tree)
        → valid s v below ok authz ≡ returns ok
        → Overwrites s v below authz)
    → ((type : Text) (v : ProtoValue)
        → valid_others alts type v t ok authz ≡ returns ok
        → OthersOverwrite alts type v t authz)
    → valid (variant_array_of n s alts) src t ok authz ≡ returns ok
    → Overwrites (variant_array_of n s alts) src t authz
unfolding valid Value from_proto
variant_array-Overwrites n s alts (struct_variant_array_values items) t authz one others h =
    elim (Bool-cases (can_write authz (descriptor_of t))) [
      | inr denied ↦ absurd (let clash = rw denied at h in ground arith)
      | inl allowed ↦
          elim (Bool-cases (ltb (max_length (descriptor_of t)) (count_variants items))) [
            | inl longer ↦ absurd (let clash = rw (allowed, longer) at h in ground arith)
            | inr short ↦
                let (all, written) =
                  write_variants-valid _ _ items
                    (λ type v e.
                      (let (r, told) =
                          alternative_written s n type v t authz
                            (valid_others alts type v t ok authz)
                            (λ c. from_others alts type v c t authz) (λ below e'. one v below e')
                            (λ e'. others type v e') e in
                        (
                          r,
                          second-checked _ _ (inl (default s)) r (rw allowed e)
                              (told (default s) none),
                        )))
                    (rw (allowed, short) at h) in
                (all, λ dst. checked_ok _ _ dst _ h written)
          ]
    ]
variant_array-Overwrites n s alts _ t authz one others h = absurd (ground arith)

-- The first field is written, and then the others.
field_first :
    (n : Text) (s : Shape) (fs : Shapes) (items : ProtoFields) (t below : Tree) (authz : Authorizer)
    (x : ProtoValue) (a : Value s) (rest : Fields fs)
    → get_sub_param n (subs_of t) ≡ returns below
    → find_field n items ≡ some x
    → ((dst : Value s) → from_proto s x dst below authz ≡ returns (ok, a))
    → ((dst : Fields fs) → from_fields fs items dst t authz ≡ returns rest)
    → (dst : Fields (shape n s fs))
    → unfold Fields in (from_fields (shape n s fs) items dst t authz ≡ returns (a, rest))
unfolding Fields from_proto
field_first n s fs items t below authz x a rest found there told told_rest (v, vs) =
    rw (with_sub_at n t below _ found, there, told v, told_rest vs) refl

mutual
  unfolding valid Value from_proto checked

  pub overwrites :
      (s : Shape) (src : ProtoValue) (t : Tree) (authz : Authorizer)
      → valid s src t ok authz ≡ returns ok
      → Overwrites s src t authz
  overwrites (leaf k) src t authz h =
      let (v, told) = from_kind-valid_kind k src (descriptor_of t) authz (returns-injective h) in
      (v, λ dst. rw (told dst) refl)
  overwrites (struct_of fs) src t authz h =
      struct-Overwrites fs src t authz (λ items e. overwrites_fields fs items t authz e) h
  overwrites (variant_of n s alts) src t authz h =
      variant-Overwrites n s alts src t authz (λ v below e. overwrites s v below authz e)
        (λ type v e. overwrites_others alts type v t authz e) h
  overwrites (struct_array_of fs) src t authz h =
      struct_array-Overwrites fs src t authz (λ items e. overwrites_fields fs items t authz e) h
  overwrites (variant_array_of n s alts) src t authz h =
      variant_array-Overwrites n s alts src t authz (λ v below e. overwrites s v below authz e)
        (λ type v e. overwrites_others alts type v t authz e) h

  overwrites_fields :
      (fs : Shapes) (items : ProtoFields) (t : Tree) (authz : Authorizer)
      → valid_fields fs items t ok authz ≡ returns ok
      → FieldsOverwrite fs items t authz
  overwrites_fields no_shapes items t authz h = (tt, λ dst. refl)
  overwrites_fields (shape n s fs) items t authz h =
      let (below, (found, e)) = with_sub_ok n t _ ok h in
      let (rc, checked_rc, later) =
        >>=-eq-returns (field_check (λ v. valid s v below ok authz) (find_field n items) ok) _ e in
      let good = valid_fields_ok fs items t rc authz later in
      let (x, (there, valid_x)) =
        field_check_ok (λ v. valid s v below ok authz) (find_field n items) rc checked_rc good in
      let (a, told) = overwrites s x below authz valid_x in
      let (rest, told_rest) =
        overwrites_fields fs items t authz (rw (is_ok-true rc good) at later) in
      ((a, rest), field_first n s fs items t below authz x a rest found there told told_rest)

  overwrites_others :
      (alts : Shapes) (type : Text) (v : ProtoValue) (t : Tree) (authz : Authorizer)
      → valid_others alts type v t ok authz ≡ returns ok
      → OthersOverwrite alts type v t authz
  overwrites_others no_shapes type v t authz h = absurd (ground arith)
  overwrites_others (shape n s alts) type v t authz h =
      let (r, told) =
        alternative_written s n type v t authz (valid_others alts type v t ok authz)
          (λ c. from_others alts type v c t authz) (λ below e. overwrites s v below authz e)
          (λ e. overwrites_others alts type v t authz e) h in
      (r, λ dst. told (kept_here (default s) dst) (kept_other dst))
