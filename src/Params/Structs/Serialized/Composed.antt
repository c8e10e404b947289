-- ===== src/Params/Structs/Serialized/Composed.antt =====
-- include/StructInfo.h: a struct, a variant or an array that is written over itself stays where its parts do.
use catena.Base.{
  ◌≡◌, ap, false, List, [], ◌∷◌, some, ◌⊎◌, inl, inr, All, ltb, if◌then◌else◌, Bool-cases, arith,
}
use catena.Base.Text.{Text, eqb, eqb_self}
use catena.Status.{Outcome, returns, throws, std_exception, ◌>>=◌}
use catena.Proto.{struct_variant_value}
use catena.Authorizer.{Authorizer}
use catena.Params.{can_write, max_length}
use catena.Params.Stored.{count_structs, count_variants}
use catena.Params.Structs.{
  Shape, struct_of, variant_of, struct_array_of, variant_array_of, Shapes, Tree, Value, Fields,
  Alternatives, descriptor_of, subs_of, get_sub_param, with_sub, valid, valid_fields, field_check,
  valid_others,
}
use catena.Params.Structs.Writing.{
  second, from_proto, from_fields, from_others, default, default_fields,
}
use catena.Params.Structs.Serialized.{
  Returned, Returned-bind, all_structs, all_variants, alternative, message_of, fields_message,
  other_message,
}
use catena.Params.Structs.Serialized.Fits.{has_shape, Either, Fits, OtherFits, other_message-named}
use catena.Params.Structs.Serialized.Staying.{
  checked-same, second-same, Stays, member-same, write_structs-same, write_variants-same,
}

pub struct-Stays :
    (fs : Shapes) (v : Fields fs) (t : Tree) (authz : Authorizer)
    → Returned (λ a. a ≡ v) (from_fields fs (fields_message fs v) v t authz)
    → unfold Value in Stays (struct_of fs) v t authz
unfolding Value from_proto message_of
struct-Stays fs v t authz h = checked-same _ _ v (λ fine. h)

pub struct_array-Stays :
    (fs : Shapes) (vs : List (Fields fs)) (t : Tree) (authz : Authorizer) (P : Fields fs → Type 0)
    → ((v : Fields fs)
        → P v
        → Returned (λ a. a ≡ v) (from_fields fs (fields_message fs v) v t authz))
    → All P vs
    → unfold Value in Stays (struct_array_of fs) vs t authz
unfolding Value from_proto message_of valid
struct_array-Stays fs vs t authz P one fit = checked-same _ _ vs λ fine.
    elim (Bool-cases (can_write authz (descriptor_of t))) [
      | inr denied ↦ absurd (let clash = rw denied at fine in ground arith)
      | inl allowed ↦
          elim (Bool-cases (
            ltb (max_length (descriptor_of t))
              (count_structs (all_structs (λ v. fields_message fs v) vs)))) [
                | inl longer ↦ absurd (let clash = rw (allowed, longer) at fine in ground arith)
                | inr short ↦
                    write_structs-same (λ item r. valid_fields fs item t r authz) _
                      (λ v. fields_message fs v) P vs
                      (λ v p e.
                        member-same (struct_of fs) v (default_fields fs) t authz
                          (struct-Stays fs v t authz (one v p)) (rw allowed e))
                      fit (rw (allowed, short) at fine)
              ]
    ]

-- What is known of the alternatives of a variant.
abbrev pub AlternativeFits :
    (n : Text) (s : Shape) (alts : Shapes) → Tree → Value s ⊎ Alternatives alts → Type 0
AlternativeFits n s alts t =
    Either (λ x. Returned (λ below. Fits s x below) (get_sub_param n (subs_of t)))
      (λ o. OtherFits alts o t)

-- The first alternative of those that are left, where it is held and where another is.
pub here-same :
    (n : Text) (s : Shape) (x : Value s) (t : Tree) (authz : Authorizer)
    → ((below : Tree) → Fits s x below → Stays s x below authz)
    → Returned (λ below. Fits s x below) (get_sub_param n (subs_of t))
    → Returned
        (λ a. a ≡ x)
        (with_sub n t (λ below. second (from_proto s (message_of s x) x below authz)))
unfolding with_sub
here-same n s x t authz one fit =
    Returned-bind (λ below. Fits s x below) _ (get_sub_param n (subs_of t)) _ fit
      (λ below f. second-same _ x (one below f))

pub chosen-same :
    {A C : Type 0} (wrap : A → C) (o : Outcome A) (x : A)
    → Returned (λ a. a ≡ x) o
    → Returned (λ c. c ≡ wrap x) (o >>= λ a. returns (wrap a))
chosen-same wrap o x h = Returned-bind (λ a. a ≡ x) _ o _ h (λ a same. ap wrap same)

pub variant-Stays :
    (n : Text) (s : Shape) (alts : Shapes) (v : Value s ⊎ Alternatives alts) (t : Tree)
    (authz : Authorizer)
    → has_shape n alts ≡ false
    → ((x : Value s) (below : Tree) → Fits s x below → Stays s x below authz)
    → ((o : Alternatives alts)
        → OtherFits alts o t
        → Returned
            (λ a. a ≡ o)
            (from_others alts (other_message alts o).0 (other_message alts o).1 (some o) t authz))
    → AlternativeFits n s alts t v
    → unfold Value in Stays (variant_of n s alts) v t authz
unfolding Value from_proto message_of
variant-Stays n s alts (inl x) t authz new one others fit =
    checked-same _ _ (inl x)
      λ fine. rw (eqb_self n) (chosen-same (λ a. inl a) _ x (here-same n s x t authz (one x) fit))
variant-Stays n s alts (inr o) t authz new one others fit =
    checked-same _ _ (inr o)
      λ fine. rw (other_message-named n alts o new) (chosen-same (λ a. inr a) _ o (others o fit))

pub variant_array-Stays :
    (n : Text) (s : Shape) (alts : Shapes) (vs : List (Value s ⊎ Alternatives alts)) (t : Tree)
    (authz : Authorizer)
    → ((v : Value s ⊎ Alternatives alts)
        → AlternativeFits n s alts t v
        → unfold Value in Stays (variant_of n s alts) v t authz)
    → All (AlternativeFits n s alts t) vs
    → unfold Value in Stays (variant_array_of n s alts) vs t authz
unfolding Value from_proto message_of valid all_variants
variant_array-Stays n s alts [] t authz one fit =
    checked-same _ (throws std_exception) [] (λ fine. tt)
variant_array-Stays n s alts (w ∷ ws) t authz one fit = checked-same _ _ (w ∷ ws) λ fine.
    elim (Bool-cases (can_write authz (descriptor_of t))) [
      | inr denied ↦ absurd (let clash = rw denied at fine in ground arith)
      | inl allowed ↦
          elim (Bool-cases (
            ltb (max_length (descriptor_of t)) (
              count_variants (
                all_variants
                  (λ v. alternative n (λ x. message_of s x) (λ o. other_message alts o) v)
                  (w ∷ ws))))) [
                    | inl longer ↦ absurd (let clash = rw (allowed, longer) at fine in ground arith)
                    | inr short ↦
                        write_variants-same
                          (λ type m r.
                            (let here =
                                with_sub type t (λ below.
                                  field_check (λ x. valid s x below r authz) (some m) r) in
                              let others = valid_others alts type m t r authz in
                              if eqb n type then here else others))
                          (λ type m. second (
                            from_proto (variant_of n s alts) (struct_variant_value type m)
                              (inl (default s)) t authz))
                          (λ v. alternative n (λ x. message_of s x) (λ o. other_message alts o) v)
                          (AlternativeFits n s alts t) (w ∷ ws)
                          (λ v p e.
                            member-same (variant_of n s alts) v (inl (default s)) t authz (one v p)
                              (rw allowed e))
                          fit (rw (allowed, short) at fine)
                  ]
    ]
