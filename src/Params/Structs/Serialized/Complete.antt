-- ===== src/Params/Structs/Serialized/Complete.antt =====
-- include/StructInfo.h: what `toProto` has written where it goes well, and where it does not.
use mathlib.Core.Path.{subst}
use catena.Base.{
  ◌≡◌, refl, ap, Bool, true, false, not, List, [], ◌∷◌, Option, none, ◌⊎◌, inl, inr, if◌then◌else◌,
  Bool-cases, arith,
}
use catena.Base.Text.{Text}
use catena.Status.{StatusCode, is_ok, permission_denied, Outcome, returns, ◌>>=◌}
use catena.Proto.{
  ProtoValue, int32_value, float32_value, string_value, int32_array_values, float32_array_values,
  string_array_values, ProtoFields,
}
use catena.Authorizer.{Authorizer}
use catena.Params.{Descriptor, can_read}
use catena.Params.Convert
use catena.Params.Convert.{
  to_int32, to_float32, to_string, to_int32_array, to_float32_array, to_string_array,
}
use catena.Params.Structs.{
  Kind, int32_kind, float32_kind, string_kind, int32_array_kind, float32_array_kind,
  string_array_kind, Shape, leaf, struct_of, variant_of, struct_array_of, variant_array_of, Shapes,
  no_shapes, shape, Tree, KindValue, Value, Fields, Alternatives, descriptor_of, with_sub,
}
use catena.Params.Structs.Reading.{
  to_kind, made, chosen, unless_failed, read_structs, read_variants, to_proto, to_fields, to_others,
}
use catena.Params.Structs.Serialized.{
  Returned, Returned-bind, Returned-any, kind_message, all_structs, all_variants, alternative,
  message_of, fields_message, other_message,
}

-- What is there, where the status is `OK`, is the whole of `a`.
abbrev IsWhole : {A : Type 0} → A → StatusCode × A → Type 0
IsWhole a (rc, b) = is_ok rc ≡ true → b ≡ a

-- A message is the whole of a value, or nothing.
abbrev IsWholeMessage : ProtoValue → StatusCode × Option ProtoValue → Type 0
IsWholeMessage m (rc, b) = (is_ok rc ≡ true → made b ≡ m) × (is_ok rc ≡ false → b ≡ none)

single-IsWholeMessage :
    (m : ProtoValue) (d : Descriptor) (authz : Authorizer)
    → IsWholeMessage m (Convert.to_proto m d authz)
unfolding Convert.to_proto
single-IsWholeMessage m d authz = elim (Bool-cases (can_read authz d)) [
  | inl shown ↦ rw shown ((λ h. refl), (λ h. absurd (ground arith)))
  | inr hidden ↦ rw hidden ((λ h. absurd (ground arith)), (λ h. refl))
]

kind-IsWholeMessage :
    (k : Kind) (v : KindValue k) (d : Descriptor) (authz : Authorizer)
    → IsWholeMessage (kind_message k v) (to_kind k v d authz)
unfolding to_kind to_int32 to_float32 to_string to_int32_array to_float32_array to_string_array
kind-IsWholeMessage int32_kind v d authz = single-IsWholeMessage (int32_value v) d authz
kind-IsWholeMessage float32_kind v d authz = single-IsWholeMessage (float32_value v) d authz
kind-IsWholeMessage string_kind v d authz = single-IsWholeMessage (string_value v) d authz
kind-IsWholeMessage int32_array_kind v d authz =
    single-IsWholeMessage (int32_array_values v) d authz
kind-IsWholeMessage float32_array_kind v d authz =
    single-IsWholeMessage (float32_array_values v) d authz
kind-IsWholeMessage string_array_kind v d authz =
    single-IsWholeMessage (string_array_values v) d authz

-- The members up to the last, where none has failed.
structs-IsWhole :
    {A : Type 0} (f : A → Outcome (StatusCode × ProtoFields)) (g : A → ProtoFields) (vs : List A)
    → ((a : A) → Returned (IsWhole (g a)) (f a))
    → Returned (IsWhole (all_structs g vs)) (read_structs f vs)
unfolding read_structs all_structs
structs-IsWhole f g [] h = λ good. refl
structs-IsWhole f g (v ∷ vs) h = Returned-bind (IsWhole (g v)) _ (f v) _ (h v) λ m first.
    elim (Bool-cases (is_ok m.0)) [
      | inl good ↦ rw good (
          Returned-bind (IsWhole (all_structs g vs)) _ (read_structs f vs) _
            (structs-IsWhole f g vs h) (λ more rest fine. rw (first good, rest fine) refl))
      | inr bad ↦ rw bad (λ fine. absurd (ground arith))
    ]

variants-IsWhole :
    {A : Type 0} (f : A → Outcome (StatusCode × (Text × ProtoValue))) (g : A → Text × ProtoValue)
    (vs : List A)
    → ((a : A) → Returned (IsWhole (g a)) (f a))
    → Returned (IsWhole (all_variants g vs)) (read_variants f vs)
unfolding read_variants all_variants
variants-IsWhole f g [] h = λ good. refl
variants-IsWhole f g (v ∷ vs) h = Returned-bind (IsWhole (g v)) _ (f v) _ (h v) λ m first.
    elim (Bool-cases (is_ok m.0)) [
      | inl good ↦ rw good (
          Returned-bind (IsWhole (all_variants g vs)) _ (read_variants f vs) _
            (variants-IsWhole f g vs h) (λ more rest fine. rw (first good, rest fine) refl))
      | inr bad ↦ rw bad (λ fine. absurd (ground arith))
    ]

-- A message that is cleared on failure.
cleared :
    {A : Type 0} (set : A → Option ProtoValue) (a : A) (o : Outcome (StatusCode × A))
    → Returned (IsWhole a) o
    → Returned (IsWholeMessage (made (set a))) (o >>= λ r. returns (unless_failed set r))
cleared set a o h = Returned-bind (IsWhole a) _ o _ h λ r whole. elim (Bool-cases (is_ok r.0)) [
  | inl good ↦
      ((λ fine. rw good (ap (λ b. made (set b)) (whole good))), (λ fails. absurd (ground arith)))
  | inr bad ↦ rw bad ((λ fine. absurd (ground arith)), (λ fails. refl))
]

under_name :
    {A : Type 0} (P : A → Type 0) (n : Text) (t : Tree) (f : Tree → Outcome A)
    → ((below : Tree) → Returned P (f below))
    → Returned P (with_sub n t f)
unfolding with_sub
under_name P n t f h = Returned-bind (λ below. Unit) P _ f (Returned-any _) λ below found. h below

-- The name of an alternative beside its message.
chosen-IsWhole :
    (n : Text) (m : ProtoValue) (o : Outcome (StatusCode × Option ProtoValue))
    → Returned (IsWholeMessage m) o
    → Returned (IsWhole (n, m)) (o >>= λ r. returns (chosen n r))
chosen-IsWhole n m o h =
    Returned-bind (IsWholeMessage m) _ o _ h λ r whole fine. rw (whole.0 fine) refl

alternative-IsWhole :
    {A B : Type 0} (n : Text) (t : Tree)
    (read : A → Tree → Outcome (StatusCode × Option ProtoValue))
    (others : B → Outcome (StatusCode × (Text × ProtoValue))) (first : A → ProtoValue)
    (second : B → Text × ProtoValue)
    → ((a : A) (below : Tree) → Returned (IsWholeMessage (first a)) (read a below))
    → ((b : B) → Returned (IsWhole (second b)) (others b))
    → (v : A ⊎ B)
    → Returned
        (IsWhole (alternative n first second v))
        (elim v as (λ x. Outcome (StatusCode × (Text × ProtoValue))) [
          | inl a ↦ with_sub n t (read a) >>= λ m. returns (chosen n m)
          | inr b ↦ others b
        ])
alternative-IsWhole n t read others first second h k (inl a) =
    chosen-IsWhole n (first a) _ (under_name _ n t (read a) (h a))
alternative-IsWhole n t read others first second h k (inr b) = k b

-- Nothing is written for a client that may not read.
guarded :
    (m : ProtoValue) (shown : Bool) (o : Outcome (StatusCode × Option ProtoValue))
    → Returned (IsWholeMessage m) o
    → Returned (IsWholeMessage m) (if not shown then returns (permission_denied, none) else o)
guarded m true o h = h
guarded m false o h = ((λ fine. absurd (ground arith)), (λ fails. refl))

mutual
  unfolding message_of to_proto

  whole :
      (s : Shape) (v : Value s) (t : Tree) (authz : Authorizer)
      → Returned (IsWholeMessage (message_of s v)) (to_proto s v t authz)
  whole (leaf k) v t authz = kind-IsWholeMessage k v (descriptor_of t) authz
  whole (struct_of fs) v t authz = guarded _ _ _ (cleared _ _ _ (fields-IsWhole fs v t authz))
  whole (variant_of n s alts) v t authz = guarded _ _ _ (
      cleared _ _ _ (
        alternative-IsWhole n t _ _ _ _ (λ x below. whole s x below authz)
          (λ o. others-IsWhole alts o t authz) v))
  whole (struct_array_of fs) vs t authz =
      guarded _ _ _ (cleared _ _ _ (structs-IsWhole _ _ vs (λ v. fields-IsWhole fs v t authz)))
  whole (variant_array_of n s alts) vs t authz = guarded _ _ _ (
      cleared _ _ _ (
        variants-IsWhole _ _ vs (
          alternative-IsWhole n t _ _ _ _ (λ x below. whole s x below authz)
            (λ o. others-IsWhole alts o t authz))))

  fields-IsWhole :
      (fs : Shapes) (vs : Fields fs) (t : Tree) (authz : Authorizer)
      → Returned (IsWhole (fields_message fs vs)) (to_fields fs vs t authz)
  fields-IsWhole no_shapes vs t authz = λ fine. refl
  fields-IsWhole (shape n s fs) (v, vs) t authz =
      Returned-bind (IsWholeMessage (message_of s v)) _ _ _
        (under_name _ n t _ (λ below. whole s v below authz))
        λ m first. elim (Bool-cases (is_ok m.0)) [
          | inl good ↦ rw good (
              Returned-bind (IsWhole (fields_message fs vs)) _ (to_fields fs vs t authz) _
                (fields-IsWhole fs vs t authz)
                (λ more rest fine. rw (first.0 good, rest fine) refl))
          | inr bad ↦ rw bad (λ fine. absurd (ground arith))
        ]

  others-IsWhole :
      (alts : Shapes) (v : Alternatives alts) (t : Tree) (authz : Authorizer)
      → Returned (IsWhole (other_message alts v)) (to_others alts v t authz)
  others-IsWhole no_shapes v t authz = elim v [ ]
  others-IsWhole (shape n s alts) (inl v) t authz =
      chosen-IsWhole n _ _ (under_name _ n t _ (λ below. whole s v below authz))
  others-IsWhole (shape n s alts) (inr other) t authz = others-IsWhole alts other t authz

-- `toProto` gives the whole of a value or nothing. Where it says `OK`, the message has every field under its
-- name, every member of an array, and the alternative that a variant holds under its name, as in the
-- reference message, which does not depend on the client; where it says anything else, the message is empty.
pub to_proto-message_of :
    (s : Shape) (v : Value s) (t : Tree) (authz : Authorizer) (rc : StatusCode)
    (m : Option ProtoValue)
    → to_proto s v t authz ≡ returns (rc, m)
    → (is_ok rc ≡ true → made m ≡ message_of s v) × (is_ok rc ≡ false → m ≡ none)
to_proto-message_of s v t authz rc m h =
    subst (λ o. Returned (IsWholeMessage (message_of s v)) o) h (whole s v t authz)
