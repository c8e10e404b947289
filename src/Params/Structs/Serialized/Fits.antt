-- ===== src/Params/Structs/Serialized/Fits.antt =====
-- include/StructInfo.h: the types whose names are different, and the values that the constraints leave as
-- they are.
use catena.Base.{◌≡◌, refl, Bool, false, ◌||◌, some, ◌⊎◌, inl, inr, All, map, Bool-cases, arith}
use catena.Base.Text.{Text, eqb, eqb_self}
use catena.Proto.{
  ProtoValue, ProtoFields, field, int32_value, float32_value, get_int32, get_float32,
}
use catena.Params.{Descriptor}
use catena.Params.Convert.{constrain}
use catena.Params.Structs.{
  Kind, int32_kind, float32_kind, string_kind, int32_array_kind, float32_array_kind,
  string_array_kind, Shape, leaf, struct_of, variant_of, struct_array_of, variant_array_of, Shapes,
  no_shapes, shape, Tree, KindValue, Value, Fields, Alternatives, descriptor_of, subs_of,
  find_field, get_sub_param,
}
use catena.Params.Structs.Serialized.{Returned, message_of, fields_message, other_message}

unfoldable pub has_shape : Text → Shapes → Bool
has_shape name no_shapes = false
has_shape name (shape n s fs) = eqb name n || has_shape name fs

-- The fields of a struct have different names, and so have the alternatives of a variant.
unfoldable mutual
  pub IsNamed : Shape → Type 0
  IsNamed (leaf k) = Unit
  IsNamed (struct_of fs) = AreNamed fs
  IsNamed (variant_of n s alts) = (has_shape n alts ≡ false) × IsNamed s × AreNamed alts
  IsNamed (struct_array_of fs) = AreNamed fs
  IsNamed (variant_array_of n s alts) = (has_shape n alts ≡ false) × IsNamed s × AreNamed alts

  pub AreNamed : Shapes → Type 0
  AreNamed no_shapes = Unit
  AreNamed (shape n s fs) = (has_shape n fs ≡ false) × IsNamed s × AreNamed fs

-- A range constraint changes nothing of the number, or of the numbers of an array.
abbrev pub FitsKind : (k : Kind) → KindValue k → Descriptor → Type 0
FitsKind int32_kind i d = get_int32 (constrain d (int32_value i)) ≡ i
FitsKind float32_kind f d = get_float32 (constrain d (float32_value f)) ≡ f
FitsKind string_kind s d = Unit
FitsKind int32_array_kind is d = map (λ i. get_int32 (constrain d (int32_value i))) is ≡ is
FitsKind float32_array_kind fs d = map (λ f. get_float32 (constrain d (float32_value f))) fs ≡ fs
FitsKind string_array_kind ss d = Unit

abbrev pub Either : {A B : Type 0} → (A → Type 0) → (B → Type 0) → A ⊎ B → Type 0
Either P Q (inl a) = P a
Either P Q (inr b) = Q b

-- Every number in a value is one that its descriptor leaves as it is.
unfoldable mutual
  unfolding Value Fields Alternatives

  pub Fits : (s : Shape) → Value s → Tree → Type 0
  Fits (leaf k) v t = FitsKind k v (descriptor_of t)
  Fits (struct_of fs) v t = FieldsFit fs v t
  Fits (variant_of n s alts) v t =
      Either (λ x. Returned (λ below. Fits s x below) (get_sub_param n (subs_of t)))
        (λ o. OtherFits alts o t) v
  Fits (struct_array_of fs) vs t = All (λ v. FieldsFit fs v t) vs
  Fits (variant_array_of n s alts) vs t =
      All
        (λ v.
          Either (λ x. Returned (λ below. Fits s x below) (get_sub_param n (subs_of t)))
            (λ o. OtherFits alts o t) v)
        vs

  pub FieldsFit : (fs : Shapes) → Fields fs → Tree → Type 0
  FieldsFit no_shapes v t = Unit
  FieldsFit (shape n s fs) (v, vs) t =
      Returned (λ below. Fits s v below) (get_sub_param n (subs_of t)) × FieldsFit fs vs t

  pub OtherFits : (alts : Shapes) → Alternatives alts → Tree → Type 0
  OtherFits no_shapes o t = Unit
  OtherFits (shape n s alts) (inl v) t =
      Returned (λ below. Fits s v below) (get_sub_param n (subs_of t))
  OtherFits (shape n s alts) (inr o) t = OtherFits alts o t

-- Each field is found in the message under its name.
unfoldable pub Holds : (fs : Shapes) → Fields fs → ProtoFields → Type 0
unfolding Fields
Holds no_shapes vs src = Unit
Holds (shape n s fs) (v, vs) src = (find_field n src ≡ some (message_of s v)) × Holds fs vs src

Holds-behind :
    (fs : Shapes) (vs : Fields fs) (n : Text) (x : ProtoValue) (src : ProtoFields)
    → has_shape n fs ≡ false
    → Holds fs vs src
    → Holds fs vs (field n x src)
unfolding Fields Holds find_field has_shape
Holds-behind no_shapes vs n x src new h = tt
Holds-behind (shape m s fs) (v, vs) n x src new (there, h) = elim (Bool-cases (eqb n m)) [
  | inl same ↦ absurd (ground arith)
  | inr other ↦ let rest = rw other at new in (rw other there, Holds-behind fs vs n x src rest h)
]

pub fields_message-Holds :
    (fs : Shapes) (vs : Fields fs) → AreNamed fs → Holds fs vs (fields_message fs vs)
unfolding Fields Holds find_field fields_message IsNamed
fields_message-Holds no_shapes vs h = tt
fields_message-Holds (shape n s fs) (v, vs) (new, h, hs) =
    (rw (eqb_self n) refl, Holds-behind fs vs n _ _ new (fields_message-Holds fs vs hs))

pub other_message-named :
    (n : Text) (alts : Shapes) (o : Alternatives alts)
    → has_shape n alts ≡ false
    → eqb n (other_message alts o).0 ≡ false
unfolding Alternatives other_message has_shape
other_message-named n no_shapes o h = elim o [ ]
other_message-named n (shape m s alts) (inl v) h = ground arith
other_message-named n (shape m s alts) (inr o) h = other_message-named n alts o (ground arith)
