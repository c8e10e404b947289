-- ===== src/Params/Structs/Serialized/RoundTrip.antt =====
-- include/StructInfo.h: a value that is serialized and read back.
use catena.Base.{◌≡◌, refl, Option, some, inl, inr}
use catena.Base.Text.{eqb_self}
use catena.Status.{ok, returns}
use catena.Proto.{ProtoValue, ProtoFields}
use catena.Authorizer.{Authorizer}
use catena.Params.Structs.{
  Shape, leaf, struct_of, variant_of, struct_array_of, variant_array_of, Shapes, no_shapes, shape,
  Tree, Value, Fields, Alternatives, descriptor_of, subs_of, get_sub_param, valid,
}
use catena.Params.Structs.Reading.{made, to_proto}
use catena.Params.Structs.Serialized.Complete.{to_proto-message_of}
use catena.Params.Structs.Writing.{second, from_proto, from_fields, from_others}
use catena.Params.Structs.Serialized.{
  Returned, Returned-bind, message_of, fields_message, other_message,
}
use catena.Params.Structs.Serialized.Fits.{
  IsNamed, AreNamed, Fits, FieldsFit, OtherFits, Holds, fields_message-Holds, other_message-named,
}
use catena.Params.Structs.Serialized.Staying.{second-same, kind-same, Stays, read_back}
use catena.Params.Structs.Serialized.Composed.{
  struct-Stays, struct_array-Stays, here-same, chosen-same, variant-Stays, variant_array-Stays,
}

mutual
  unfolding Value from_proto message_of Fits IsNamed Holds

  stays :
      (s : Shape) (v : Value s) (t : Tree) (authz : Authorizer)
      → IsNamed s
      → Fits s v t
      → Stays s v t authz
  stays (leaf k) v t authz h fit = kind-same k v (descriptor_of t) authz fit
  stays (struct_of fs) v t authz h fit =
      struct-Stays fs v t authz
        (fields_stay fs v (fields_message fs v) t authz h fit (fields_message-Holds fs v h))
  stays (variant_of n s alts) v t authz (new, h, hs) fit =
      variant-Stays n s alts v t authz new (λ x below f. stays s x below authz h f)
        (λ o f. others_stay alts o t authz hs f) fit
  stays (struct_array_of fs) vs t authz h fit =
      struct_array-Stays fs vs t authz (λ v. FieldsFit fs v t)
        (λ v f. fields_stay fs v (fields_message fs v) t authz h f (fields_message-Holds fs v h))
        fit
  stays (variant_array_of n s alts) vs t authz (new, h, hs) fit =
      variant_array-Stays n s alts vs t authz
        (λ v f.
          variant-Stays n s alts v t authz new (λ x below f'. stays s x below authz h f')
            (λ o f'. others_stay alts o t authz hs f') f)
        fit

  fields_stay :
      (fs : Shapes) (vs : Fields fs) (src : ProtoFields) (t : Tree) (authz : Authorizer)
      → AreNamed fs
      → FieldsFit fs vs t
      → Holds fs vs src
      → Returned (λ a. a ≡ vs) (from_fields fs src vs t authz)
  fields_stay no_shapes vs src t authz h fit held = refl
  fields_stay (shape n s fs) (v, vs) src t authz (new, h, hs) (fit, fits) (there, held) =
      Returned-bind (λ below. Fits s v below) _ (get_sub_param n (subs_of t)) _ fit
        λ below f. rw there (
          Returned-bind (λ a. a ≡ v) _ (second (from_proto s (message_of s v) v below authz)) _
            (second-same _ v (stays s v below authz h f))
            (λ a same.
              Returned-bind (λ as'. as' ≡ vs) _ (from_fields fs src vs t authz) _
                (fields_stay fs vs src t authz hs fits held) (λ as' rest. rw (same, rest) refl)))

  others_stay :
      (alts : Shapes) (o : Alternatives alts) (t : Tree) (authz : Authorizer)
      → AreNamed alts
      → OtherFits alts o t
      → Returned
          (λ a. a ≡ o)
          (from_others alts (other_message alts o).0 (other_message alts o).1 (some o) t authz)
  others_stay no_shapes o t authz h fit = elim o [ ]
  others_stay (shape n s alts) (inl x) t authz (new, h, hs) fit = rw (eqb_self n) (
      chosen-same (λ a. inl a) _ x
        (here-same n s x t authz (λ below f. stays s x below authz h f) fit))
  others_stay (shape n s alts) (inr o) t authz (new, h, hs) fit =
      rw (other_message-named n alts o new)
        (chosen-same (λ a. inr a) _ o (others_stay alts o t authz hs fit))

-- What `toProto` makes of a value, `fromProto` reads back as that value, and says `OK`, whatever stood there
-- before: for every type that is built of structs and variants with different names and of arrays of them,
-- where the serialization has said `OK`, the validation of the message says `OK`, and the range constraints
-- leave the numbers of the value as they are.
pub from_proto-to_proto :
    (s : Shape) (v : Value s) (t : Tree) (reader writer : Authorizer) (m : Option ProtoValue)
    → IsNamed s
    → Fits s v t
    → to_proto s v t reader ≡ returns (ok, m)
    → valid s (made m) t ok writer ≡ returns ok
    → (dst : Value s) → from_proto s (made m) dst t writer ≡ returns (ok, v)
from_proto-to_proto s v t reader writer m named fit sent fine dst =
    let same : made m ≡ message_of s v = (to_proto-message_of s v t reader ok m sent).0 refl in
    rw same (read_back s v t writer (stays s v t writer named fit) (rw same at fine) dst)
