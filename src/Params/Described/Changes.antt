-- ===== src/Params/Described/Changes.antt =====
-- common/include/ParamDescriptor.h: how a tree of descriptors is built, and what changes in it later.
use catena.Base.{
  ◌≡◌, refl, ◌∙◌, List, ◌∷◌, Bool, ◌||◌, Option, none, some, if◌then◌else◌, Bool-cases, inl, inr,
  arith,
}
use catena.Base.Text.{Text, eqb, eqb_iff}
use catena.Base.TextSet
use catena.Status.{Outcome, returns, throws, std_exception}
use catena.Authorizer.{Authorizer}
use catena.Params.{can_read}
use catena.Params.Described.{
  Described, described, Describeds, no_described, below, descriptor_in, described_to_proto,
}
use catena.Params.Described.Told.{
  names, IsKeyed, AreKeyed, told_at, readable_at, readable_below, described_to_proto-readable,
}

-- `subParams_[oid] = item`
unfoldable put_below : Text → Described → Describeds → Describeds
put_below oid item no_described = below oid item no_described
put_below oid item (below name t ts) =
    let rest = put_below oid item ts in
    if eqb name oid then below name item ts else below name t rest

-- `addSubParam`
unfoldable pub add_sub_param : Text → Option Described → Described → Outcome Described
unfolding put_below
add_sub_param oid none t = throws std_exception
add_sub_param oid (some item) (described d s ts) = returns (
    described (record d { own = record d.own { sub_params = TextSet.insert oid d.own.sub_params } })
      s (put_below oid item ts))

-- `setOid` and `setMinimalSet`
unfoldable set_oid : Text → Described → Described
set_oid oid (described d s ts) = described (record d { own = record d.own { oid = oid } }) s ts

unfoldable set_minimal_set : Bool → Described → Described
set_minimal_set flag (described d s ts) =
    described (record d { own = record d.own { minimal_set = flag } }) s ts

names-put_below :
    (n oid : Text) (item : Described) (ts : Describeds)
    → names n (put_below oid item ts) ≡ (eqb oid n || names n ts)
unfolding names put_below
names-put_below n oid item no_described = refl
names-put_below n oid item (below name t ts) =
    ground (arith, eqb_iff name oid, eqb_iff oid n, eqb_iff name n, names-put_below n oid item ts)

put_below-AreKeyed :
    (oid : Text) (item : Described) (ts : Describeds)
    → IsKeyed item
    → AreKeyed ts
    → AreKeyed (put_below oid item ts)
unfolding names put_below IsKeyed
put_below-AreKeyed oid item no_described h hs = (refl, h, tt)
put_below-AreKeyed oid item (below name t ts) h (new, k, ks) = elim (Bool-cases (eqb name oid)) [
  | inl same ↦ rw same (new, h, ks)
  | inr other ↦ rw other (
    ground (arith, eqb_iff oid name, eqb_iff name oid, names-put_below name oid item ts),
    k,
    put_below-AreKeyed oid item ts h ks,
  )
]

readable_below-put_below :
    (authz : Authorizer) (n : Text) (ns : List Text) (oid : Text) (item : Described)
    (ts : Describeds)
    → readable_below authz n ns (put_below oid item ts) ≡ (
        if eqb oid n
        then (if can_read authz (descriptor_in item) then readable_at authz ns item else none)
        else readable_below authz n ns ts)
unfolding put_below readable_below
readable_below-put_below authz n ns oid item no_described = refl
readable_below-put_below authz n ns oid item (below name t ts) = ground (
  arith,
  eqb_iff name oid,
  eqb_iff oid n,
  eqb_iff name n,
  readable_below-put_below authz n ns oid item ts,
)

-- The names below a descriptor stay different when one is added, and under the new name a client is told
-- exactly what the new descriptor tells, if the client may read that, in place of whatever stood under the
-- name before. Under every other name the client is told what it was.
pub add_sub_param-told :
    (authz : Authorizer) (oid n : Text) (ns : List Text) (item t : Described)
    → IsKeyed item
    → IsKeyed t
    → (t' : Described) × (add_sub_param oid (some item) t ≡ returns t')
      × IsKeyed t'
      × (told_at (n ∷ ns) (described_to_proto t' authz) ≡ (
          if eqb oid n
          then (if can_read authz (descriptor_in item)
              then told_at ns (described_to_proto item authz)
              else none)
          else told_at (n ∷ ns) (described_to_proto t authz)))
unfolding add_sub_param IsKeyed readable_at
add_sub_param-told authz oid n ns item (described d s ts) h hs =
    let kept = put_below-AreKeyed oid item ts h hs in
    (
      _,
      refl,
      kept,
      rw
          (
            described_to_proto-readable authz ns item h,
            described_to_proto-readable authz (n ∷ ns) (described d s ts) hs,
          )
          (described_to_proto-readable authz (n ∷ ns) _ kept
            ∙ readable_below-put_below authz n ns oid item ts),
    )
