-- ===== src/Params/Described/Told.antt =====
-- Which descriptors a client is told of.
use mathlib.Core.Path.{subst}
use catena.Base.{
  ◌≡◌, refl, Bool, false, ◌||◌, List, [], ◌∷◌, Option, none, some, if◌then◌else◌, Bool-cases, inl,
  inr, arith,
}
use catena.Base.Text.{Text, eqb, eqb_sound}
use catena.Authorizer.{Authorizer}
use catena.Params.{can_read}
use catena.Params.Described.{
  Described, described, Describeds, no_described, below, ParamFields, ParamTree, param, ParamTrees,
  no_params, entry, fields_of, descriptor_in, described_to_proto, below_to_proto,
}

unfoldable pub names : Text → Describeds → Bool
names n no_described = false
names n (below name t ts) = eqb name n || names n ts

-- The keys of a map are different.
unfoldable mutual
  pub IsKeyed : Described → Type 0
  IsKeyed (described d s ts) = AreKeyed ts

  pub AreKeyed : Describeds → Type 0
  AreKeyed no_described = Unit
  AreKeyed (below name t ts) = (names name ts ≡ false) × IsKeyed t × AreKeyed ts

-- What the message has under a path of names.
unfoldable mutual
  pub told_at : List Text → ParamTree → Option ParamFields
  told_at [] (param f ts) = some f
  told_at (n ∷ ns) (param f ts) = told_below n ns ts

  pub told_below : Text → List Text → ParamTrees → Option ParamFields
  told_below n ns no_params = none
  told_below n ns (entry name t ts) =
      let found = told_at ns t in
      let others = told_below n ns ts in if eqb name n then found else others

-- The descriptor under a path of which the client may read every one below the first.
unfoldable mutual
  pub readable_at : Authorizer → List Text → Described → Option ParamFields
  readable_at authz [] (described d s ts) = some (fields_of d s)
  readable_at authz (n ∷ ns) (described d s ts) = readable_below authz n ns ts

  pub readable_below : Authorizer → Text → List Text → Describeds → Option ParamFields
  readable_below authz n ns no_described = none
  readable_below authz n ns (below name t ts) =
      let found = readable_at authz ns t in
      let others = readable_below authz n ns ts in
      if eqb name n then (if can_read authz (descriptor_in t) then found else none) else others

not_named :
    (authz : Authorizer) (n : Text) (ns : List Text) (ts : Describeds)
    → names n ts ≡ false
    → told_below n ns (below_to_proto ts authz) ≡ none
unfolding names told_below below_to_proto
not_named authz n ns no_described h = refl
not_named authz n ns (below name t ts) h = elim (Bool-cases (eqb name n)) [
  | inl same ↦ absurd (ground arith)
  | inr other ↦
      let rest = not_named authz n ns ts (rw other at h) in
      elim (Bool-cases (can_read authz (descriptor_in t))) [
        | inl shown ↦ rw (shown, other) rest
        | inr hidden ↦ rw hidden rest
      ]
]

unfoldable mutual
  unfolding IsKeyed told_at readable_at described_to_proto

  tells :
      (authz : Authorizer) (ns : List Text) (t : Described)
      → IsKeyed t
      → told_at ns (described_to_proto t authz) ≡ readable_at authz ns t
  tells authz [] (described d s ts) h = refl
  tells authz (n ∷ ns) (described d s ts) h = tells_below authz n ns ts h

  tells_below :
      (authz : Authorizer) (n : Text) (ns : List Text) (ts : Describeds)
      → AreKeyed ts
      → told_below n ns (below_to_proto ts authz) ≡ readable_below authz n ns ts
  tells_below authz n ns no_described h = refl
  tells_below authz n ns (below name t ts) (new, h, hs) =
      elim (Bool-cases (can_read authz (descriptor_in t))) [
        | inl shown ↦ elim (Bool-cases (eqb name n)) [
          | inl same ↦ rw (shown, same) (tells authz ns t h)
          | inr other ↦ rw (shown, other) (tells_below authz n ns ts hs)
        ]
        | inr hidden ↦ elim (Bool-cases (eqb name n)) [
          | inl same ↦
              rw (hidden, same)
                (not_named authz n ns ts
                  (subst (λ k. names k ts ≡ false) (eqb_sound name n same) new))
          | inr other ↦ rw (hidden, other) (tells_below authz n ns ts hs)
        ]
      ]

-- A client is told of exactly the descriptors below a parameter that it may read together with all those on
-- the way to them: under every other path of names the message has nothing.
pub described_to_proto-readable :
    (authz : Authorizer) (path : List Text) (t : Described)
    → IsKeyed t
    → told_at path (described_to_proto t authz) ≡ readable_at authz path t
described_to_proto-readable authz path t h = tells authz path t h
