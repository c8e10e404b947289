-- ===== src/Subscriptions/Removed.antt =====
-- What a removal takes out of the subscriptions.
use catena.Base.{
  ℕ, ◌≡◌, ◌≢◌, ◌⊎◌, zero, suc, ◌↔◌, ◌++◌, refl, true, ◌∙◌, ◌-◌, leb, take, drop, length,
  length-append, sym, ap, inl, inr, Bool, ◌&&◌, not, List, [], ◌∷◌, if◌then◌else◌, keep, ◌==◌,
  ==_iff, Bool-cases, arith,
}
use catena.Base.Text.{
  Text, txt, eqb, starts_with-append, starts_with-drop, eqb_self, eqb_sound, starts_with,
}
use catena.Base.TextSet.{contains, contains-erase}
use catena.Subscriptions.{Subscribed, is_wildcard, base_path, remove_subscription, is_subscribed}

-- The OIDs that a removal takes out, told of the texts alone: all those that begin with what stands before
-- `/*` in the request's OID, at whatever character they go on, and the very OID of another request.
abbrev pub IsTaken : Text → Text → Type 0
IsTaken oid o =
    ((base rest : Text) × (oid ≡ base ++ txt "/*") × (o ≡ base ++ rest))
    ⊎ ((oid ≡ o) × ((base : Text) → oid ≢ base ++ txt "/*"))

abbrev names : Text → Text → Bool
names oid o = if is_wildcard oid then starts_with o (base_path oid) else eqb oid o

contains-keep :
    (p : Text → Bool) (o : Text) (oids : List Text)
    → contains o (keep p oids) ≡ (p o && contains o oids)
unfolding contains
contains-keep p o [] = ground arith
contains-keep p o (x ∷ oids) = elim (Bool-cases (eqb x o)) [
  | inl same ↦ let e = ap p (eqb_sound x o same) in ground (arith, contains-keep p o oids)
  | inr other ↦ ground (arith, contains-keep p o oids)
]

removed :
    (oid o : Text) (slot i : ℕ) (s : Subscribed)
    → is_subscribed o i ((remove_subscription oid slot s).1)
      ≡ (not (i == slot && names oid o) && is_subscribed o i s)
unfolding remove_subscription is_subscribed
removed oid o slot i s = elim (Bool-cases (i == slot)) [
  | inr other ↦ ground arith
  | inl same ↦
      let here = (==_iff i slot).0 same in
      elim (Bool-cases (is_wildcard oid)) [
        | inl wild ↦
            rw (wild, same, here)
              (contains-keep (λ o. not (starts_with o (base_path oid))) o (s slot))
        | inr single ↦ elim (Bool-cases (contains oid (s slot))) [
          | inl found ↦ rw (single, found, same, here) (contains-erase oid o (s slot))
          | inr missing ↦
              rw (single, missing, same, here)
                (elim (Bool-cases (eqb oid o)) [
                  | inr differ ↦ rw differ
                  | inl e ↦ rw (e, sym (eqb_sound oid o e), missing)
                ])
        ]
      ]
]

take-drop : (n : ℕ) (l : Text) → take n l ++ drop n l ≡ l
take-drop zero l = refl
take-drop (suc n) [] = refl
take-drop (suc n) (c ∷ l) = ap (λ s. c ∷ s) (take-drop n l)

long : (base : Text) → leb 2 (length (base ++ txt "/*")) ≡ true
long [] = refl
long (c ∷ base) = ground (arith, long base)

ends : (base : Text) → length (base ++ txt "/*") - 2 ≡ length base
ends [] = refl
ends (c ∷ base) = rw (length-append base (txt "/*")) (omega arith)

taken_back : (base tail : Text) → take (length base) (base ++ tail) ≡ base
taken_back [] tail = refl
taken_back (c ∷ base) tail = ap (λ s. c ∷ s) (taken_back base tail)

dropped : (base tail : Text) → drop (length base) (base ++ tail) ≡ tail
dropped [] tail = refl
dropped (c ∷ base) tail = dropped base tail

wildcard_base : (oid : Text) → is_wildcard oid ≡ true → oid ≡ base_path oid ++ txt "/*"
unfolding is_wildcard
wildcard_base oid h =
    let tail : eqb (drop (length oid - 2) oid) (txt "/*") ≡ true = ground arith in
    sym (take-drop (length oid - 2) oid) ∙ ap (λ s. base_path oid ++ s) (eqb_sound _ _ tail)

wildcard_append :
    (base : Text) → (is_wildcard (base ++ txt "/*") ≡ true) × (base_path (base ++ txt "/*") ≡ base)
unfolding is_wildcard eqb
wildcard_append base = (
  rw (ends base, dropped base (txt "/*"), long base) refl,
  rw (ends base) (taken_back base (txt "/*")),
)

names_iff : (oid o : Text) → (names oid o ≡ true) ↔ IsTaken oid o
names_iff oid o = elim (Bool-cases (is_wildcard oid)) [
  | inl wild ↦ (
    λ h. inl (
      base_path oid,
      _,
      wildcard_base oid wild,
      starts_with-drop o (base_path oid) (rw wild at h),
    ),
    λ t. elim t [
      | inl (base, rest, e, same) ↦
          rw (wild, same, e, (wildcard_append base).1) (starts_with-append base rest)
      | inr (e, other) ↦ absurd (other _ (wildcard_base oid wild))
    ],
  )
  | inr single ↦ (
    λ h. inr (
      eqb_sound oid o (rw single at h),
      λ base e. (let clash = rw e at single in let fine = (wildcard_append base).0 in cc),
    ),
    λ t. elim t [
      | inl (base, rest, e, same) ↦
          absurd (let clash = rw e at single in let fine = (wildcard_append base).0 in cc)
      | inr (e, other) ↦ rw (single, e) (eqb_self o)
    ],
  )
]

-- A removal takes out of the request's device the OIDs that are taken and keeps every other, and takes nothing out of
-- any other device: `/level/*` takes out what begins with `/level`, also `/levels`; an OID without `/*` at its end
-- takes out itself.
pub is_subscribed-remove_subscription :
    (oid o : Text) (slot i : ℕ) (s : Subscribed)
    → (is_subscribed o i ((remove_subscription oid slot s).1) ≡ true)
      ↔ ((is_subscribed o i s ≡ true) × (i ≡ slot → IsTaken oid o → ⊥))
is_subscribed-remove_subscription oid o slot i s =
    rw (removed oid o slot i s) (elim (Bool-cases (names oid o)) [
      | inl hit ↦
          let taken = (names_iff oid o).0 hit in
          (
            λ h. (ground arith, λ same t. ground (arith, ==_iff i slot)),
            λ h. ground (arith, ==_iff i slot, h.0, h.1),
          )
      | inr missed ↦ (
        λ h. (ground arith, λ same t. (let hit = (names_iff oid o).1 t in cc)),
        λ h. rw (missed, h.0) (ground arith),
      )
    ])
