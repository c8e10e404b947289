-- ===== src/Device/Overlap.antt =====
-- The values that `tryMultiSetValue` accepts together.
use catena.Base.{
  ◌≤◌, ◌≡◌, refl, ap, ◌∙◌, ◌⊎◌, inl, inr, Bool, true, false, ◌&&◌, ◌||◌, not, List, [], ◌∷◌, ◌++◌,
  Bool-cases, All, any, arith, length, ltb,
}
use catena.Base.Text.{Text}
use catena.Status.{
  StatusCode, ok, is_ok, is_ok-true, invalid_argument, permission_denied, Outcome-cases, returns,
  throws, Exception, with_status, std_exception, returns-injective, throws-injective,
}
use catena.Authorizer.{Authorizer}
use catena.Device.{Device}
use catena.ParamPath.{parse}
use catena.ParamPath.Errors.{parse-throws}
use catena.Device.Single.{validate_at-returns}
use catena.Device.Values.{
  SetValue, owner, overlaps, validate_one, try_values, reset_values, try_multi_set_value,
}

-- No two of the values overlap.
pub Apart : List SetValue → Type 0
Apart [] = Unit
Apart (v ∷ vs) = All (λ w. overlaps v.oid w.oid ≡ false) vs × Apart vs

abbrev free : List Text → SetValue → Bool
free affected v = any (λ oid. overlaps oid v.oid) affected

any-append :
    (affected : List Text) (oid : Text) (v : SetValue)
    → free (affected ++ oid ∷ []) v ≡ (free affected v || overlaps oid v.oid)
any-append [] oid v = ground arith
any-append (o ∷ affected) oid v = ground (arith, any-append affected oid v)

All-split :
    (affected : List Text) (oid : Text) (vs : List SetValue)
    → All (λ v. free (affected ++ oid ∷ []) v ≡ false) vs
    → All (λ v. free affected v ≡ false) vs × All (λ v. overlaps oid v.oid ≡ false) vs
All-split affected oid [] h = (tt, tt)
All-split affected oid (v ∷ vs) (here, there) =
    let (left, right) = All-split affected oid vs there in
    let e = any-append affected oid v in ((ground arith, left), (ground arith, right))

skipped-eq :
    (d : Device) (authz : Authorizer) (ans rc : StatusCode) (affected affected' : List Text)
    (vs : List SetValue)
    → is_ok ans ≡ false
    → try_values d authz ans affected vs ≡ returns (rc, affected')
    → is_ok rc ≡ false
unfolding try_values
skipped-eq d authz ans rc affected affected' [] bad h = ground arith
skipped-eq d authz ans rc affected affected' (v ∷ vs) bad h = elim (Bool-cases (free affected v)) [
  | inl hit ↦
      skipped-eq d authz invalid_argument rc affected affected' vs refl (rw (hit, try_values) at h)
  | inr miss ↦ skipped-eq d authz ans rc affected affected' vs bad (rw (miss, bad, try_values) at h)
]

-- A loop that is left by a handler has an error.
no-throw :
    (d : Device) (authz : Authorizer) (v : SetValue) (e : Exception)
    → validate_one d authz v ≡ throws e
    → (e ≡ with_status invalid_argument) ⊎ (e ≡ std_exception)
unfolding validate_one
no-throw d authz v e h = elim (Outcome-cases (parse v.oid)) [
  | inl (e', bad) ↦
      parse-throws v.oid e (bad ∙ ap throws (throws-injective (rw (bad, validate_one) at h)))
  | inr (path, good) ↦
      let (rc, valid) = validate_at-returns d authz v.value ((owner path).0) ((owner path).1) in
      let clash : returns rc ≡ throws e = rw (good, valid, validate_one) at h in cc
]

try_values-Accepted :
    (d : Device) (authz : Authorizer) (affected affected' : List Text) (vs : List SetValue)
    → try_values d authz ok affected vs ≡ returns (ok, affected')
    → All (λ v. validate_one d authz v ≡ returns ok) vs
      × (All (λ v. free affected v ≡ false) vs × Apart vs)
unfolding try_values Apart
try_values-Accepted d authz affected affected' [] h = (tt, (tt, tt))
try_values-Accepted d authz affected affected' (v ∷ vs) h = elim (Bool-cases (free affected v)) [
  | inl hit ↦
      let bad : is_ok ok ≡ false =
        skipped-eq d authz invalid_argument ok affected affected' vs refl
          (rw (hit, try_values) at h) in
      cc
  | inr miss ↦ elim (Outcome-cases (validate_one d authz v)) [
    | inl (e, bad) ↦ elim (no-throw d authz v e bad) [
      | inl invalid ↦
          let same : returns (invalid_argument, affected ++ v.oid ∷ []) ≡ returns (ok, affected') =
            rw (miss, bad, invalid, try_values) at h in
          cc
      | inr std ↦
          let clash : throws std_exception ≡ returns (ok, affected') =
            rw (miss, bad, std, try_values) at h in
          cc
    ]
    | inr (rc, valid) ↦ elim (Bool-cases (is_ok rc)) [
      | inr bad ↦
          let same : rc ≡ ok =
            ap (λ r. r.0) (returns-injective (rw (miss, valid, bad, try_values) at h)) in
          let clash : is_ok ok ≡ false = rw same at bad in cc
      | inl fine ↦
          let (all, (frees, apart)) =
            try_values-Accepted d authz (affected ++ v.oid ∷ []) affected' vs
              (rw (miss, valid, fine, try_values) at h) in
          let (left, right) = All-split affected v.oid vs frees in
          ((valid ∙ ap returns (is_ok-true rc fine), all), ((miss, left), (right, apart)))
    ]
  ]
]

-- Values that `tryMultiSetValue` answers with OK are each valid, no two of them overlap, and there is
-- more than one only where the device has multi-set enabled.
pub try_multi_set_value-Accepted :
    (d : Device) (authz : Authorizer) (vs : List SetValue)
    → try_multi_set_value d vs ok authz ≡ returns ok
    → All (λ v. validate_one d authz v ≡ returns ok) vs
      × (Apart vs × ((length vs ≤ 1) ⊎ (d.multi_set_enabled ≡ true)))
unfolding try_multi_set_value
try_multi_set_value-Accepted d authz vs h =
    elim (Bool-cases (ltb 1 (length vs) && not d.multi_set_enabled)) [
      | inl refused ↦
          let clash : returns permission_denied ≡ returns ok =
            rw (refused, try_multi_set_value) at h in
          cc
      | inr allowed ↦ elim (Outcome-cases (try_values d authz ok [] vs)) [
        | inl (e, bad) ↦
            let clash : throws e ≡ returns ok = rw (allowed, bad, try_multi_set_value) at h in cc
        | inr (r, good) ↦ elim (Outcome-cases (reset_values (r.1))) [
          | inl (e, bad) ↦
              let clash : throws e ≡ returns ok =
                rw (allowed, good, bad, try_multi_set_value) at h in
              cc
          | inr (b, reset) ↦
              let same : r.0 ≡ ok =
                returns-injective (rw (allowed, good, reset, try_multi_set_value) at h) in
              let (all, (frees, apart)) =
                try_values-Accepted d authz [] (r.1) vs
                  (good ∙ ap (λ rc. returns (rc, r.1)) same) in
              (
                all,
                (
                  apart,
                  elim (Bool-cases d.multi_set_enabled) [
                    | inl on ↦ inr on
                    | inr off ↦ inl (ground arith)
                  ],
                ),
              )
        ]
      ]
    ]
