-- ===== src/Rpc/Slots.antt =====
-- What the calls that write to a device leave alone.
use catena.Base.{
  ℕ, ◌≡◌, ◌≢◌, refl, sym, ap, ◌∙◌, ◌⊎◌, ◌≤◌, ◌++◌, inl, inr, true, false, All, drop, length, List,
  [], ◌∷◌, Option, none, some, ◌==◌, ==_iff, Bool-cases, Option-cases, arith,
}
use catena.Base.Int.{ℤ, pos, negsuc}
use catena.Base.Text.{Text, txt, lookup, starts_with, starts_with-drop}
use catena.Status.{
  StatusCode, ok, is_ok, is_ok-true, with_status, unauthenticated, Outcome, Outcome-cases, returns,
  throws,
}
use catena.Authorizer.{Claim, Authorizer, authorizer}
use catena.Device.{Device}
use catena.Device.Values.{SetValue, try_multi_set_value, commit_multi_set_value, validate_one}
use catena.Device.Overlap.{Apart, try_multi_set_value-Accepted}
use catena.Rpc.{Context, client_authorizer, jws_token}
use catena.Rpc.Controllers.{
  Devices, device_at, set_device, checked_slot, writing, populated_slots, multi_set_value_body,
  multi_set_value_device,
}

-- Of two states of the devices: the same slots have one, and those of the other slots are the same.
pub record IsConfined (slot : ℤ) (dms dms' : Devices) : Type 0 where
  pub others : (j : ℕ) → pos j ≢ slot → device_at j dms' ≡ device_at j dms
  pub slots : populated_slots dms' ≡ populated_slots dms

device_at-set_device :
    (n j : ℕ) (d : Device) (dms : Devices)
    → (n == j) ≡ false
    → device_at j (set_device n d dms) ≡ device_at j dms
unfolding device_at set_device
device_at-set_device n j d [] other = refl
device_at-set_device n j d ((i, dm) ∷ dms) other = ground (arith, device_at-set_device n j d dms)

populated_slots-set_device :
    (n : ℕ) (d old : Device) (dms : Devices)
    → device_at n dms ≡ some old
    → populated_slots (set_device n d dms) ≡ populated_slots dms
unfolding device_at set_device populated_slots
populated_slots-set_device n d old [] here = refl
populated_slots-set_device n d old ((i, none) ∷ dms) here =
    ground (arith, populated_slots-set_device n d old dms)
populated_slots-set_device n d old ((i, some dm) ∷ dms) here =
    ground (arith, populated_slots-set_device n d old dms)

checked_slot-pos : (slot : ℤ) (n : ℕ) → checked_slot slot ≡ returns n → slot ≡ pos n
unfolding checked_slot
checked_slot-pos (negsuc m) n h = ground arith
checked_slot-pos (pos m) n h = ground arith

other-slot : (slot : ℤ) (n j : ℕ) → slot ≡ pos n → pos j ≢ slot → (n == j) ≡ false
other-slot slot n j at differ = elim (Bool-cases (n == j)) [
  | inr other ↦ other
  | inl same ↦ absurd (differ (ap pos (sym ((==_iff n j).0 same)) ∙ sym at))
]

writing-IsConfined :
    {R : Type 0} (slot : ℤ) (blank : R) (body : Device → Outcome (StatusCode × R) × Device)
    (dms : Devices)
    → IsConfined slot dms ((writing slot blank body dms).1)
writing-IsConfined slot blank body dms = elim (Outcome-cases (checked_slot slot)) [
  | inl (e, bad) ↦ rw (bad, writing) (record { others = λ j h. refl; slots = refl })
  | inr (n, good) ↦ elim (Option-cases (device_at n dms)) [
    | inl missing ↦ rw (good, missing, writing) (record { others = λ j h. refl; slots = refl })
    | inr (dm, here) ↦
        rw (good, here, writing)
          (record {
            others = λ j h.
                device_at-set_device n j ((body dm).1) dms
                  (other-slot slot n j (checked_slot-pos slot n good) h);
            slots = populated_slots-set_device n ((body dm).1) dm dms here;
          })
  ]
]

set_device-same :
    (n : ℕ) (d : Device) (dms : Devices) → device_at n dms ≡ some d → set_device n d dms ≡ dms
unfolding device_at set_device
set_device-same n d [] here = refl
set_device-same n d ((i, dm) ∷ dms) here = ground (arith, set_device-same n d dms)

writing-kept :
    {R : Type 0} (slot : ℤ) (blank : R) (body : Device → Outcome (StatusCode × R) × Device)
    (dms : Devices)
    → ((dm : Device) → (body dm).1 ≡ dm)
    → (writing slot blank body dms).1 ≡ dms
writing-kept slot blank body dms kept = elim (Outcome-cases (checked_slot slot)) [
  | inl (e, bad) ↦ rw (bad, writing)
  | inr (n, good) ↦ elim (Option-cases (device_at n dms)) [
    | inl missing ↦ rw (good, missing, writing)
    | inr (dm, here) ↦ rw (good, here, writing, kept dm) (set_device-same n dm dms here)
  ]
]

-- What a call of MultiSetValue may do: nothing, or what a commit does to the device of its slot where the token
-- has made an authorizer with which each of the values passes its validation.
pub record IsPermitted (decode : Text → Option (List (Text × Claim))) (ctx : Context) (slot : ℤ)
    (vs : List SetValue) (dms dms' : Devices) : Type 0 where
  pub confined : IsConfined slot dms dms'
  pub accepted :
      (dms' ≡ dms)
      ⊎ ((n : ℕ) × (d : Device) × (authz : Authorizer) × (slot ≡ pos n)
          × (device_at n dms ≡ some d)
          × (client_authorizer decode ctx ≡ returns authz)
          × All (λ v. validate_one d authz v ≡ returns ok) vs
          × Apart vs
          × (device_at n dms' ≡ some (commit_multi_set_value d vs ok authz).1))

device_at-set_device-here :
    (n : ℕ) (d old : Device) (dms : Devices)
    → device_at n dms ≡ some old
    → device_at n (set_device n d dms) ≡ some d
unfolding device_at set_device
device_at-set_device-here n d old [] here = absurd (ground arith)
device_at-set_device-here n d old ((i, dm) ∷ dms) here =
    ground (arith, device_at-set_device-here n d old dms)

-- The device behind a call: as it was, or with every value stored.
device_cases :
    (decode : Text → Option (List (Text × Claim))) (ctx : Context) (vs : List SetValue) (d : Device)
    → ((multi_set_value_device decode ctx vs d).1 ≡ d)
      ⊎ ((authz : Authorizer) × (client_authorizer decode ctx ≡ returns authz)
          × (try_multi_set_value d vs ok authz ≡ returns ok)
          × ((multi_set_value_device decode ctx vs d).1 ≡ (commit_multi_set_value d vs ok authz).1))
unfolding multi_set_value_device
device_cases decode ctx vs d = elim (Outcome-cases (client_authorizer decode ctx)) [
  | inl (e, denied) ↦ inl (rw (denied, multi_set_value_device) refl)
  | inr (authz, known) ↦ elim (Outcome-cases (try_multi_set_value d vs ok authz)) [
    | inl (e, thrown) ↦ inl (rw (multi_set_value_device, known, thrown) refl)
    | inr (rc, told) ↦ elim (Bool-cases (is_ok rc)) [
      | inr bad ↦ inl (rw (multi_set_value_device, known, told, bad) refl)
      | inl good ↦ inr (
        authz,
        known,
        rw (is_ok-true rc good) at told,
        rw (multi_set_value_device, known, told, good) refl,
      )
    ]
  ]
]

-- A MultiSetValue call leaves the devices of all slots but the request's, and which slots have one. It
-- changes the device of its slot only where the client's token makes an authorizer with which every value
-- of the call passes its validation and no two values overlap; then that device is what a commit of the
-- values makes of it.
pub multi_set_value_body-IsPermitted :
    (decode : Text → Option (List (Text × Claim))) (ctx : Context) (slot : ℤ) (vs : List SetValue)
    (dms : Devices)
    → IsPermitted decode ctx slot vs dms ((multi_set_value_body decode ctx slot vs dms).1)
unfolding multi_set_value_body
multi_set_value_body-IsPermitted decode ctx slot vs dms = record {
  confined = writing-IsConfined slot [] _ dms;
  accepted = elim (Outcome-cases (checked_slot slot)) [
    | inl (e, bad) ↦ inl (rw (bad, writing) refl)
    | inr (n, good) ↦ elim (Option-cases (device_at n dms)) [
      | inl missing ↦ inl (rw (good, missing, writing) refl)
      | inr (d, here) ↦ elim (device_cases decode ctx vs d) [
        | inl kept ↦ inl (rw (good, here, writing, kept) (set_device-same n d dms here))
        | inr (authz, known, fine, stored) ↦
            let (valid, (apart, enabled)) = try_multi_set_value-Accepted d authz vs fine in
            inr (
              n,
              d,
              authz,
              checked_slot-pos slot n good,
              here,
              known,
              valid,
              apart,
              rw (good, here, writing, stored) (device_at-set_device-here n _ d dms here),
            )
      ]
    ]
  ];
}

-- A client that sends no token with the scheme Bearer, or one that the JWT library does not decode.
abbrev pub IsRejected : (Text → Option (List (Text × Claim))) → Context → Type 0
IsRejected decode ctx =
    (meta : List (Text × Text)) (t : Text)
    → ctx.metadata ≡ some meta
    → lookup (txt "authorization") meta ≡ some (txt "Bearer " ++ t)
    → decode t ≡ none

within : (n : ℕ) → n ≤ 65535 → checked_slot (pos n) ≡ returns n
unfolding checked_slot
within n h = ground arith

client_authorizer-rejected :
    (decode : Text → Option (List (Text × Claim))) (ctx : Context)
    → ctx.authorization_enabled ≡ true
    → IsRejected decode ctx
    → client_authorizer decode ctx ≡ throws (with_status unauthenticated)
unfolding client_authorizer jws_token authorizer
client_authorizer-rejected decode ctx on h = elim (Option-cases ctx.metadata) [
  | inl missing ↦ rw (on, missing) refl
  | inr (meta, sent) ↦ elim (Option-cases (lookup (txt "authorization") meta)) [
    | inl missing ↦ rw (on, sent, missing) refl
    | inr (bearer, there) ↦ elim (Bool-cases (starts_with bearer (txt "Bearer "))) [
      | inr other ↦ rw (on, sent, there, other) refl
      | inl scheme ↦
          let token = drop (length (txt "Bearer ")) bearer in
          rw
            (
              on,
              sent,
              there,
              scheme,
              h meta token sent (there ∙ ap some (starts_with-drop bearer (txt "Bearer ") scheme)),
            )
            refl
    ]
  ]
]

-- Where the service asks for authorization and the client sends no token, sends one under another scheme than
-- Bearer, or sends one that cannot be decoded, a MultiSetValue call changes no device, and if its slot has a
-- device it ends with UNAUTHENTICATED.
pub multi_set_value_body-rejected :
    (decode : Text → Option (List (Text × Claim))) (ctx : Context) (slot : ℤ) (vs : List SetValue)
    (dms : Devices)
    → ctx.authorization_enabled ≡ true
    → IsRejected decode ctx
    → ((multi_set_value_body decode ctx slot vs dms).1 ≡ dms)
      × ((n : ℕ) (d : Device)
          → slot ≡ pos n
          → n ≤ 65535
          → device_at n dms ≡ some d
          → (multi_set_value_body decode ctx slot vs dms).0 ≡ throws (with_status unauthenticated))
unfolding multi_set_value_body multi_set_value_device
multi_set_value_body-rejected decode ctx slot vs dms on h =
    let denied = client_authorizer-rejected decode ctx on h in
    (
      writing-kept slot [] (multi_set_value_device decode ctx vs) dms
          (λ dm. rw (denied, multi_set_value_device)),
      λ n d same small here.
          rw (same, within n small, here, writing, multi_set_value_device, denied) refl,
    )
