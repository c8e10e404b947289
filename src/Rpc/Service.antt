-- ===== src/Rpc/Service.antt =====
-- sdks/cpp/connections/gRPC/src/ServiceImpl.cpp: the devices of a service and the registry of its calls. The
-- constructor of the REST service makes the same map of devices.
use catena.Base.{
  ℕ, ◌≡◌, refl, ◌⊎◌, inl, inr, Bool, true, false, ◌||◌, ◌&&◌, not, List, [], ◌∷◌, ◌++◌, Option,
  none, some, if◌then◌else◌, ◌==◌, Bool-cases, arith,
}
use catena.Base.Text.{is_some}
use catena.Status.{Exception, Outcome, returns, throws, std_exception, null_dereference}
use catena.Device.{Device}
use catena.Rpc.Controllers.{Devices, device_at}

-- `dms_.contains`
unfoldable pub has_slot : ℕ → Devices → Bool
has_slot n [] = false
has_slot n ((i, dm) ∷ dms) = i == n || has_slot n dms

-- The loop over the devices of the configuration, whose slots must be different.
unfoldable pub add_devices : List (Option Device) → Devices → Outcome Devices
unfolding has_slot
add_devices [] dms = returns dms
add_devices (none ∷ ds) dms = throws null_dereference
add_devices (some d ∷ ds) dms =
    let rest = add_devices ds (dms ++ (d.slot, some d) ∷ []) in
    if has_slot d.slot dms then throws std_exception else rest

-- The constructor, which wants a completion queue.
unfoldable pub service_devices : Bool → List (Option Device) → Outcome Devices
unfolding add_devices
service_devices has_queue ds = if has_queue then add_devices ds [] else throws std_exception

-- A call by its address.
unfoldable register_item : ℕ → List ℕ → List ℕ
register_item call registry = registry ++ call ∷ []

unfoldable deregister_item : ℕ → List ℕ → List ℕ
deregister_item call [] = []
deregister_item call (c ∷ registry) =
    if c == call then registry else c ∷ deregister_item call registry

-- The device of a slot in the configuration, and whether two are for one slot.
abbrev pub configured : ℕ → List (Option Device) → Option Device
configured n [] = none
configured n (none ∷ ds) = configured n ds
configured n (some d ∷ ds) = if d.slot == n then some d else configured n ds

device_at-append :
    (n : ℕ) (dms : Devices) (d : Device)
    → device_at n (dms ++ (d.slot, some d) ∷ [])
      ≡ (if has_slot n dms then device_at n dms else if d.slot == n then some d else none)
unfolding device_at has_slot
device_at-append n [] d = refl
device_at-append n ((i, dm) ∷ dms) d = ground (arith, device_at-append n dms d)

has_slot-append :
    (n : ℕ) (dms : Devices) (d : Device)
    → has_slot n (dms ++ (d.slot, some d) ∷ []) ≡ (has_slot n dms || d.slot == n)
unfolding has_slot
has_slot-append n [] d = ground arith
has_slot-append n ((i, dm) ∷ dms) d = ground (arith, has_slot-append n dms d)

lacks_slot : (n : ℕ) (dms : Devices) → has_slot n dms ≡ false → device_at n dms ≡ none
unfolding device_at has_slot
lacks_slot n [] h = refl
lacks_slot n ((i, dm) ∷ dms) h = ground (arith, lacks_slot n dms)

-- Whether two devices are for one slot, and whether one is for a slot that is taken.
abbrev pub twice : List (Option Device) → Bool
twice [] = false
twice (none ∷ ds) = twice ds
twice (some d ∷ ds) = is_some (configured d.slot ds) || twice ds

taken : List (Option Device) → Devices → Bool
taken [] dms = false
taken (none ∷ ds) dms = taken ds dms
taken (some d ∷ ds) dms = has_slot d.slot dms || taken ds dms

abbrev pub all_there : List (Option Device) → Bool
all_there [] = true
all_there (none ∷ ds) = false
all_there (some d ∷ ds) = all_there ds

taken-append :
    (ds : List (Option Device)) (dms : Devices) (d : Device)
    → taken ds (dms ++ (d.slot, some d) ∷ []) ≡ (taken ds dms || is_some (configured d.slot ds))
unfolding taken
taken-append [] dms d = refl
taken-append (none ∷ ds) dms d = taken-append ds dms d
taken-append (some e ∷ ds) dms d =
    ground (arith, has_slot-append e.slot dms d, taken-append ds dms d)

taken_none : (ds : List (Option Device)) → taken ds [] ≡ false
unfolding taken has_slot
taken_none [] = refl
taken_none (none ∷ ds) = taken_none ds
taken_none (some d ∷ ds) = taken_none ds

-- What the loop comes to, and where it does: every device is there, and no slot is taken.
added :
    (ds : List (Option Device)) (dms : Devices) (n : ℕ)
    → ((e : Exception) × (add_devices ds dms ≡ throws e)
        × ((all_there ds && not (taken ds dms || twice ds)) ≡ false))
      ⊎ ((r : Devices) × (add_devices ds dms ≡ returns r)
          × ((all_there ds && not (taken ds dms || twice ds)) ≡ true)
          × (device_at n r ≡ (if has_slot n dms then device_at n dms else configured n ds)))
unfolding add_devices taken
added [] dms n = inr (dms, refl, refl, ground (arith, lacks_slot n dms))
added (none ∷ ds) dms n = inl (null_dereference, refl, refl)
added (some d ∷ ds) dms n = elim (Bool-cases (has_slot d.slot dms)) [
  | inl old ↦ inl (std_exception, rw old refl, rw old (ground arith))
  | inr new ↦ elim (added ds (dms ++ (d.slot, some d) ∷ []) n) [
    | inl (e, thrown, clash) ↦ inl (e, rw (new, thrown) refl, ground (arith, taken-append ds dms d))
    | inr (r, e, free, found) ↦ inr (
      r,
      rw (new, e) refl,
      ground (arith, taken-append ds dms d),
      ground (arith, has_slot-append n dms d, device_at-append n dms d),
    )
  ]
]

-- A service is made exactly where there is a completion queue, every device of the configuration is there,
-- and no two of them are for one slot; then each slot has the device that was configured for it, and every
-- other slot none. Everywhere else the constructor throws, or meets a null pointer.
pub service_devices_cases :
    (has_queue : Bool) (ds : List (Option Device)) (n : ℕ)
    → ((e : Exception) × (service_devices has_queue ds ≡ throws e)
        × ((has_queue && all_there ds && not (twice ds)) ≡ false))
      ⊎ ((r : Devices) × (service_devices has_queue ds ≡ returns r)
          × ((has_queue && all_there ds && not (twice ds)) ≡ true)
          × (device_at n r ≡ configured n ds))
unfolding service_devices has_slot
service_devices_cases false ds n = inl (std_exception, refl, refl)
service_devices_cases true ds n = elim (added ds [] n) [
  | inl (e, thrown, clash) ↦ inl (e, thrown, rw (taken_none ds) at clash)
  | inr (r, e, free, found) ↦ inr (r, e, rw (taken_none ds) at free, found)
]
