-- ===== src/Rpc/Streaming.antt =====
-- sdks/cpp/connections/gRPC/src/controllers: UpdateSubscriptions, DeviceRequest and ExecuteCommand, as
-- bodies of `kProcess` and rounds of `kWrite` for the machine of `Rpc.Streams`.
--
-- A traversal of the visitor that runs out of fuel stands for a stack that overflows.
use catena.Base.{ℕ, true, not, List, [], ◌∷◌, Option, none, some, if◌then◌else◌}
use catena.Base.Int.{ℤ}
use catena.Base.Text.{Text}
use catena.Status.{
  StatusCode, ok, is_ok, not_found, failed_precondition, internal, Outcome, returns, throws,
  with_status, null_dereference,
}
use catena.Proto.{ProtoValue}
use catena.Authorizer.{Authorizer, Claim, authz_disabled}
use catena.Params.Stored.{to_proto}
use catena.Device.{Device, DetailLevel, subscriptions}
use catena.Device.Lookup.{absent, present, get_param_at}
use catena.Device.Serializer.{eq_level}
use catena.Device.Parts.{Component, Serializer, get_component_serializer, get_next, has_more}
use catena.Visitor.{out_of_fuel, thrown, walked}
use catena.Subscriptions.{Subscribed, remove_subscription, get_all_subscribed_oids}
use catena.Subscriptions.Adding.{add_subscription}
use catena.Rpc.{Context, client_authorizer}
use catena.Rpc.Controllers.{Devices, device_at, checked_slot}
use catena.Rpc.Streams.{Round, sends, ends, fails}

-- What the calls share: the devices, and the set of the subscription manager.
abbrev pub Service : Type 0
Service = Devices × Subscribed

-- The loop over the added OIDs; a status is dropped, an exception is not.
unfoldable pub add_all :
    ℕ → Device → Authorizer → List Text → Subscribed → Outcome StatusCode × Subscribed
unfolding add_subscription
add_all fuel d authz [] s = (returns ok, s)
add_all fuel d authz (oid ∷ oids) s = elim ((add_subscription fuel oid d authz s).1) [
  | out_of_fuel ↦ (throws null_dereference, s)
  | thrown e s' ↦ (throws e, s')
  | walked s' ↦ add_all fuel d authz oids s'
]

unfoldable pub remove_all : Device → List Text → Subscribed → Subscribed
unfolding remove_subscription
remove_all d [] s = s
remove_all d (oid ∷ oids) s = remove_all d oids ((remove_subscription oid d.slot s).1)

-- The body of a stream that finds a device and makes an authorizer.
unfoldable pub with_device :
    {W : Type 0}
    → (Text → Option (List (Text × Claim)))
    → Context
    → ℤ
    → W
    → (Device → Outcome StatusCode)
    → (ℕ → Device → Authorizer → Subscribed → Outcome (StatusCode × W) × Subscribed)
    → Service
    → Outcome (StatusCode × W) × Service
unfolding device_at checked_slot client_authorizer
with_device decode ctx slot idle check body (dms, s) = elim (checked_slot slot) [
  | throws e ↦ (throws e, (dms, s))
  | returns n ↦ elim (device_at n dms) [
    | none ↦ (returns (not_found, idle), (dms, s))
    | some d ↦ elim (check d) [
      | throws e ↦ (throws e, (dms, s))
      | returns rc ↦
          if is_ok rc
          then (elim (client_authorizer decode ctx) [
            | throws e ↦ (throws e, (dms, s))
            | returns authz ↦ let (result, s') = body n d authz s in (result, (dms, s'))
          ])
          else (returns (rc, idle), (dms, s))
    ]
  ]
]

-- `UpdateSubscriptions`: the slot of `dm_`, `authz_`, and `subbedOids_` from `it_` on.
pub record Updating : Type 0 where
  pub slot : ℕ
  pub authz : Authorizer
  pub left : List Text

abbrev pub not_updating : Updating
not_updating = record { slot = 0; authz = authz_disabled; left = [] }

unfoldable pub update_device :
    ℕ
    → List Text
    → List Text
    → ℕ
    → Device
    → Authorizer
    → Subscribed
    → Outcome (StatusCode × Updating) × Subscribed
unfolding add_all remove_all
update_device fuel added removed n d authz s =
    let (result, s') = add_all fuel d authz added s in
    elim result [
      | throws e ↦ (throws e, s')
      | returns rc ↦
          let s'' = remove_all d removed s' in
          (
            returns
                (ok, record { slot = n; authz = authz; left = get_all_subscribed_oids d.slot s'' }),
            s'',
          )
    ]

unfoldable pub update_body :
    (Text → Option (List (Text × Claim)))
    → Context
    → ℕ
    → ℤ
    → List Text
    → List Text
    → Service
    → Outcome (StatusCode × Updating) × Service
unfolding with_device update_device
update_body decode ctx fuel slot added removed =
    with_device decode ctx slot not_updating
      (λ d. returns (if not d.subscriptions_enabled then failed_precondition else ok))
      (update_device fuel added removed)

-- The loop to the next parameter that can be sent; the device is asked without an authorizer.
unfoldable pub next_param :
    Device → Authorizer → List Text → Option (Text × Option ProtoValue) × List Text
unfolding get_param_at to_proto
next_param d authz [] = (none, [])
next_param d authz (oid ∷ oids) =
    let rest = next_param d authz oids in
    elim (get_param_at d oid authz_disabled) [
      | absent rc ↦ rest
      | present t ↦
          let (rc, value) = to_proto t.value t.descriptor authz in
          if is_ok rc then (some (t.descriptor.own.oid, value), oids) else rest
    ]

unfoldable pub update_round : Service → Updating → Round Updating (Text × Option ProtoValue)
unfolding next_param device_at
update_round (dms, s) w = elim (device_at w.slot dms) [
  | none ↦ ends w
  | some d ↦
      let (found, oids) = next_param d w.authz w.left in
      elim found [
        | none ↦ ends (record w { left = oids })
        | some message ↦ sends message true (record w { left = oids })
      ]
]

-- `DeviceRequest`: the OIDs of the request count for the level of the subscriptions only.
unfoldable pub request_device :
    ℕ
    → DetailLevel
    → List Text
    → ℕ
    → Device
    → Authorizer
    → Subscribed
    → Outcome (StatusCode × Option Serializer) × Subscribed
unfolding add_all get_component_serializer
request_device fuel dl oids n d authz s =
    let (result, s') =
      if eq_level dl subscriptions then add_all fuel d authz oids s else (returns ok, s) in
    elim result [
      | throws e ↦ (throws e, s')
      | returns rc ↦
          elim (get_component_serializer d authz
            (if eq_level dl subscriptions then get_all_subscribed_oids d.slot s' else []) dl) [
              | throws e ↦ (throws e, s')
              | returns serializer ↦ (returns (ok, some serializer), s')
            ]
    ]

unfoldable pub device_body :
    (Text → Option (List (Text × Claim)))
    → Context
    → ℕ
    → ℤ
    → DetailLevel
    → List Text
    → Service
    → Outcome (StatusCode × Option Serializer) × Service
unfolding with_device request_device
device_body decode ctx fuel slot dl oids =
    with_device decode ctx slot none (λ d. returns ok) (request_device fuel dl oids)

unfoldable pub device_round : Service → Option Serializer → Round (Option Serializer) Component
unfolding get_next has_more
device_round s none = fails (with_status internal) none
device_round s (some serializer) =
    let (component, rest) = get_next serializer in sends component (has_more rest) (some rest)
