-- ===== src/Rpc/Controllers.antt =====
-- sdks/cpp/connections/gRPC/src/controllers: GetValue, GetParam, SetValue, MultiSetValue, AddLanguage,
-- LanguagePackRequest, ListLanguages and GetPopulatedSlots. Each is the state machine with its body of
-- `kProcess`; the lock of the device is held for that body, which one step here is.
use catena.Base.{ℕ, Bool, List, [], ◌∷◌, Option, none, some, if◌then◌else◌, ltb, ◌==◌}
use catena.Base.Int.{ℤ, pos, negsuc}
use catena.Base.Text.{Text}
use catena.Status.{
  StatusCode, ok, is_ok, invalid_argument, not_found, Outcome, returns, throws, with_status, ◌>>=◌,
}
use catena.Proto.{ProtoValue}
use catena.Authorizer.{Claim}
use catena.Params.Stored.{to_proto}
use catena.Device.{Device, LanguagePack}
use catena.Device.Lookup.{absent, present, get_param_at}
use catena.Device.Values.{SetValue, get_value, try_multi_set_value, commit_multi_set_value}
use catena.Device.Languages.{AddLanguagePayload, add_language, get_language_pack, list_languages}
use catena.Rpc.{CallStatus, Action, Context, client_authorizer, proceed}

-- `SlotMap`; `none` is a null pointer.
abbrev pub Devices : Type 0
Devices = List (ℕ × Option Device)

unfoldable pub device_at : ℕ → Devices → Option Device
device_at slot [] = none
device_at slot ((i, dm) ∷ dms) = if i == slot then dm else device_at slot dms

-- The device behind the pointer of the slot changes.
unfoldable pub set_device : ℕ → Device → Devices → Devices
set_device slot d [] = []
set_device slot d ((i, dm) ∷ dms) =
    if i == slot then (i, some d) ∷ dms else (i, dm) ∷ set_device slot d dms

-- The check of the slot's range; the slot of a request is an int32.
unfoldable pub checked_slot : ℤ → Outcome ℕ
checked_slot (negsuc n) = throws (with_status invalid_argument)
checked_slot (pos n) = if ltb 65535 n then throws (with_status invalid_argument) else returns n

-- A body that does not change the device, and one that does. `none` is the answer for no device.
abbrev pub reading :
    {R : Type 0}
    → ℤ
    → R
    → (Device → Outcome (StatusCode × R))
    → Devices
    → Outcome (StatusCode × R) × Devices
reading slot blank body dms = elim (checked_slot slot) [
  | throws e ↦ (throws e, dms)
  | returns n ↦ elim (device_at n dms) [
    | none ↦ (returns (not_found, blank), dms)
    | some dm ↦ (body dm, dms)
  ]
]

abbrev pub writing :
    {R : Type 0}
    → ℤ
    → R
    → (Device → Outcome (StatusCode × R) × Device)
    → Devices
    → Outcome (StatusCode × R) × Devices
writing slot blank body dms = elim (checked_slot slot) [
  | throws e ↦ (throws e, dms)
  | returns n ↦ elim (device_at n dms) [
    | none ↦ (returns (not_found, blank), dms)
    | some dm ↦ let (result, dm') = body dm in (result, set_device n dm' dms)
  ]
]

abbrev pub no_answer : List ℕ
no_answer = []

module _ (decode : Text → Option (List (Text × Claim))) (ctx : Context) where
  -- `GetValue`
  unfoldable pub get_value_body :
      ℤ → Text → Devices → Outcome (StatusCode × Option ProtoValue) × Devices
  unfolding device_at checked_slot client_authorizer
  get_value_body slot oid =
      reading slot none
        λ dm. (client_authorizer decode ctx >>= λ authz. returns (get_value dm oid authz))

  unfoldable pub get_value_call :
      ℤ
      → Text
      → Bool
      → CallStatus
      → Devices
      → CallStatus × (Devices × List (Action (Option ProtoValue)))
  unfolding get_value_body
  get_value_call slot oid = proceed (get_value_body slot oid)

  -- `GetParam`: the name and the value of the response.
  unfoldable pub get_param_body :
      ℤ → Text → Devices → Outcome (StatusCode × Option (Text × Option ProtoValue)) × Devices
  unfolding device_at checked_slot client_authorizer
  get_param_body slot oid = reading slot none λ dm.
      (client_authorizer decode ctx >>= λ authz. (elim (get_param_at dm oid authz) [
        | absent rc ↦ returns (rc, none)
        | present t ↦
            let (rc, value) = to_proto t.value t.descriptor authz in
            returns (rc, some (t.descriptor.own.oid, value))
      ]))

  unfoldable pub get_param_call :
      ℤ
      → Text
      → Bool
      → CallStatus
      → Devices
      → CallStatus × (Devices × List (Action (Option (Text × Option ProtoValue))))
  unfolding get_param_body
  get_param_call slot oid = proceed (get_param_body slot oid)

  -- `MultiSetValue`
  unfoldable pub multi_set_value_device :
      List SetValue → Device → Outcome (StatusCode × List ℕ) × Device
  unfolding client_authorizer
  multi_set_value_device vs dm = elim (client_authorizer decode ctx) [
    | throws e ↦ (throws e, dm)
    | returns authz ↦ elim (try_multi_set_value dm vs ok authz) [
      | throws e ↦ (throws e, dm)
      | returns rc ↦
          if is_ok rc
          then (let (result, dm') = commit_multi_set_value dm vs ok authz in
              (result >>= λ final. returns (final, no_answer), dm'))
          else (returns (rc, no_answer), dm)
    ]
  ]

  unfoldable pub multi_set_value_body :
      ℤ → List SetValue → Devices → Outcome (StatusCode × List ℕ) × Devices
  unfolding device_at set_device checked_slot multi_set_value_device
  multi_set_value_body slot vs = writing slot no_answer (multi_set_value_device vs)

  unfoldable pub multi_set_value_call :
      ℤ
      → List SetValue
      → Bool
      → CallStatus
      → Devices
      → CallStatus × (Devices × List (Action (List ℕ)))
  unfolding multi_set_value_body
  multi_set_value_call slot vs = proceed (multi_set_value_body slot vs)

  -- `SetValue`: `toMulti_`, and then the same.
  unfoldable pub set_value_call :
      ℤ → SetValue → Bool → CallStatus → Devices → CallStatus × (Devices × List (Action (List ℕ)))
  unfolding multi_set_value_call
  set_value_call slot v = multi_set_value_call slot (v ∷ [])

  -- `AddLanguage`
  unfoldable pub add_language_body :
      ℤ → AddLanguagePayload → Devices → Outcome (StatusCode × List ℕ) × Devices
  unfolding device_at set_device checked_slot client_authorizer
  add_language_body slot language = writing slot no_answer λ dm.
      (elim (client_authorizer decode ctx) [
        | throws e ↦ (throws e, dm)
        | returns authz ↦
            let (rc, dm') = add_language dm language authz in (returns (rc, no_answer), dm')
      ])

  unfoldable pub add_language_call :
      ℤ
      → AddLanguagePayload
      → Bool
      → CallStatus
      → Devices
      → CallStatus × (Devices × List (Action (List ℕ)))
  unfolding add_language_body
  add_language_call slot language = proceed (add_language_body slot language)

-- `LanguagePackRequest`
unfoldable pub language_pack_body :
    ℤ → Text → Devices → Outcome (StatusCode × Option LanguagePack) × Devices
unfolding device_at checked_slot
language_pack_body slot language = reading slot none λ dm. returns (get_language_pack dm language)

unfoldable pub language_pack_call :
    ℤ
    → Text
    → Bool
    → CallStatus
    → Devices
    → CallStatus × (Devices × List (Action (Option LanguagePack)))
unfolding language_pack_body
language_pack_call slot language = proceed (language_pack_body slot language)

-- `ListLanguages`
unfoldable pub list_languages_body : ℤ → Devices → Outcome (StatusCode × List Text) × Devices
unfolding device_at checked_slot
list_languages_body slot = reading slot [] λ dm. returns (ok, list_languages dm)

unfoldable pub list_languages_call :
    ℤ → Bool → CallStatus → Devices → CallStatus × (Devices × List (Action (List Text)))
unfolding list_languages_body
list_languages_call slot = proceed (list_languages_body slot)

-- `GetPopulatedSlots`
unfoldable pub populated_slots : Devices → List ℕ
populated_slots [] = []
populated_slots ((slot, none) ∷ dms) = populated_slots dms
populated_slots ((slot, some dm) ∷ dms) = slot ∷ populated_slots dms

unfoldable pub get_populated_slots_call :
    Bool → CallStatus → Devices → CallStatus × (Devices × List (Action (List ℕ)))
unfolding populated_slots
get_populated_slots_call = proceed λ dms. (returns (ok, populated_slots dms), dms)
