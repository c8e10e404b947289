-- ===== src/Rest/Controllers.antt =====
-- sdks/cpp/connections/REST/src/controllers: GetValue, GetParam, MultiSetValue, SetValue and
-- GetPopulatedSlots, as `proceed` with what it writes.
--
-- The lock of the device is held for the part that reads or changes it, which one step here is. `none` is
-- the outcome of a call through a null pointer. The parsers of JSON are the protobuf library's.
use catena.Base.{ℕ, Bool, false, List, [], ◌∷◌, Option, none, some, if◌then◌else◌}
use catena.Base.Int.{pos}
use catena.Base.Text.{Text}
use catena.Status.{
  StatusCode, ok, is_ok, internal, unknown, invalid_argument, Outcome, returns, throws, with_status,
  std_exception, null_dereference, ◌>>=◌,
}
use catena.Proto.{ProtoValue}
use catena.Authorizer.{Authorizer, Claim, authorizer, authz_disabled}
use catena.Params.Stored.{to_proto}
use catena.Device.{Device}
use catena.Device.Lookup.{absent, present, get_param_at}
use catena.Device.Values.{SetValue, get_value, try_multi_set_value, commit_multi_set_value}
use catena.Rpc.Controllers.{
  Devices, device_at, set_device, checked_slot, reading, writing, populated_slots,
}
use catena.Rest.{Request}
use catena.Rest.Writer.{SocketWriter, Response, send_responses}

-- The handlers of exceptions round the body, by the status for one of the standard library. What `ans`
-- holds by then is not sent with an error.
unfoldable pub settled :
    {M : Type 0} → StatusCode → M → Outcome (StatusCode × M) → Option (StatusCode × M)
settled std blank (returns r) = some r
settled std blank (throws (with_status rc)) = some (rc, blank)
settled std blank (throws std_exception) = some (std, blank)
settled std blank (throws null_dereference) = none

abbrev pub unary_writer : Request → SocketWriter
unary_writer req = record { origin = req.heading.origin; buffer = false; json_body = [] }

-- The answer with its message, and one without.
unfoldable pub respond :
    {M : Type 0} → (M → Option Text) → Request → Option (StatusCode × M) → Option (List Response)
unfolding send_responses
respond json req none = none
respond json req (some (rc, m)) = some (send_responses json ((rc, some m) ∷ []) (unary_writer req))

abbrev pub no_json : List ℕ → Option Text
no_json m = none

unfoldable pub respond_status :
    {M : Type 0} → Request → Option (StatusCode × M) → Option (List Response)
unfolding send_responses
respond_status req none = none
respond_status req (some (rc, m)) =
    some (send_responses no_json ((rc, none) ∷ []) (unary_writer req))

-- `SetValue::toMulti_`: the value of the body, at the OID of the path.
unfoldable pub to_multi_one : (Text → Option ProtoValue) → Request → Option (List SetValue)
to_multi_one parse req = elim (parse req.json_body) [
  | none ↦ none
  | some value ↦ some (record { oid = req.target.fqoid; value = value } ∷ [])
]

module _ (decode : Text → Option (List (Text × Claim))) (authorization_enabled : Bool) where
  unfoldable pub rest_authorizer : Request → Outcome Authorizer
  rest_authorizer req =
      if authorization_enabled
      then authorizer (decode req.heading.jws_token)
      else returns authz_disabled

  -- `GetValue`
  unfoldable pub get_value_answer : Request → Devices → Option (StatusCode × Option ProtoValue)
  unfolding device_at checked_slot rest_authorizer settled
  get_value_answer req dms = settled internal none (
      (reading (pos req.target.slot) none
        (λ dm. rest_authorizer req >>= λ authz. returns (get_value dm req.target.fqoid authz))
        dms).0)

  unfoldable pub get_value_proceed :
      (Option ProtoValue → Option Text) → Request → Devices → Option (List Response)
  unfolding get_value_answer respond
  get_value_proceed json req dms = respond json req (get_value_answer req dms)

  -- `GetParam`: the name and the value of the message.
  unfoldable pub get_param_answer :
      Request → Devices → Option (StatusCode × Option (Text × Option ProtoValue))
  unfolding device_at checked_slot rest_authorizer settled
  get_param_answer req dms = settled internal none (
      (reading (pos req.target.slot) none
        (λ dm. rest_authorizer req >>= λ authz. (elim (get_param_at dm req.target.fqoid authz) [
          | absent rc ↦ returns (rc, none)
          | present t ↦
              let (rc, value) = to_proto t.value t.descriptor authz in
              returns (rc, some (t.descriptor.own.oid, value))
        ]))
        dms).0)

  unfoldable pub get_param_proceed :
      (Option (Text × Option ProtoValue) → Option Text) → Request → Devices → Option (List Response)
  unfolding get_param_answer respond
  get_param_proceed json req dms = respond json req (get_param_answer req dms)

  -- `MultiSetValue`, with `toMulti_` as an argument.
  unfoldable pub set_values_device :
      Option (List SetValue) → Request → Device → Outcome (StatusCode × List ℕ) × Device
  unfolding rest_authorizer
  set_values_device none req dm = (returns (invalid_argument, []), dm)
  set_values_device (some vs) req dm = elim (rest_authorizer req) [
    | throws e ↦ (throws e, dm)
    | returns authz ↦ elim (try_multi_set_value dm vs ok authz) [
      | throws e ↦ (throws e, dm)
      | returns rc ↦
          if is_ok rc
          then (let (result, dm') = commit_multi_set_value dm vs ok authz in
              (result >>= λ final. returns (final, []), dm'))
          else (returns (rc, []), dm)
    ]
  ]

  unfoldable pub set_values_answer :
      (Request → Option (List SetValue))
      → Request
      → Devices
      → Option (StatusCode × List ℕ) × Devices
  unfolding device_at set_device checked_slot set_values_device settled
  set_values_answer to_multi req dms =
      let (result, dms') =
        writing (pos req.target.slot) [] (λ dm. set_values_device (to_multi req) req dm) dms in
      (settled unknown [] result, dms')

  unfoldable pub multi_set_value_proceed :
      (Text → Option (List SetValue)) → Request → Devices → Option (List Response) × Devices
  unfolding set_values_answer respond_status
  multi_set_value_proceed parse req dms =
      let (answer, dms') = set_values_answer (λ r. parse r.json_body) req dms in
      (respond_status req answer, dms')

  unfoldable pub set_value_proceed :
      (Text → Option ProtoValue) → Request → Devices → Option (List Response) × Devices
  unfolding set_values_answer to_multi_one respond_status
  set_value_proceed parse req dms =
      let (answer, dms') = set_values_answer (to_multi_one parse) req dms in
      (respond_status req answer, dms')

-- `GetPopulatedSlots`
unfoldable pub get_populated_slots_proceed :
    (List ℕ → Option Text) → Request → Devices → Option (List Response)
unfolding populated_slots respond
get_populated_slots_proceed json req dms = respond json req (some (ok, populated_slots dms))
