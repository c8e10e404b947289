-- ===== src/Rest/Streaming.antt =====
-- sdks/cpp/connections/REST/src/controllers: DeviceRequest, ExecuteCommand and Subscriptions, which send
-- several messages and then the status, through a writer of events or one that buffers.
--
-- A serializer gives its parts in order, and a responder what its coroutine comes to. `none` stands for
-- a call through a null pointer.
use catena.Base.{
  ℕ, ◌+◌, Bool, true, false, ◌&&◌, not, List, [], ◌∷◌, ◌++◌, Option, none, some, if◌then◌else◌,
}
use catena.Base.Int.{pos}
use catena.Base.Text.{Text, txt, contains_key}
use catena.Status.{
  StatusCode, Exception, ok, is_ok, internal, unknown, unauthenticated, invalid_argument, not_found,
  failed_precondition, unimplemented, Outcome, returns, throws, with_status, std_exception,
  null_dereference, ◌>>=◌,
}
use catena.Proto.{ProtoValue, kind_not_set}
use catena.Authorizer.{Authorizer, Claim, is_expired}
use catena.Params.Stored.{to_proto}
use catena.Device.{Device, subscriptions}
use catena.Device.Lookup.{absent, present, get_param_at, get_command}
use catena.Device.Serializer.{eq_level}
use catena.Device.Parts.{Component, get_component_serializer}
use catena.Subscriptions.{get_all_subscribed_oids, Subscribed}
use catena.Rpc.Controllers.{Devices, device_at, checked_slot}
use catena.Rpc.Commands.{Responder, execute_command}
use catena.Rpc.Streaming.{Service, add_all, remove_all}
use catena.Rest.{get, put, eq_method, Request}
use catena.Rest.Writer.{Response, send_responses}
use catena.Rest.Events.{Chunk, send_events}
use catena.Rest.Answers.{calls_of}
use catena.Rest.Controllers.{rest_authorizer}

-- The messages that were sent, and the status at the end.
abbrev pub Sent : Type 0 → Type 0
Sent R = List R × StatusCode

-- The handlers of exceptions, behind what was sent before.
unfoldable pub caught : {R : Type 0} → StatusCode → List R → Exception → Option (Sent R)
caught std sent (with_status rc) = some (sent, rc)
caught std sent std_exception = some (sent, std)
caught std sent null_dereference = none

-- What the client is sent, by the kind of the writer.
pub data Written : Type 0 where
  in_one : List Response → Written
  as_events : List Chunk → Written

unfoldable pub write_all :
    {R : Type 0} → (R → Option Text) → Bool → Request → Option (Sent R) → Option Written
unfolding send_responses send_events
write_all json events req none = none
write_all json events req (some (msgs, rc)) = some (
    if events
    then as_events (
        send_events json (calls_of msgs rc)
          (record { origin = req.heading.origin; headers_sent = false }))
    else in_one (
        send_responses json (calls_of msgs rc)
          (record { origin = req.heading.origin; buffer = true; json_body = [] })))

-- `Subscriptions`: the parameters that the client may read, with the status of each that fails dropped.
unfoldable pub subscribed_params : Device → Authorizer → List Text → List (Text × Option ProtoValue)
subscribed_params d authz [] = []
subscribed_params d authz (oid ∷ oids) =
    let rest = subscribed_params d authz oids in
    elim (get_param_at d oid authz) [
      | absent rc ↦ rest
      | present t ↦
          let (rc, value) = to_proto t.value t.descriptor authz in
          if is_ok rc then (t.descriptor.own.oid, value) ∷ rest else rest
    ]

unfoldable pub put_subscriptions :
    ℕ
    → Option (List Text × List Text)
    → Device
    → Authorizer
    → Subscribed
    → Option (Sent (Text × Option ProtoValue)) × Subscribed
unfolding add_all remove_all caught
put_subscriptions fuel none d authz s = (some ([], invalid_argument), s)
put_subscriptions fuel (some (added, removed)) d authz s =
    let (result, s') = add_all fuel d authz added s in
    elim result [
      | throws e ↦ (caught unknown [] e, s')
      | returns rc ↦ (some ([], ok), remove_all d removed s')
    ]

-- The value of the body, where there is one.
unfoldable pub command_value : (Text → Option ProtoValue) → Text → Option ProtoValue
command_value parse [] = some kind_not_set
command_value parse (c ∷ body) = parse (c ∷ body)

-- The loop over the responses; `i` counts its rounds, for the time at which one begins.
unfoldable pub run_responder :
    {R : Type 0} → (ℕ → ℕ) → Authorizer → Bool → ℕ → List R → Responder R → Option (Sent R)
unfolding is_expired caught
run_responder clock authz wanted i sent [] = some (sent, ok)
run_responder {R} clock authz wanted i sent (next ∷ rs) =
    let round : Option (Sent R) = elim next [
      | throws e ↦ caught unknown sent e
      | returns r ↦
          run_responder clock authz wanted (i + 1) (if wanted then sent ++ r ∷ [] else sent) rs
    ] in
    if is_expired authz (clock i) then some (sent, unauthenticated) else round

unfoldable pub execute :
    {R : Type 0}
    → R
    → (Text → ProtoValue → Bool → Option (Responder R))
    → (ℕ → ℕ)
    → Text
    → Bool
    → ProtoValue
    → Authorizer
    → Device
    → Option (Sent R)
unfolding get_command execute_command run_responder caught
execute blank run clock oid wanted value authz d = elim (get_command d oid authz) [
  | throws e ↦ caught unknown [] e
  | returns (absent rc) ↦ some ([], rc)
  | returns (present t) ↦
      let (rc, responder) = execute_command blank run t value wanted authz in
      if not (is_ok rc) then some ([], rc) else elim responder [
        | none ↦ some ([], internal)
        | some rs ↦ run_responder clock authz wanted 0 [] rs
      ]
]

module _ (decode : Text → Option (List (Text × Claim))) (authorization_enabled : Bool) where
  -- `DeviceRequest`
  unfoldable pub device_components : Request → Service → Outcome (StatusCode × List Component)
  unfolding checked_slot device_at rest_authorizer get_component_serializer
  device_components req (dms, s) = checked_slot (pos req.target.slot) >>= λ n.
      (elim (device_at n dms) [
        | none ↦ returns (not_found, [])
        | some d ↦ rest_authorizer decode authorization_enabled req >>= λ authz.
            (get_component_serializer d authz
                (if eq_level req.heading.detail_level subscriptions
                  then get_all_subscribed_oids d.slot s
                  else [])
                req.heading.detail_level
              >>= λ serializer. returns (ok, serializer))
      ])

  unfoldable pub device_request_proceed :
      (Component → Option Text) → Request → Service → Option Written
  unfolding device_components caught write_all
  device_request_proceed json req service =
      write_all json req.target.stream req (elim (device_components req service) [
        | throws e ↦ caught internal [] e
        | returns (rc, components) ↦ some (components, rc)
      ])

  module _ {R : Type 0} (blank : R) (run : Text → ProtoValue → Bool → Option (Responder R))
      (clock : ℕ → ℕ) where
    -- `ExecuteCommand`
    unfoldable pub execute_command_sent :
        (Text → Option ProtoValue) → Request → Devices → Option (Sent R)
    unfolding checked_slot device_at rest_authorizer execute command_value caught
    execute_command_sent parse req dms = elim (checked_slot (pos req.target.slot)) [
      | throws e ↦ caught unknown [] e
      | returns n ↦ elim (device_at n dms) [
        | none ↦ some ([], not_found)
        | some d ↦ elim (command_value parse req.json_body) [
          | none ↦ some ([], invalid_argument)
          | some value ↦ elim (rest_authorizer decode authorization_enabled req) [
            | throws e ↦ caught unknown [] e
            | returns authz ↦
                execute blank run clock req.target.fqoid (contains_key (txt "respond") req.fields)
                  value authz d
          ]
        ]
      ]
    ]

    unfoldable pub execute_command_proceed :
        (Text → Option ProtoValue) → (R → Option Text) → Request → Devices → Option Written
    unfolding execute_command_sent write_all
    execute_command_proceed parse json req dms =
        write_all json req.target.stream req (execute_command_sent parse req dms)

  unfoldable pub subscriptions_sent :
      ℕ
      → (Text → Option (List Text × List Text))
      → Request
      → Service
      → Option (Sent (Text × Option ProtoValue)) × Service
  unfolding checked_slot device_at rest_authorizer subscribed_params put_subscriptions caught
  subscriptions_sent fuel parse req (dms, s) = elim (checked_slot (pos req.target.slot)) [
    | throws e ↦ (caught unknown [] e, (dms, s))
    | returns n ↦ elim (device_at n dms) [
      | none ↦ (some ([], not_found), (dms, s))
      | some d ↦
          if not d.subscriptions_enabled
          then (some ([], failed_precondition), (dms, s))
          else elim (rest_authorizer decode authorization_enabled req) [
            | throws e ↦ (caught unknown [] e, (dms, s))
            | returns authz ↦
                if eq_method req.method get
                then (
                  some (subscribed_params d authz (get_all_subscribed_oids d.slot s), ok),
                  (dms, s),
                )
                else if eq_method req.method put
                then (let (sent, s') = put_subscriptions fuel (parse req.json_body) d authz s in
                    (sent, (dms, s')))
                else (some ([], unimplemented), (dms, s))
          ]
    ]
  ]

  unfoldable pub subscriptions_proceed :
      ℕ
      → (Text → Option (List Text × List Text))
      → (Text × Option ProtoValue → Option Text)
      → Request
      → Service
      → Option Written × Service
  unfolding subscriptions_sent write_all
  subscriptions_proceed fuel parse json req service =
      let (sent, service') = subscriptions_sent fuel parse req service in
      (write_all json (eq_method req.method get && req.target.stream) req sent, service')
