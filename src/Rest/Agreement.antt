-- ===== src/Rest/Agreement.antt =====
-- The REST and the gRPC controllers of one operation, for the same request.
use mathlib.Core.Option
use mathlib.Core.Path.{fun_ext}
use catena.Base.{
  ℕ, ◌≡◌, refl, ap, Bool, true, List, [], ◌∷◌, ◌++◌, Option, none, some, inl, inr, leb, Bool-cases,
}
use catena.Base.Int.{pos}
use catena.Base.Text.{Text, txt, lookup, eqb, starts_with}
use catena.Status.{
  StatusCode, ok, is_ok, is_ok-true, unknown, Outcome, returns, throws, with_status, std_exception,
  null_dereference,
}
use catena.Authorizer.{Claim}
use catena.Device.{Device}
use catena.Device.Values.{SetValue}
use catena.Rpc.{Action, respond, respond_error, Context, jws_token, client_authorizer, answer}
use catena.Rpc.Controllers.{Devices, multi_set_value_device, multi_set_value_body, writing}
use catena.Rest.{Request}
use catena.Rest.Writer.{Response, code_map, send_response, send_responses}
use catena.Rest.Controllers.{
  settled, rest_authorizer, set_values_device, set_values_answer, respond_status,
}

-- The metadata of a gRPC call with the token of a REST request.
abbrev pub same_client : Bool → Request → Context
same_client authorization_enabled req = record {
  authorization_enabled = authorization_enabled;
  metadata = some ((txt "authorization", txt "Bearer " ++ req.heading.jws_token) ∷ []);
}

-- The status that the action tells the client.
abbrev pub status_of : {R : Type 0} → Action R → Option StatusCode
status_of (respond r) = some ok
status_of (respond_error rc) = some rc
status_of _ = none

jws_token-same_client :
    (authorization_enabled : Bool) (req : Request)
    → authorization_enabled ≡ true
    → jws_token (same_client authorization_enabled req) ≡ returns req.heading.jws_token
unfolding jws_token lookup eqb starts_with
jws_token-same_client authorization_enabled req h = rw h refl

module _ (decode : Text → Option (List (Text × Claim))) (authorization_enabled : Bool)
    (req : Request) where
  pub same_authorizer :
      client_authorizer decode (same_client authorization_enabled req)
      ≡ rest_authorizer decode authorization_enabled req
  unfolding client_authorizer rest_authorizer
  same_authorizer = elim (Bool-cases authorization_enabled) [
    | inl on ↦ rw (jws_token-same_client authorization_enabled req on, on) refl
    | inr off ↦ rw off refl
  ]

  same_device :
      (vs : List SetValue) (dm : Device)
      → multi_set_value_device decode (same_client authorization_enabled req) vs dm
        ≡ set_values_device decode authorization_enabled (some vs) req dm
  unfolding multi_set_value_device set_values_device
  same_device vs dm = rw same_authorizer refl

  same_body :
      (vs : List SetValue) (dms : Devices)
      → multi_set_value_body decode
          (same_client authorization_enabled req)
          (pos req.target.slot)
          vs
          dms
        ≡ writing
            (pos req.target.slot)
            []
            (λ dm. set_values_device decode authorization_enabled (some vs) req dm)
            dms
  unfolding multi_set_value_body
  same_body vs dms =
      ap (λ body. writing (pos req.target.slot) [] body dms) (fun_ext (λ dm. same_device vs dm))

-- The answer with the status, and no body.
abbrev pub status_response : Request → StatusCode → Response
status_response req rc = record {
  http_status = code_map rc;
  origin = req.heading.origin;
  body = [];
}

respond_status-settled :
    (req : Request) (m : Outcome (StatusCode × List ℕ))
    → respond_status req (settled unknown [] m)
      ≡ Option.map (λ rc. status_response req rc ∷ []) (status_of (answer m))
unfolding respond_status settled answer send_responses send_response
respond_status-settled req (returns (rc, r)) = elim (Bool-cases (is_ok rc)) [
  | inl good ↦ rw (is_ok-true rc good) refl
  | inr bad ↦ rw bad (elim (Bool-cases (leb 300 (code_map rc).0)) [
    | inl failed ↦ rw failed refl
    | inr fine ↦ rw fine refl
  ])
]
respond_status-settled req (throws (with_status rc)) = elim (Bool-cases (leb 300 (code_map rc).0)) [
  | inl failed ↦ rw failed refl
  | inr fine ↦ rw fine refl
]
respond_status-settled req (throws std_exception) = refl
respond_status-settled req (throws null_dereference) = refl

-- A REST request to set values does to the devices what the gRPC call for the same values, slot and token
-- does, and is answered by the HTTP status that stands for the status of that call, without a body.
pub set_values_answer-multi_set_value_body :
    (decode : Text → Option (List (Text × Claim))) (authorization_enabled : Bool)
    (to_multi : Request → Option (List SetValue)) (req : Request) (vs : List SetValue)
    (dms : Devices)
    → to_multi req ≡ some vs
    → let call =
        multi_set_value_body decode
          (same_client authorization_enabled req)
          (pos req.target.slot)
          vs
          dms in
      let answered = set_values_answer decode authorization_enabled to_multi req dms in
      (respond_status req answered.0
        ≡ Option.map (λ rc. status_response req rc ∷ []) (status_of (answer call.0)))
      × (answered.1 ≡ call.1)
unfolding set_values_answer
set_values_answer-multi_set_value_body decode authorization_enabled to_multi req vs dms h =
    rw (same_body decode authorization_enabled req vs dms, h) (respond_status-settled req _, refl)
