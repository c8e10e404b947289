-- ===== src/Rest/Infos.antt =====
-- sdks/cpp/connections/REST/src/controllers/ParamInfoRequest.cpp: the guards before the three modes, which
-- Rest/Collecting has, and what is written.
use mathlib.Core.Option
use catena.Base.{ℕ, Bool, false, ◌&&◌, not, List, [], ◌∷◌, Option, none, some, if◌then◌else◌}
use catena.Base.Int.{pos}
use catena.Base.Text.{Text, txt, contains_key}
use catena.Status.{
  StatusCode, is_ok, internal, invalid_argument, Outcome, throws, with_status, ◌>>=◌,
}
use catena.Authorizer.{Claim}
use catena.Device.{Device}
use catena.Rpc.Controllers.{Devices, no_answer, reading}
use catena.Rpc.Infos.{ParamInfo}
use catena.Rest.Collecting.{rest_infos}
use catena.Rest.{Request}
use catena.Rest.Writer.{Response}
use catena.Rest.Events.{send_events}
use catena.Rest.Answers.{calls_of}
use catena.Rest.Controllers.{settled, rest_authorizer, respond, respond_status}
use catena.Rest.Streaming.{Written, in_one, as_events}

-- `recursive_`: the field's presence alone.
unfoldable pub is_recursive : Request → Bool
is_recursive req = contains_key (txt "recursive") req.fields

-- What is answered before the device is asked: one answer has no room for the children of a parameter,
-- nor for the parameters of the top level.
unfoldable pub is_refused : Request → Bool
unfolding is_recursive
is_refused req = elim req.target.fqoid [
  | [] ↦ not req.target.stream
  | c ∷ oid ↦ not req.target.stream && is_recursive req
]

module _ (decode : Text → Option (List (Text × Claim))) (authorization_enabled : Bool) where
  unfoldable pub infos_device : ℕ → Request → Device → Outcome (StatusCode × List ParamInfo)
  unfolding is_recursive is_refused rest_authorizer rest_infos
  infos_device fuel req d =
      if is_refused req
      then throws (with_status invalid_argument)
      else (rest_authorizer decode authorization_enabled req >>= λ authz.
          rest_infos fuel req.target.fqoid (is_recursive req) d authz)

  -- `none` where a traversal overflows the stack.
  unfoldable pub infos_answer : ℕ → Request → Devices → Option (StatusCode × List ParamInfo)
  unfolding infos_device settled
  infos_answer fuel req dms =
      settled internal [] ((reading (pos req.target.slot) [] (infos_device fuel req) dms).0)

-- Without a stream, the response goes out if there is only the one.
unfoldable pub only_response :
    (ParamInfo → Option Text) → Request → StatusCode → List ParamInfo → Option (List Response)
unfolding respond respond_status
only_response json req rc [] = respond_status req (some (rc, no_answer))
only_response json req rc (r ∷ []) = respond json req (some (rc, r))
only_response json req rc (r ∷ q ∷ rest) = respond_status req (some (rc, r ∷ q ∷ rest))

-- On a stream the responses go out one by one, and then the status.
unfoldable pub write_infos :
    (ParamInfo → Option Text) → Request → Option (StatusCode × List ParamInfo) → Option Written
unfolding send_events only_response
write_infos json req none = none
write_infos json req (some (rc, responses)) =
    if req.target.stream
    then some (
        as_events (
          send_events json (calls_of (if is_ok rc then responses else []) rc)
            (record { origin = req.heading.origin; headers_sent = false })))
    else Option.map in_one (only_response json req rc responses)

unfoldable pub param_info_proceed :
    (Text → Option (List (Text × Claim)))
    → Bool
    → ℕ
    → (ParamInfo → Option Text)
    → Request
    → Devices
    → Option Written
unfolding infos_answer write_infos
param_info_proceed decode authorization_enabled fuel json req dms =
    write_infos json req (infos_answer decode authorization_enabled fuel req dms)
