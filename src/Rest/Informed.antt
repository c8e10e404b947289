-- ===== src/Rest/Informed.antt =====
-- The REST and the gRPC request for information about parameters, for the same path and token.
use mathlib.Core.Path.{fun_ext}
use catena.Base.{sym, ◌∙◌, ℕ, ◌≡◌, ap, Bool, false, List, [], Option, arith}
use catena.Base.Int.{ℤ, pos}
use catena.Base.Text.{Text}
use catena.Status.{StatusCode, ok, internal, Outcome, returns, ◌>>=◌}
use catena.Authorizer.{Claim, Authorizer}
use catena.Rpc.{Context, client_authorizer}
use catena.Rpc.Controllers.{reading}
use catena.Device.{Device}
use catena.Rpc.Streaming.{Service, with_device}
use catena.Rpc.Infos.{collect_infos, info_body}
use catena.Rest.{Request}
use catena.Rest.Controllers.{settled, rest_authorizer}
use catena.Rest.Infos.{is_recursive, is_refused, infos_device, infos_answer}
use catena.Rest.Collected.{rest_infos-collect_infos}
use catena.Rest.Agreement.{same_client, same_authorizer}

-- A stream's body that leaves the subscriptions alone is one that only reads.
with_device-reading :
    {W : Type 0} (decode : Text → Option (List (Text × Claim))) (ctx : Context) (slot : ℤ)
    (idle : W) (f : Device → Authorizer → Outcome (StatusCode × W)) (service : Service)
    → (with_device decode ctx slot idle (λ d. returns ok) (λ n d authz s. (f d authz, s)) service).0
      ≡ (reading slot idle (λ d. client_authorizer decode ctx >>= f d) service.0).0
unfolding with_device
with_device-reading decode ctx slot idle f (dms, s) = ground arith

same_infos :
    (decode : Text → Option (List (Text × Claim))) (authorization_enabled : Bool) (fuel : ℕ)
    (req : Request)
    → is_refused req ≡ false
    → (d : Device)
    → infos_device decode authorization_enabled fuel req d ≡ (
        client_authorizer decode (same_client authorization_enabled req)
        >>= collect_infos fuel req.target.fqoid (is_recursive req) d)
unfolding infos_device
same_infos decode authorization_enabled fuel req allowed d =
    rw (infos_device, allowed, same_authorizer decode authorization_enabled req)
      (ap (λ f. rest_authorizer decode authorization_enabled req >>= f)
        (fun_ext
          λ authz. rest_infos-collect_infos fuel req.target.fqoid (is_recursive req) d authz))

-- Its three modes are code of their own, yet a REST request for information that is not refused comes to what the body of the gRPC call for the same
-- slot, OID and token comes to, behind REST's handlers of exceptions: the same responses with the same
-- status.
pub infos_answer-info_body :
    (decode : Text → Option (List (Text × Claim))) (authorization_enabled : Bool) (fuel : ℕ)
    (req : Request) (service : Service)
    → is_refused req ≡ false
    → infos_answer decode authorization_enabled fuel req service.0
      ≡ settled internal [] (
          (info_body decode
            (same_client authorization_enabled req)
            fuel
            (pos req.target.slot)
            req.target.fqoid
            (is_recursive req)
            service).0)
unfolding infos_answer info_body
infos_answer-info_body decode authorization_enabled fuel req service allowed =
    ap (settled internal []) (
      ap (λ body. (reading (pos req.target.slot) [] body service.0).0)
        (fun_ext (same_infos decode authorization_enabled fuel req allowed))
      ∙ sym (
          with_device-reading decode (same_client authorization_enabled req) (pos req.target.slot)
            [] (collect_infos fuel req.target.fqoid (is_recursive req)) service))
