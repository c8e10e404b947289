-- ===== src/Rpc.antt =====
-- sdks/cpp/connections/gRPC/include/CallData.h, and the state machine that the controllers of the
-- unary calls under src/controllers share.
--
-- What a controller asks of gRPC and of the service is a list of actions; gRPC calls `proceed` again
-- for each with whether it went well. `S` is the state that the calls share, `R` a call's response.
pub mod Controllers
pub mod Lifecycle
pub mod Slots
pub mod Streams
pub mod Closing
pub mod Streaming
pub mod Commands
pub mod Ending
pub mod Infos
pub mod Objects
pub mod Service
pub mod Pushing
pub mod Pushed
pub mod Sending
use catena.Base.{
  ℕ, Bool, true, false, List, [], ◌∷◌, Option, none, some, if◌then◌else◌, drop, length,
}
use catena.Base.Text.{Text, txt, lookup, starts_with}
use catena.Status.{
  StatusCode, is_ok, internal, unknown, unauthenticated, Outcome, returns, throws, with_status,
  std_exception, null_dereference, ◌>>=◌,
}
use catena.Authorizer.{Authorizer, Claim, authorizer, authz_disabled}

pub data CallStatus : Type 0 where
  create process read write post_write finish : CallStatus

-- What a call of `proceed` asks for: `respond` is the answer of a unary call, `send` a message of a
-- stream, `complete` its end, and `emit_shutdown` the signal that shuts the connections down. `crash` stands for a call through a null pointer.
pub data Action (R : Type 0) : Type 0 where
  request : Action R
  spawn : Bool → Action R
  notify_when_done : Action R
  respond : R → Action R
  respond_error : StatusCode → Action R
  send : R → Action R
  complete : Action R
  emit_shutdown : Action R
  deregister : Action R
  crash : Action R

-- The constructor's state.
unfoldable pub initial_status : Bool → CallStatus
initial_status ok = if ok then create else finish

-- The handlers of exceptions round the body of a call, and the answer.
unfoldable pub answer : {R : Type 0} → Outcome (StatusCode × R) → Action R
answer (returns (rc, r)) = if is_ok rc then respond r else respond_error rc
answer (throws (with_status rc)) = respond_error rc
answer (throws std_exception) = respond_error unknown
answer (throws null_dereference) = crash

module _ {R S : Type 0} (handle : S → Outcome (StatusCode × R) × S) where
  -- `proceed`, with the body of `kProcess` as an argument.
  unfoldable pub proceed : Bool → CallStatus → S → CallStatus × (S × List (Action R))
  unfolding answer
  proceed ok status s = elim (if ok then status else finish) [
    | create ↦ (process, (s, request ∷ []))
    | process ↦
        let (result, s') = handle s in
        (finish, (s', spawn ok ∷ notify_when_done ∷ answer result ∷ []))
    | finish ↦ (finish, (s, deregister ∷ []))
    | _ ↦ (finish, (s, respond_error internal ∷ []))
  ]

-- What a call has from its client: `metadata` is that of the context, `none` a null pointer.
pub record Context : Type 0 where
  pub authorization_enabled : Bool
  pub metadata : Option (List (Text × Text))

-- `jwsToken_`
unfoldable pub jws_token : Context → Outcome Text
jws_token ctx =
    if ctx.authorization_enabled
    then elim ctx.metadata [
      | none ↦ throws (with_status unauthenticated)
      | some meta ↦ elim (lookup (txt "authorization") meta) [
        | none ↦ throws (with_status unauthenticated)
        | some bearer ↦
            if starts_with bearer (txt "Bearer ")
            then returns (drop (length (txt "Bearer ")) bearer)
            else throws (with_status unauthenticated)
      ]
    ]
    else returns []

-- How every controller comes by its authorizer; `decode` is the JWT library's.
unfoldable pub client_authorizer :
    (Text → Option (List (Text × Claim))) → Context → Outcome Authorizer
unfolding jws_token
client_authorizer decode ctx =
    if ctx.authorization_enabled
    then (jws_token ctx >>= λ token. authorizer (decode token))
    else returns authz_disabled
