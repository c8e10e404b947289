-- ===== src/Rest/Service.antt =====
-- sdks/cpp/connections/REST/src/ServiceImpl.cpp: the routes, what the thread of a connection does, and the
-- loop of `run` with the count of the active requests.
pub mod Requests
use catena.Base.{
  ℕ, suc, ◌+◌, ◌-◌, ◌%◌, ◌^◌, ◌≡◌, ◌<◌, Bool, true, false, ◌&&◌, List, [], ◌∷◌, ◌++◌, map, Option,
  none, some, if◌then◌else◌,
}
use catena.Base.Text.{Text, txt, eqb, lookup, contains_key}
use catena.Status.{
  StatusCode, ok, is_ok, no_content, unimplemented, unavailable, Exception, with_status,
  std_exception, null_dereference, Outcome, returns, throws,
}
use catena.Rest.{method_name, get, options, eq_method, Request}

-- What `router_` makes.
pub data Controller : Type 0 where
  connect device_request execute_command asset_request populated_slots get_value multi_set_value :
      Controller
  set_value get_param language_pack languages param_info_request subscriptions : Controller

unfoldable pub routes : List (Text × Controller)
routes =
    (txt "GET/connect", connect)
    ∷ (txt "GET", device_request)
    ∷ (txt "POST/command", execute_command)
    ∷ (txt "GET/asset", asset_request)
    ∷ (txt "POST/asset", asset_request)
    ∷ (txt "PUT/asset", asset_request)
    ∷ (txt "DELETE/asset", asset_request)
    ∷ (txt "GET/devices", populated_slots)
    ∷ (txt "GET/value", get_value)
    ∷ (txt "PUT/values", multi_set_value)
    ∷ (txt "PUT/value", set_value)
    ∷ (txt "GET/param", get_param)
    ∷ (txt "GET/language-pack", language_pack)
    ∷ (txt "PUT/language-pack", language_pack)
    ∷ (txt "POST/language-pack", language_pack)
    ∷ (txt "DELETE/language-pack", language_pack)
    ∷ (txt "GET/languages", languages)
    ∷ (txt "GET/param-info", param_info_request)
    ∷ (txt "GET/subscriptions", subscriptions)
    ∷ (txt "PUT/subscriptions", subscriptions)
    ∷ []

abbrev pub request_key : Request → Text
request_key req = method_name req.method ++ req.target.endpoint

-- What is written to the socket: by the service, a status for an origin, or by a controller.
pub data Reply (W : Type 0) : Type 0 where
  by_service : StatusCode → Text → Reply W
  by_controller : W → Reply W

abbrev any_origin : Text
any_origin = txt "*"

-- The response behind the handlers, which is written where the status is not `OK`.
unfoldable pub final_reply : {W : Type 0} → StatusCode → List (Reply W)
final_reply rc = if is_ok rc then [] else by_service rc any_origin ∷ []

-- The handlers of exceptions; the status for one of the standard library goes by its type.
unfoldable pub handled : StatusCode → Exception → StatusCode
handled std (with_status rc) = rc
handled std _ = std

-- The thread of a connection: `context` is what the reader makes of it, and `run` a controller's `proceed`,
-- with the exception that leaves it.
unfoldable pub serve :
    {W S : Type 0}
    → StatusCode
    → (Controller → Request → S → (List W × Option Exception) × S)
    → Bool
    → Outcome Request
    → S
    → List (Reply W) × S
unfolding method_name routes final_reply handled
serve std run true context s = (final_reply unavailable, s)
serve std run false (throws e) s = (final_reply (handled std e), s)
serve std run false (returns req) s =
    if eq_method req.method options
    then (by_service no_content req.heading.origin ∷ final_reply no_content, s)
    else if eq_method req.method get && eqb req.target.endpoint (txt "/health")
    then (by_service ok req.heading.origin ∷ [], s)
    else elim (lookup (request_key req) routes) [
      | none ↦ (final_reply unimplemented, s)
      | some c ↦
          let ((written, thrown), s') = run c req s in
          (
            map by_controller written
                ++ (elim thrown [ none ↦ [] | some e ↦ final_reply (handled std e) ]),
            s',
          )
    ]

-- Where the thread of `run` stands: at the accept, behind the count of a connection whose thread is not
-- started, waiting for the active requests, or at the end.
pub data Phase : Type 0 where
  accepting counted waiting returned : Phase

-- `running` is how many threads of connections are at work.
pub record Server : Type 0 where
  pub phase : Phase
  pub shutdown : Bool
  pub active_requests : ℕ
  pub running : ℕ

abbrev pub started : Server
started = record { phase = accepting; shutdown = false; active_requests = 0; running = 0 }

-- A `uint32_t`.
abbrev pub wrap : ℕ → ℕ
wrap n = n % 4294967296

-- The steps of `run`, of the threads and of `Shutdown`. A connection is accepted also behind the flag, for
-- that of `Shutdown` itself; the system has no room for 2 ^ 32 threads.
pub data Step : Server → Server → Type 0 where
  accept :
      (s : Server)
      → s.phase ≡ accepting
      → s.running + 1 < 4294967296
      → Step s (record s { phase = counted; active_requests = wrap (s.active_requests + 1) })
  spawn :
      (s : Server)
      → s.phase ≡ counted
      → Step s
          (record s { phase = if s.shutdown then waiting else accepting; running = s.running + 1 })
  complete :
      (s : Server) (n : ℕ)
      → s.running ≡ suc n
      → Step s (record s { running = n; active_requests = wrap (s.active_requests + 4294967295) })
  shut_down : (s : Server) → Step s (record s { shutdown = true })
  leave :
      (s : Server)
      → s.phase ≡ waiting
      → s.active_requests ≡ 0
      → Step s (record s { phase = returned })

pub data Reach (s : Server) : Server → Type 0 where
  here : Reach s s
  next : {t u : Server} → Reach s t → Step t u → Reach s u
