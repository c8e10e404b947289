-- ===== src/Rpc/Infos.antt =====
-- sdks/cpp/connections/gRPC/src/controllers/ParamInfoRequest.cpp, and `toProto` of a descriptor into
-- the information about a parameter.
--
-- A traversal of the visitor that runs out of fuel stands for a stack that overflows.
use catena.Base.{ℕ, Bool, true, false, ◌||◌, List, [], ◌∷◌, ◌++◌, map, Option, ltb, if◌then◌else◌}
use catena.Base.Int.{ℤ}
use catena.Base.Text.{Text, eqb}
use catena.Status.{StatusCode, ok, is_ok, not_found, Outcome, returns, throws, null_dereference}
use catena.Authorizer.{Authorizer, Claim}
use catena.Params.{ParamType, undefined_type, can_read, is_array_type}
use catena.Device.{Device}
use catena.Device.Lookup.{Target, absent, present, get_param_at, get_top_level_params}
use catena.Visitor.{
  Walked, out_of_fuel, thrown, walked, next, array_length, Visitor, traverse_params,
}
use catena.Rpc.{Context}
use catena.Rpc.Streaming.{Service, with_device}
use catena.Rpc.Streams.{Round, sends, fails}

-- `st2138::ParamInfoResponse`: an empty name and no type where the client may not read.
pub record ParamInfo : Type 0 where
  pub oid : Text
  pub type : ParamType
  pub array_length : ℕ

unfoldable pub info_to_proto : Target → Authorizer → ParamInfo
info_to_proto t authz =
    if can_read authz t.descriptor
    then record { oid = t.descriptor.own.oid; type = t.descriptor.own.type; array_length = 0 }
    else record { oid = []; type = undefined_type; array_length = 0 }

-- `addParamToResponses`
unfoldable pub add_param : Target → Authorizer → List ParamInfo → List ParamInfo
unfolding info_to_proto
add_param t authz responses = responses ++ info_to_proto t authz ∷ []

-- `updateArrayLengths_`: every response with the name of the array.
unfoldable pub update_array_lengths : Text → ℕ → List ParamInfo → List ParamInfo
update_array_lengths name length responses =
    if ltb 0 length
    then map (λ r. if eqb r.oid name then record r { array_length = length } else r) responses
    else responses

-- What is done for a parameter that the request names, or for one of the top level.
unfoldable pub add_top : Target → Authorizer → List ParamInfo → List ParamInfo
unfolding add_param update_array_lengths array_length is_array_type
add_top t authz responses =
    let added = add_param t authz responses in
    if is_array_type t.descriptor.own.type
    then update_array_lengths t.descriptor.own.oid (array_length t) added
    else added

-- `isTopParameter`
unfoldable pub is_top : Text → Target → Text → Bool
is_top oid_prefix t path = eqb path oid_prefix || eqb path (b'/' ∷ t.descriptor.own.oid)

-- `ParamInfoVisitor`
unfoldable pub param_info_visitor : Text → Authorizer → Visitor (List ParamInfo)
unfolding is_top add_param update_array_lengths is_array_type
param_info_visitor oid_prefix authz = record {
  visit = λ t path responses.
      (if is_top oid_prefix t path || is_array_type t.descriptor.own.type
        then walked responses
        else walked (add_param t authz responses));
  visit_array = λ t path length responses.
      (if is_top oid_prefix t path
        then walked responses
        else walked
            (update_array_lengths t.descriptor.own.oid length (add_param t authz responses)));
}

-- The loop over the parameters of the top level, with the traversal where the request is recursive.
unfoldable pub top_infos :
    ℕ → Bool → Device → Authorizer → List Target → List ParamInfo → Walked (List ParamInfo)
unfolding add_top param_info_visitor traverse_params next
top_infos fuel recursive d authz [] responses = walked responses
top_infos fuel recursive d authz (t ∷ ts) responses =
    let added = add_top t authz responses in
    next
      (if recursive
        then traverse_params d authz (param_info_visitor [] authz) fuel t
            (b'/' ∷ t.descriptor.own.oid) added
        else walked added)
      (top_infos fuel recursive d authz ts)

abbrev pub infos_of : Walked (List ParamInfo) → Outcome (StatusCode × List ParamInfo)
infos_of out_of_fuel = throws null_dereference
infos_of (thrown e responses) = throws e
infos_of (walked responses) = returns (ok, responses)

-- The three modes of the request.
unfoldable pub collect_infos :
    ℕ → Text → Bool → Device → Authorizer → Outcome (StatusCode × List ParamInfo)
unfolding get_param_at get_top_level_params top_infos add_top param_info_visitor traverse_params
collect_infos fuel [] recursive d authz = elim (get_top_level_params d authz ok d.params) [
  | throws e ↦ throws e
  | returns (rc, targets) ↦
      if is_ok rc
      then (elim targets [
        | [] ↦ returns (not_found, [])
        | t ∷ ts ↦ infos_of (top_infos fuel recursive d authz (t ∷ ts) [])
      ])
      else returns (rc, [])
]
collect_infos fuel (c ∷ oid_prefix) recursive d authz =
    elim (get_param_at d (c ∷ oid_prefix) authz) [
      | absent rc ↦ returns (rc, [])
      | present t ↦
          let added = add_top t authz [] in
          if recursive
          then infos_of (
              traverse_params d authz (param_info_visitor (c ∷ oid_prefix) authz) fuel t
                (c ∷ oid_prefix) added)
          else returns (ok, added)
    ]

unfoldable pub info_body :
    (Text → Option (List (Text × Claim)))
    → Context
    → ℕ
    → ℤ
    → Text
    → Bool
    → Service
    → Outcome (StatusCode × List ParamInfo) × Service
unfolding with_device collect_infos
info_body decode ctx fuel slot oid_prefix recursive =
    with_device decode ctx slot [] (λ d. returns ok)
      λ n d authz s. (collect_infos fuel oid_prefix recursive d authz, s)

-- `kWrite`: the responses from `current_response_` on; `at` throws behind the last.
unfoldable pub info_round : Service → List ParamInfo → Round (List ParamInfo) ParamInfo
info_round s [] = fails null_dereference []
info_round s (r ∷ []) = sends r false []
info_round s (r ∷ q ∷ rest) = sends r true (q ∷ rest)
