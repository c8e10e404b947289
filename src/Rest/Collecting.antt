-- ===== src/Rest/Collecting.antt =====
-- sdks/cpp/connections/REST/src/controllers/ParamInfoRequest.cpp: the three modes of the request, its
-- visitor, and the responses that they collect.
--
-- A traversal of the visitor that runs out of fuel stands for a stack that overflows.
use catena.Base.{ℕ, Bool, true, false, ◌||◌, List, [], ◌∷◌, ◌++◌, ltb, if◌then◌else◌}
use catena.Base.Text.{Text, eqb}
use catena.Status.{StatusCode, ok, is_ok, not_found, Outcome, returns, throws, null_dereference}
use catena.Authorizer.{Authorizer}
use catena.Params.{is_array_type}
use catena.Device.{Device}
use catena.Device.Lookup.{Target, absent, present, get_param_at, get_top_level_params}
use catena.Visitor.{
  Walked, out_of_fuel, thrown, walked, next, array_length, Visitor, traverse_params,
}
use catena.Rpc.Infos.{ParamInfo, info_to_proto}

-- `addParamToResponses_`
unfoldable pub add_response : Target → Authorizer → List ParamInfo → List ParamInfo
unfolding info_to_proto
add_response t authz responses = responses ++ info_to_proto t authz ∷ []

-- `updateArrayLengths_`, with its loop over all responses.
unfoldable pub lengthen : Text → ℕ → List ParamInfo → List ParamInfo
lengthen name length [] = []
lengthen name length (r ∷ rs) =
    (if eqb r.oid name then record r { array_length = length } else r) ∷ lengthen name length rs

unfoldable pub lengthen_responses : Text → ℕ → List ParamInfo → List ParamInfo
unfolding lengthen
lengthen_responses name length responses =
    if ltb 0 length then lengthen name length responses else responses

-- The length of an array that was just added.
unfoldable pub with_length : Target → List ParamInfo → List ParamInfo
unfolding lengthen_responses array_length is_array_type
with_length t responses =
    if is_array_type t.descriptor.own.type
    then (if ltb 0 (array_length t)
        then lengthen_responses t.descriptor.own.oid (array_length t) responses
        else responses)
    else responses

-- `ParamInfoVisitor`
unfoldable pub rest_info_visitor : Text → Authorizer → Visitor (List ParamInfo)
unfolding add_response lengthen_responses is_array_type
rest_info_visitor fqoid authz = record {
  visit = λ t path responses.
      (let is_top = eqb path fqoid || eqb path (b'/' ∷ t.descriptor.own.oid) in
        let is_array = is_array_type t.descriptor.own.type in
        if is_top || is_array then walked responses else walked (add_response t authz responses));
  visit_array = λ t path length responses.
      (let is_top = eqb path fqoid || eqb path (b'/' ∷ t.descriptor.own.oid) in
        let added = add_response t authz responses in
        if is_top
        then walked responses
        else if ltb 0 length
        then walked (lengthen_responses t.descriptor.own.oid length added)
        else walked added);
}

-- The loops of the first two modes over the parameters of the top level.
unfoldable pub plain_infos : Authorizer → List Target → List ParamInfo → List ParamInfo
unfolding add_response with_length
plain_infos authz [] responses = responses
plain_infos authz (t ∷ ts) responses =
    plain_infos authz ts (with_length t (add_response t authz responses))

unfoldable pub deep_infos :
    ℕ → Text → Device → Authorizer → List Target → List ParamInfo → Walked (List ParamInfo)
unfolding add_response with_length rest_info_visitor traverse_params next
deep_infos fuel fqoid d authz [] responses = walked responses
deep_infos fuel fqoid d authz (t ∷ ts) responses =
    next
      (traverse_params d authz (rest_info_visitor fqoid authz) fuel t (b'/' ∷ t.descriptor.own.oid)
        (with_length t (add_response t authz responses)))
      (deep_infos fuel fqoid d authz ts)

abbrev pub collected : Walked (List ParamInfo) → Outcome (StatusCode × List ParamInfo)
collected out_of_fuel = throws null_dereference
collected (thrown e responses) = throws e
collected (walked responses) = returns (ok, responses)

-- What both of these modes do around the loop.
abbrev pub top_level :
    Device
    → Authorizer
    → (List Target → Outcome (StatusCode × List ParamInfo))
    → Outcome (StatusCode × List ParamInfo)
top_level d authz loop = elim (get_top_level_params d authz ok d.params) [
  | throws e ↦ throws e
  | returns (rc, targets) ↦
      if is_ok rc
      then (elim targets [ [] ↦ returns (not_found, []) | t ∷ ts ↦ loop (t ∷ ts) ])
      else returns (rc, [])
]

unfoldable pub mode_plain : Device → Authorizer → Outcome (StatusCode × List ParamInfo)
unfolding get_top_level_params plain_infos
mode_plain d authz = top_level d authz λ ts. returns (ok, plain_infos authz ts [])

unfoldable pub mode_deep : ℕ → Device → Authorizer → Outcome (StatusCode × List ParamInfo)
unfolding get_top_level_params deep_infos
mode_deep fuel d authz = top_level d authz λ ts. collected (deep_infos fuel [] d authz ts [])

-- One parameter, with what is below it if the request is recursive.
unfoldable pub mode_one :
    ℕ → Text → Bool → Device → Authorizer → Outcome (StatusCode × List ParamInfo)
unfolding get_param_at add_response with_length rest_info_visitor traverse_params
mode_one fuel fqoid recursive d authz = elim (get_param_at d fqoid authz) [
  | absent rc ↦ returns (rc, [])
  | present t ↦
      let first = with_length t (add_response t authz []) in
      if recursive
      then collected (traverse_params d authz (rest_info_visitor fqoid authz) fuel t fqoid first)
      else returns (ok, first)
]

unfoldable pub rest_infos :
    ℕ → Text → Bool → Device → Authorizer → Outcome (StatusCode × List ParamInfo)
unfolding mode_plain mode_deep mode_one
rest_infos fuel [] false d authz = mode_plain d authz
rest_infos fuel [] true d authz = mode_deep fuel d authz
rest_infos fuel (c ∷ fqoid) recursive d authz = mode_one fuel (c ∷ fqoid) recursive d authz
