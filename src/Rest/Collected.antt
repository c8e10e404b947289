-- ===== src/Rest/Collected.antt =====
-- The information about parameters that the two connections collect, each by code of its own.
use mathlib.Core.Path.{fun_ext}
use catena.Base.{
  ℕ, ◌≡◌, refl, sym, ap, ◌∙◌, Bool, true, false, ◌||◌, List, [], ◌∷◌, map, ltb, if◌then◌else◌,
  Bool-cases, inl, inr,
}
use catena.Base.Text.{Text, eqb}
use catena.Status.{StatusCode, ok, Outcome, returns}
use catena.Authorizer.{Authorizer}
use catena.Params.{is_array_type}
use catena.Device.{Device}
use catena.Device.Lookup.{Target, absent, present, get_param_at}
use catena.Visitor.{Walked, out_of_fuel, thrown, walked, next, array_length, traverse_params}
use catena.Rpc.Infos.{
  ParamInfo, add_param, update_array_lengths, add_top, is_top, param_info_visitor, top_infos,
  infos_of, collect_infos,
}
use catena.Rest.Collecting.{
  add_response, lengthen, with_length, rest_info_visitor, plain_infos, deep_infos, collected,
  top_level, mode_plain, mode_deep, mode_one, rest_infos,
}

lengthen-map :
    (name : Text) (n : ℕ) (rs : List ParamInfo)
    → lengthen name n rs ≡ map (λ r. if eqb r.oid name then record r { array_length = n } else r) rs
unfolding lengthen
lengthen-map name n [] = refl
lengthen-map name n (r ∷ rs) =
    ap (λ rest. (if eqb r.oid name then record r { array_length = n } else r) ∷ rest)
      (lengthen-map name n rs)

same_top :
    (t : Target) (authz : Authorizer) (rs : List ParamInfo)
    → with_length t (add_response t authz rs) ≡ add_top t authz rs
unfolding with_length add_response add_top add_param
same_top t authz rs = elim (Bool-cases (is_array_type t.descriptor.own.type)) [
  | inr single ↦ rw single refl
  | inl array ↦ elim (Bool-cases (ltb 0 (array_length t))) [
    | inl some_there ↦
        rw (array, some_there)
          (lengthen-map t.descriptor.own.oid (array_length t) (add_param t authz rs))
    | inr none_there ↦ rw (array, none_there, update_array_lengths) refl
  ]
]

same_visit_array :
    (fqoid : Text) (authz : Authorizer) (t : Target) (path : Text) (n : ℕ) (rs : List ParamInfo)
    → (rest_info_visitor fqoid authz).visit_array t path n rs
      ≡ (param_info_visitor fqoid authz).visit_array t path n rs
unfolding rest_info_visitor param_info_visitor is_top add_response add_param
same_visit_array fqoid authz t path n rs =
    elim (Bool-cases (eqb path fqoid || eqb path (b'/' ∷ t.descriptor.own.oid))) [
      | inl top ↦ rw top refl
      | inr other ↦ elim (Bool-cases (ltb 0 n)) [
        | inl some_there ↦
            rw (other, some_there)
              (ap walked (lengthen-map t.descriptor.own.oid n (add_param t authz rs)))
        | inr none_there ↦ rw (other, none_there, update_array_lengths) refl
      ]
    ]

same_visitor :
    (fqoid : Text) (authz : Authorizer)
    → rest_info_visitor fqoid authz ≡ param_info_visitor fqoid authz
unfolding rest_info_visitor param_info_visitor is_top add_response add_param
same_visitor fqoid authz =
    ap (λ f. record (param_info_visitor fqoid authz) { visit_array = f })
      (fun_ext
        λ t. fun_ext λ path. fun_ext λ n. fun_ext λ rs. same_visit_array fqoid authz t path n rs)

same_plain :
    (fuel : ℕ) (d : Device) (authz : Authorizer) (ts : List Target) (rs : List ParamInfo)
    → top_infos fuel false d authz ts rs ≡ walked (plain_infos authz ts rs)
unfolding top_infos plain_infos next
same_plain fuel d authz [] rs = refl
same_plain fuel d authz (t ∷ ts) rs =
    rw (same_top t authz rs) (same_plain fuel d authz ts (add_top t authz rs))

same_deep :
    (fuel : ℕ) (d : Device) (authz : Authorizer) (ts : List Target) (rs : List ParamInfo)
    → deep_infos fuel [] d authz ts rs ≡ top_infos fuel true d authz ts rs
unfolding top_infos deep_infos
same_deep fuel d authz [] rs = refl
same_deep fuel d authz (t ∷ ts) rs =
    rw (same_top t authz rs, same_visitor [] authz)
      (ap
        (next (
          traverse_params d authz (param_info_visitor [] authz) fuel t (b'/' ∷ t.descriptor.own.oid)
            (add_top t authz rs)))
        (fun_ext (same_deep fuel d authz ts)))

gathered : (w : Walked (List ParamInfo)) → collected w ≡ infos_of w
gathered out_of_fuel = refl
gathered (thrown e responses) = refl
gathered (walked responses) = refl

top_level-collect_infos :
    (fuel : ℕ) (recursive : Bool) (d : Device) (authz : Authorizer)
    → top_level d authz (λ ts. infos_of (top_infos fuel recursive d authz ts []))
      ≡ collect_infos fuel [] recursive d authz
unfolding collect_infos
top_level-collect_infos fuel recursive d authz = refl

same_one :
    (fuel : ℕ) (fqoid : Text) (recursive : Bool) (d : Device) (authz : Authorizer) (t : Target)
    → (let first = with_length t (add_response t authz []) in
        if recursive
        then collected (traverse_params d authz (rest_info_visitor fqoid authz) fuel t fqoid first)
        else returns (ok, first))
      ≡ (let added = add_top t authz [] in
          if recursive
          then infos_of
              (traverse_params d authz (param_info_visitor fqoid authz) fuel t fqoid added)
          else returns (ok, added))
same_one fuel fqoid false d authz t = rw (same_top t authz []) refl
same_one fuel fqoid true d authz t = rw (same_top t authz [], same_visitor fqoid authz) (gathered _)

-- The modes of the REST request collect what those of the gRPC request do.
pub rest_infos-collect_infos :
    (fuel : ℕ) (fqoid : Text) (recursive : Bool) (d : Device) (authz : Authorizer)
    → rest_infos fuel fqoid recursive d authz ≡ collect_infos fuel fqoid recursive d authz
unfolding rest_infos mode_plain mode_deep mode_one collect_infos
rest_infos-collect_infos fuel [] false d authz =
    ap (top_level d authz) (fun_ext λ ts. ap infos_of (sym (same_plain fuel d authz ts [])))
    ∙ top_level-collect_infos fuel false d authz
rest_infos-collect_infos fuel [] true d authz =
    ap (top_level d authz) (fun_ext λ ts. gathered _ ∙ ap infos_of (same_deep fuel d authz ts []))
    ∙ top_level-collect_infos fuel true d authz
rest_infos-collect_infos fuel (c ∷ fqoid) recursive d authz =
    ap
      (λ (f : Target → Outcome (StatusCode × List ParamInfo)).
        elim (get_param_at d (c ∷ fqoid) authz) as (λ x. Outcome (StatusCode × List ParamInfo)) [
          | absent rc ↦ returns (rc, [])
          | present t ↦ f t
        ])
      (fun_ext (same_one fuel (c ∷ fqoid) recursive d authz))
