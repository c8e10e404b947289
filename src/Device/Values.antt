-- ===== src/Device/Values.antt =====
-- Device.cpp: `getValue`, `setValue`, `tryMultiSetValue` and `commitMultiSetValue`.
--
-- Every parameter that `getParam` hands out is a copy with no trackers of its own, so each value is
-- validated with none, and `resetValidate` changes nothing that is read again.
use catena.Base.{
  ℕ, Bool, true, ◌&&◌, ◌||◌, not, List, [], ◌∷◌, ◌++◌, Option, none, some, if◌then◌else◌, ltb, ◌==◌,
  any, length,
}
use catena.Base.Text.{Text, txt, lookup, insert, starts_with, ends_with}
use catena.Status.{
  StatusCode, ok, is_ok, invalid_argument, permission_denied, out_of_range, Outcome, returns,
  throws, with_status, null_dereference, ◌>>=◌,
}
use catena.Proto.{ProtoValue}
use catena.Authorizer.{Authorizer}
use catena.ParamPath.{
  ParamPath, parse, back_is_index, back_as_index, pop_back, push_back_index, k_end, k_none,
}
use catena.Params.Stored.{
  Stored, size, to_proto, from_proto, member, set_member, add_back, no_trackers, validate_set_value,
}
use catena.Device.{Device}
use catena.Device.Lookup.{Target, absent, present, find_param, get_param, caught}

-- `st2138::SetValuePayload`
pub record SetValue : Type 0 where
  pub oid : Text
  pub value : ProtoValue

-- The test for overlapping actions.
unfoldable pub overlaps : Text → Text → Bool
overlaps oid new =
    not (ends_with oid (txt "/-") && ends_with new (txt "/-"))
    && (starts_with oid new || starts_with new oid)

-- The path of the parameter, or of the parent where the last segment is an index, and the index.
abbrev pub owner : ParamPath → ParamPath × ℕ
owner path = if back_is_index path then (pop_back path, back_as_index path) else (path, k_none)

-- `validateSetValue` of the parameter that is found.
unfoldable pub validate_at : Device → Authorizer → ProtoValue → ParamPath → ℕ → Outcome StatusCode
unfolding get_param validate_set_value
validate_at d authz src parent index = elim ((get_param d parent authz).0) [
  | absent rc ↦ returns rc
  | present t ↦ do
    r ← validate_set_value t.value src index t.descriptor authz no_trackers
    returns r.0
]

-- One round of `tryMultiSetValue` after the test for overlaps.
unfoldable pub validate_one : Device → Authorizer → SetValue → Outcome StatusCode
unfolding validate_at
validate_one d authz v =
    parse v.oid >>= λ path. validate_at d authz v.value ((owner path).0) ((owner path).1)

-- The loop of `tryMultiSetValue`: the status, and the OIDs that were to be set.
unfoldable pub try_values :
    Device → Authorizer → StatusCode → List Text → List SetValue → Outcome (StatusCode × List Text)
unfolding overlaps validate_one
try_values d authz ans affected [] = returns (ans, affected)
try_values d authz ans affected (v ∷ vs) =
    let now = if any (λ oid. overlaps oid v.oid) affected then invalid_argument else ans in
    let skipped = try_values d authz now affected vs in
    let next = try_values d authz ok (affected ++ v.oid ∷ []) vs in
    if is_ok now
    then elim (validate_one d authz v) [
      | returns rc ↦ if is_ok rc then next else returns (rc, affected ++ v.oid ∷ [])
      | throws (with_status rc) ↦ returns (rc, affected ++ v.oid ∷ [])
      | throws e ↦ throws e
    ]
    else skipped

-- The loop that resets the trackers: what it does is to parse the OIDs again, under no handler.
unfoldable pub reset_values : List Text → Outcome Bool
reset_values [] = returns true
reset_values (oid ∷ oids) = parse oid >>= λ path. reset_values oids

-- `tryMultiSetValue`: the status that `ans` is left with; the result is whether it is `OK`.
unfoldable pub try_multi_set_value :
    Device → List SetValue → StatusCode → Authorizer → Outcome StatusCode
unfolding try_values reset_values
try_multi_set_value d vs ans authz =
    if ltb 1 (length vs) && not d.multi_set_enabled
    then returns permission_denied
    else do (rc, affected) ← try_values d authz ans [] vs; _ ← reset_values affected; returns rc

-- What is written through the parameter that the code holds.
unfoldable pub store : Target → Stored → Device → Device
store t v d = elim (lookup t.name d.params) [
  | none ↦ d
  | some p ↦ record d {
    params =
        insert t.name
          (record p { value = elim t.index [ none ↦ v | some i ↦ set_member p.value i v ] })
          d.params;
  }
]

-- `param->fromProto(...)`, and the signal.
unfoldable pub write_value : Device → Target → SetValue → Authorizer → StatusCode × Device
unfolding store
write_value d t v authz =
    let (rc, new) = from_proto v.value t.value t.descriptor authz in
    let stored = store t new d in (rc, record stored { emitted = stored.emitted ++ v.oid ∷ [] })

-- The branch of `commitMultiSetValue` for a path that ends in an index.
unfoldable pub commit_member :
    Device → Authorizer → SetValue → Target → ℕ → ParamPath → Outcome StatusCode × Device
unfolding find_param write_value store
commit_member d authz v parent i path =
    if i == k_end
    then elim ((add_back parent.value parent.descriptor authz).1) [
      | none ↦ (throws null_dereference, d)
      | some longer ↦ elim (member longer (size parent.value)) [
        | none ↦ (throws null_dereference, store parent longer d)
        | some new ↦
            let (rc, d') =
              write_value (store parent longer d)
                (record parent { index = some (size parent.value); value = new }) v authz in
            (returns rc, d')
      ]
    ]
    else elim ((find_param parent (push_back_index i path) authz).0) [
      | absent rc ↦ (throws null_dereference, d)
      | present t ↦ let (rc, d') = write_value d t v authz in (returns rc, d')
    ]

-- The body of the loop of `commitMultiSetValue`.
unfoldable pub commit_one : Device → Authorizer → SetValue → Outcome StatusCode × Device
unfolding get_param commit_member write_value
commit_one d authz v = elim (parse v.oid) [
  | throws e ↦ (throws e, d)
  | returns path ↦
      if back_is_index path
      then (let (found, rest) = get_param d (pop_back path) authz in
          elim found [
            | absent rc ↦ (throws null_dereference, d)
            | present parent ↦ commit_member d authz v parent (back_as_index path) rest
          ])
      else elim ((get_param d path authz).0) [
        | absent rc ↦ (throws null_dereference, d)
        | present t ↦ let (rc, d') = write_value d t v authz in (returns rc, d')
      ]
]

-- `commitMultiSetValue`; a status of one value that is not `OK` is that of the next one's.
unfoldable pub commit_multi_set_value :
    Device → List SetValue → StatusCode → Authorizer → Outcome StatusCode × Device
unfolding commit_one
commit_multi_set_value d [] ans authz = (returns ans, d)
commit_multi_set_value d (v ∷ vs) ans authz =
    let (r, d') = commit_one d authz v in
    elim r [
      | returns rc ↦ commit_multi_set_value d' vs rc authz
      | throws (with_status rc) ↦ (returns rc, d')
      | throws e ↦ (throws e, d')
    ]

-- `setValue`
unfoldable pub set_value : Device → Text → ProtoValue → Authorizer → Outcome StatusCode × Device
unfolding try_multi_set_value commit_multi_set_value
set_value d jptr src authz =
    let vs : List SetValue = record { oid = jptr; value = src } ∷ [] in
    elim (try_multi_set_value d vs ok authz) [
      | throws e ↦ (throws e, d)
      | returns rc ↦ if is_ok rc then commit_multi_set_value d vs ok authz else (returns rc, d)
    ]

-- `getValue`: the status, and the message if it was set.
unfoldable pub get_value : Device → Text → Authorizer → StatusCode × Option ProtoValue
unfolding get_param
get_value d jptr authz = elim (parse jptr) [
  | throws e ↦ (caught e, none)
  | returns path ↦
      if back_is_index path && back_as_index path == k_end
      then (out_of_range, none)
      else elim ((get_param d path authz).0) [
        | absent rc ↦ (rc, none)
        | present t ↦ to_proto t.value t.descriptor authz
      ]
]
