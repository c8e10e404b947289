-- ===== src/Rest/Languages.antt =====
-- sdks/cpp/connections/REST/src/controllers: LanguagePack and Languages, as `proceed` with what it writes.
use catena.Base.{Bool, ◌&&◌, ◌||◌, not, List, [], ◌∷◌, Option, none, some, if◌then◌else◌}
use catena.Base.Int.{pos}
use catena.Base.Text.{Text, contains_key}
use catena.Status.{
  StatusCode, ok, internal, invalid_argument, not_found, permission_denied, unimplemented, Outcome,
  returns, throws, std_exception,
}
use catena.Authorizer.{Authorizer, Claim, authz_disabled}
use catena.Device.{Device, LanguagePack}
use catena.Device.Languages.{add_language, remove_language, get_language_pack, list_languages}
use catena.Rpc.Controllers.{Devices, device_at, set_device, checked_slot, reading}
use catena.Rest.{get, post, put, delete, eq_method, Request}
use catena.Rest.Writer.{Response}
use catena.Rest.Controllers.{settled, rest_authorizer, respond, respond_status}

-- `LanguagePack`: what is asked of the device.
unfoldable pub add_pack :
    (Text → Option (Text × List (Text × Text)))
    → Text
    → Request
    → Authorizer
    → Device
    → StatusCode × Device
add_pack parse language_id req authz dm = elim (parse req.json_body) [
  | none ↦ (invalid_argument, dm)
  | some (name, words) ↦
      if (eq_method req.method post && contains_key language_id dm.language_packs)
        || (eq_method req.method put && not (contains_key language_id dm.language_packs))
      then (permission_denied, dm)
      else add_language dm (record { language = language_id; name = name; words = words }) authz
]

unfoldable pub language_pack_device :
    (Text → Option (Text × List (Text × Text)))
    → Text
    → Request
    → Authorizer
    → Device
    → (StatusCode × Option LanguagePack) × Device
unfolding add_pack
language_pack_device parse language_id req authz dm =
    if eq_method req.method get
    then (get_language_pack dm language_id, dm)
    else if eq_method req.method post || eq_method req.method put
    then (let (rc, dm') = add_pack parse language_id req authz dm in ((rc, none), dm'))
    else if eq_method req.method delete
    then (let (rc, dm') = remove_language dm language_id authz in ((rc, none), dm'))
    else ((unimplemented, none), dm)

module _ (decode : Text → Option (List (Text × Claim))) (authorization_enabled : Bool) where
  -- `LanguagePack`: the authorizer is made for all methods but GET, before the device is looked at.
  unfoldable pub pack_authorizer : Request → Outcome Authorizer
  unfolding rest_authorizer
  pack_authorizer req =
      if eq_method req.method get
      then returns authz_disabled
      else rest_authorizer decode authorization_enabled req

  -- `substr(1)` throws where the OID is empty.
  unfoldable pub language_pack_body :
      (Text → Option (Text × List (Text × Text)))
      → Request
      → Devices
      → Outcome (StatusCode × Option LanguagePack) × Devices
  unfolding device_at set_device checked_slot pack_authorizer language_pack_device
  language_pack_body parse req dms = elim req.target.fqoid [
    | [] ↦ (throws std_exception, dms)
    | c ∷ language_id ↦ elim (checked_slot (pos req.target.slot)) [
      | throws e ↦ (throws e, dms)
      | returns n ↦ elim (pack_authorizer req) [
        | throws e ↦ (throws e, dms)
        | returns authz ↦ elim (device_at n dms) [
          | none ↦ (returns (not_found, none), dms)
          | some dm ↦
              let (result, dm') = language_pack_device parse language_id req authz dm in
              (returns result, set_device n dm' dms)
        ]
      ]
    ]
  ]

  unfoldable pub language_pack_proceed :
      (Text → Option (Text × List (Text × Text)))
      → (Option LanguagePack → Option Text)
      → Request
      → Devices
      → Option (List Response) × Devices
  unfolding language_pack_body settled respond respond_status
  language_pack_proceed parse json req dms =
      let (result, dms') = language_pack_body parse req dms in
      let answer = settled internal none result in
      (
        if eq_method req.method get then respond json req answer else respond_status req answer,
        dms',
      )

-- `Languages`
unfoldable pub languages_answer : Request → Devices → Option (StatusCode × List Text)
unfolding device_at checked_slot settled
languages_answer req dms = settled internal [] (
    (reading (pos req.target.slot) []
      (λ dm.
        (if eq_method req.method get
          then returns (elim (list_languages dm) [ [] ↦ (not_found, []) | l ∷ ls ↦ (ok, l ∷ ls) ])
          else returns (unimplemented, [])))
      dms).0)

unfoldable pub languages_proceed :
    (List Text → Option Text) → Request → Devices → Option (List Response)
unfolding languages_answer respond
languages_proceed json req dms = respond json req (languages_answer req dms)
