-- ===== src/Rest/Assets/Changes.antt =====
-- Which requests for an asset change which files.
use catena.Base.{
  ◌≡◌, refl, ◌⊎◌, Bool, true, false, List, [], ◌∷◌, ◌++◌, Option, Bool-cases, Option-cases, inl,
  inr, arith,
}
use catena.Base.Int.{pos}
use catena.Base.Text.{Text, insert, erase, contains_key}
use catena.Status.{StatusCode, no_content, Exception, Outcome, returns, throws}
use catena.Authorizer.{Authorizer, Claim}
use catena.Rpc.Controllers.{Devices, device_at, checked_slot}
use catena.Rest.{Method, no_method, get, post, put, patch, delete, head, options, Request}
use catena.Rest.Controllers.{rest_authorizer}
use catena.Rest.Assets.{
  Bytes, Encoding, Host, Store, Asset, no_asset, without_asset, AssetSignal, upload, may_upload,
  decompress, get_asset, extract_payload, post_asset, put_asset, delete_asset, asset_device,
  asset_body,
}

pub Outcome-cases :
    {A : Type 0} (m : Outcome A) → ((e : Exception) × (m ≡ throws e)) ⊎ ((a : A) × (m ≡ returns a))
Outcome-cases (throws e) = inl (e, refl)
Outcome-cases (returns a) = inr (a, refl)

abbrev Reply : Type 0
Reply = Outcome (StatusCode × Asset) × Store

-- The answer of a request that did change a file.
abbrev Done : Reply → Type 0
Done r = r.0 ≡ returns (no_content, no_asset)

-- What a client with the authorizer may have done to the files by a request for a path.
pub data IsChange (method : Method) (path : Text) (authz : Authorizer) (s : Store)
    : Reply → Type 0 where
  kept : (r : Reply) → r.1.files ≡ s.files → IsChange method path authz s r
  created :
      (r : Reply) (bytes : Bytes)
      → method ≡ post
      → may_upload authz ≡ true
      → contains_key path s.files ≡ false
      → Done r
      → r.1.files ≡ insert path bytes s.files
      → IsChange method path authz s r
  replaced :
      (r : Reply) (bytes : Bytes)
      → method ≡ put
      → may_upload authz ≡ true
      → contains_key path s.files ≡ true
      → Done r
      → r.1.files ≡ insert path bytes s.files
      → IsChange method path authz s r
  removed :
      (r : Reply)
      → method ≡ delete
      → may_upload authz ≡ true
      → contains_key path s.files ≡ true
      → Done r
      → r.1.files ≡ erase path s.files
      → IsChange method path authz s r

module _ (host : Host) (path oid : Text) (authz : Authorizer) (s : Store) where
  abbrev told : AssetSignal → Store
  told signal = record s { signals = s.signals ++ signal ∷ [] }

  get_asset-files :
      (encoding : Encoding) → (get_asset host path oid encoding authz s).1.files ≡ s.files
  unfolding get_asset
  get_asset-files encoding = ground arith

  delete_asset-IsChange :
      IsChange delete path authz s (without_asset (delete_asset host path oid authz s))
  unfolding delete_asset
  delete_asset-IsChange = elim (Bool-cases (may_upload authz)) [
    | inr denied ↦ rw denied (kept _ refl)
    | inl allowed ↦ elim (Bool-cases (contains_key path s.files)) [
      | inr missing ↦ rw (allowed, missing) (kept _ refl)
      | inl there ↦ elim (Bool-cases (host.removable path)) [
        | inr stuck ↦ rw (allowed, there, stuck) (kept _ refl)
        | inl gone ↦ rw (allowed, there, gone) (removed _ refl allowed there refl refl)
      ]
    ]
  ]

  module _ (encoding : Encoding) (body : Bytes) where
    extract_cases :
        (t : Store)
        → let r = extract_payload host path encoding body t in
          (r.1.files ≡ t.files)
          ⊎ ((bytes : Bytes) × (r.0 ≡ returns no_content) × (r.1.files ≡ insert path bytes t.files))
    unfolding extract_payload
    extract_cases t = elim (Outcome-cases (decompress host encoding body)) [
      | inl (e, h) ↦ inl (rw (extract_payload, h) refl)
      | inr (bytes, h) ↦ elim (Bool-cases (host.writable path)) [
        | inl opened ↦ inr (
          host.kept path bytes,
          rw (extract_payload, h, opened) refl,
          rw (extract_payload, h, opened) refl,
        )
        | inr shut ↦ inl (rw (extract_payload, h, shut) refl)
      ]
    ]

    post_asset-IsChange :
        IsChange post path authz s (without_asset (post_asset host path oid encoding body authz s))
    unfolding post_asset
    post_asset-IsChange = elim (Bool-cases (may_upload authz)) [
      | inr denied ↦ rw denied (kept _ refl)
      | inl allowed ↦ elim (Bool-cases (contains_key path s.files)) [
        | inl there ↦ rw (allowed, there) (kept _ refl)
        | inr missing ↦
            rw (allowed, missing)
              (elim (extract_cases (told (upload oid))) [
                | inl e ↦ kept _ e
                | inr (bytes, answer, e) ↦ created _ bytes refl allowed missing (rw answer refl) e
              ])
      ]
    ]

    put_asset-IsChange :
        IsChange put path authz s (without_asset (put_asset host path oid encoding body authz s))
    unfolding put_asset
    put_asset-IsChange = elim (Bool-cases (may_upload authz)) [
      | inr denied ↦ rw denied (kept _ refl)
      | inl allowed ↦ elim (Bool-cases (contains_key path s.files)) [
        | inr missing ↦ rw (allowed, missing) (kept _ refl)
        | inl there ↦
            rw (allowed, there)
              (elim (extract_cases (told (upload oid))) [
                | inl e ↦ kept _ e
                | inr (bytes, answer, e) ↦ replaced _ bytes refl allowed there (rw answer refl) e
              ])
      ]
    ]

asset_device-IsChange :
    (host : Host) (eo_path : Text) (req : Request) (authz : Authorizer) (s : Store)
    → IsChange req.method
        (eo_path ++ req.target.fqoid)
        authz
        s
        (asset_device host eo_path req authz s)
unfolding asset_device
asset_device-IsChange host eo_path req authz s = by_method req.method
  where
    by_method :
        (m : Method)
        → IsChange m
            (eo_path ++ req.target.fqoid)
            authz
            s
            (asset_device host eo_path (record req { method = m }) authz s)
    by_method get = kept _ (get_asset-files host _ _ authz s _)
    by_method post = post_asset-IsChange host _ _ authz s _ req.json_body
    by_method put = put_asset-IsChange host _ _ authz s _ req.json_body
    by_method delete = delete_asset-IsChange host _ _ authz s
    by_method no_method = kept _ refl
    by_method patch = kept _ refl
    by_method head = kept _ refl
    by_method options = kept _ refl

-- What is done to the files, by a client whose token made the authorizer, or by none.
pub data IsServed (path : Text) (req : Request) (authz : Outcome Authorizer) (s : Store)
    : Reply → Type 0 where
  refused : (r : Reply) → r.1.files ≡ s.files → IsServed path req authz s r
  accepted :
      (r : Reply) (a : Authorizer)
      → authz ≡ returns a
      → IsChange req.method path a s r
      → IsServed path req authz s r

-- A request for an asset changes no file but that of its path: POST makes a file that was not there, PUT
-- overwrites one that was, DELETE removes one that was, each only for a client with a write right in a
-- scope other than the monitor's; any other request, and any that fails, leaves all files as they are.
pub asset_body-IsServed :
    (host : Host) (decode : Text → Option (List (Text × Claim))) (authorization_enabled : Bool)
    (eo_path : Text) (req : Request) (dms : Devices) (s : Store)
    → IsServed
        (eo_path ++ req.target.fqoid)
        req
        (rest_authorizer decode authorization_enabled req)
        s
        (asset_body host decode authorization_enabled eo_path req dms s)
unfolding asset_body
asset_body-IsServed host decode authorization_enabled eo_path req dms s =
    elim (Outcome-cases (checked_slot (pos req.target.slot))) [
      | inl (e, wrong) ↦ rw (asset_body, wrong) (refused _ refl)
      | inr (n, slot) ↦ elim (Outcome-cases (rest_authorizer decode authorization_enabled req)) [
        | inl (e, unknown) ↦ rw (asset_body, slot, unknown) (refused _ refl)
        | inr (a, known) ↦ elim (Option-cases (device_at n dms)) [
          | inl none_there ↦ rw (asset_body, slot, known, none_there) (refused _ refl)
          | inr (d, there) ↦
              rw (asset_body, slot, known, there)
                (accepted _ a refl (asset_device-IsChange host eo_path req a s))
        ]
      ]
    ]
