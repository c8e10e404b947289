-- ===== src/Rest/Assets.antt =====
-- sdks/cpp/connections/REST/src/controllers/AssetRequest.cpp: the files below a directory of the service, read
-- and written by its clients.
--
-- The files are a map from paths to bytes. What the file system refuses, the times, zlib and OpenSSL are
-- `Host`; a slot of the signals sees only the OID.
pub mod Changes
pub mod Transfer
use catena.Base.{
  ℕ, ◌*◌, Bool, ◌||◌, not, List, [], ◌∷◌, ◌++◌, Option, none, some, if◌then◌else◌, length,
}
use catena.Base.Int.{pos}
use catena.Base.Text.{Text, txt, eqb, lookup, insert, erase, contains_key}
use catena.Status.{
  StatusCode, ok, internal, invalid_argument, not_found, permission_denied, already_exists,
  no_content, Outcome, returns, throws, with_status, ◌>>=◌,
}
use catena.Authorizer.{
  Authorizer, Claim, monitor, operate, config, admin, scope_name, read_authz, write_authz,
}
use catena.ParamPath.Decimal.{print_index}
use catena.Rpc.Controllers.{Devices, device_at, checked_slot}
use catena.Rest.{get, post, put, delete, eq_method, Request}
use catena.Rest.Writer.{Response}
use catena.Rest.Controllers.{settled, rest_authorizer, respond, respond_status}

abbrev pub Bytes : Type 0
Bytes = List ℕ

-- `DataPayload::PayloadEncoding`
pub data Encoding : Type 0 where
  uncompressed gzip deflate : Encoding

-- `stream` and `unstream` are zlib's `deflate` and `inflate` of the whole input into a buffer of some
-- size, `none` where they do not come to the end of the stream; `bound` is `compressBound`. `kept` is what the
-- file has of the bytes that are written to it once it is open, which may be fewer.
pub record Host : Type 0 where
  pub readable : Text → Bool
  pub writable : Text → Bool
  pub kept : Text → Bytes → Bytes
  pub removable : Text → Bool
  pub file_name : Text → Text
  pub modified : Text → Option Text
  pub digest : Bytes → Bytes
  pub bound : ℕ → ℕ
  pub stream : Encoding → ℕ → Bytes → Option Bytes
  pub unstream : Encoding → ℕ → Bytes → Option Bytes

-- The three signals of the device.
pub data AssetSignal : Type 0 where
  download upload removal : Text → AssetSignal

pub record Store : Type 0 where
  pub files : List (Text × Bytes)
  pub signals : List AssetSignal

-- `ExternalObjectPayload`
pub record Asset : Type 0 where
  pub encoding : Encoding
  pub payload : Bytes
  pub cachable : Bool
  pub metadata : List (Text × Text)
  pub digest : Bytes

abbrev pub no_asset : Asset
no_asset = record {
  encoding = uncompressed;
  payload = [];
  cachable = Bool.false;
  metadata = [];
  digest = [];
}

-- `fields`: the empty text where there is no such field.
unfoldable pub field : Text → Request → Text
field key req = elim (lookup key req.fields) [ none ↦ [] | some value ↦ value ]

unfoldable pub encoding_of : Text → Encoding
encoding_of name =
    if eqb name (txt "GZIP")
    then gzip
    else if eqb name (txt "DEFLATE")
    then deflate
    else uncompressed

-- The rights: to read in any scope, and to write in any but that of the monitor.
unfoldable pub may_download : Authorizer → Bool
may_download authz =
    read_authz authz (scope_name operate)
    || read_authz authz (scope_name config)
    || read_authz authz (scope_name admin)
    || read_authz authz (scope_name monitor)

unfoldable pub may_upload : Authorizer → Bool
may_upload authz =
    write_authz authz (scope_name operate)
    || write_authz authz (scope_name config)
    || write_authz authz (scope_name admin)

abbrev pub or_internal : Option Bytes → Outcome Bytes
or_internal none = throws (with_status internal)
or_internal (some bytes) = returns bytes

abbrev pub without_asset : Outcome StatusCode × Store → Outcome (StatusCode × Asset) × Store
without_asset (result, s) = (result >>= λ rc. returns (rc, no_asset), s)

module _ (host : Host) where
  -- `compress`, `gzip_compress` and `deflate_compress`
  unfoldable pub compress : Encoding → Bytes → Outcome Bytes
  compress uncompressed input = returns input
  compress gzip input = or_internal (host.stream gzip (host.bound (length input)) input)
  compress deflate input = or_internal (host.stream deflate (host.bound (length input)) input)

  -- `decompress`, `gzip_decompress` and `deflate_decompress`
  unfoldable pub decompress : Encoding → Bytes → Outcome Bytes
  decompress uncompressed input = returns input
  decompress gzip input = or_internal (host.unstream gzip (length input * 10) input)
  decompress deflate input = or_internal (host.unstream deflate (length input * 10) input)

  abbrev last_modified : Text → Text
  last_modified path = elim (host.modified path) [ none ↦ txt "unknown" | some time ↦ time ]

  unfoldable pub asset_of : Text → Encoding → Bytes → Asset
  asset_of path encoding bytes = record {
    encoding = encoding;
    payload = bytes;
    cachable = Bool.true;
    metadata =
        (txt "filename", host.file_name path)
        ∷ (txt "size", print_index (length bytes))
        ∷ (txt "last-modified", last_modified path)
        ∷ [];
    digest = host.digest bytes;
  }

  -- GET
  unfoldable pub get_asset : Text → Text → Encoding → Authorizer → Store → Outcome Asset × Store
  unfolding may_download compress asset_of
  get_asset path oid encoding authz s =
      if not (may_download authz)
      then (throws (with_status permission_denied), s)
      else elim (lookup path s.files) [
        | none ↦ (throws (with_status not_found), s)
        | some bytes ↦
            if not (host.readable path)
            then (throws (with_status internal), s)
            else elim (compress encoding bytes) [
              | throws e ↦ (throws e, s)
              | returns packed ↦ (
                returns (asset_of path encoding packed),
                record s { signals = s.signals ++ download oid ∷ [] },
              )
            ]
      ]

  -- `extractPayload`: the body is unpacked before the file is opened; the state of the stream is not looked at
  -- behind the write.
  unfoldable pub extract_payload : Text → Encoding → Bytes → Store → Outcome StatusCode × Store
  unfolding decompress
  extract_payload path encoding body s = elim (decompress encoding body) [
    | throws e ↦ (throws e, s)
    | returns bytes ↦
        if host.writable path
        then (returns no_content, record s { files = insert path (host.kept path bytes) s.files })
        else (throws (with_status internal), s)
  ]

  -- POST and PUT. The signal comes before the test of the file.
  unfoldable pub post_asset :
      Text → Text → Encoding → Bytes → Authorizer → Store → Outcome StatusCode × Store
  unfolding may_upload extract_payload
  post_asset path oid encoding body authz s =
      let told = record s { signals = s.signals ++ upload oid ∷ [] } in
      if not (may_upload authz)
      then (throws (with_status permission_denied), s)
      else if contains_key path s.files
      then (throws (with_status already_exists), told)
      else extract_payload path encoding body told

  unfoldable pub put_asset :
      Text → Text → Encoding → Bytes → Authorizer → Store → Outcome StatusCode × Store
  unfolding may_upload extract_payload
  put_asset path oid encoding body authz s =
      let told = record s { signals = s.signals ++ upload oid ∷ [] } in
      if not (may_upload authz)
      then (throws (with_status permission_denied), s)
      else if not (contains_key path s.files)
      then (throws (with_status not_found), told)
      else extract_payload path encoding body told

  -- DELETE
  unfoldable pub delete_asset : Text → Text → Authorizer → Store → Outcome StatusCode × Store
  unfolding may_upload
  delete_asset path oid authz s =
      let told = record s { signals = s.signals ++ removal oid ∷ [] } in
      if not (may_upload authz)
      then (throws (with_status permission_denied), s)
      else if not (contains_key path s.files)
      then (throws (with_status not_found), told)
      else if host.removable path
      then (returns no_content, record told { files = erase path s.files })
      else (throws (with_status internal), told)

  -- The branches of `proceed` where there is a device.
  unfoldable pub asset_device :
      Text → Request → Authorizer → Store → Outcome (StatusCode × Asset) × Store
  unfolding get_asset post_asset put_asset delete_asset field encoding_of
  asset_device eo_path req authz s =
      let path = eo_path ++ req.target.fqoid in
      let oid = req.target.fqoid in
      let encoding = encoding_of (field (txt "compression") req) in
      if eq_method req.method get
      then (let (result, s') = get_asset path oid encoding authz s in
          (result >>= λ asset. returns (ok, asset), s'))
      else if eq_method req.method post
      then without_asset (post_asset path oid encoding req.json_body authz s)
      else if eq_method req.method put
      then without_asset (put_asset path oid encoding req.json_body authz s)
      else if eq_method req.method delete
      then without_asset (delete_asset path oid authz s)
      else (returns (invalid_argument, no_asset), s)

  module _ (decode : Text → Option (List (Text × Claim))) (authorization_enabled : Bool)
      (eo_path : Text) where
    -- The authorizer is made before the device is looked at.
    unfoldable pub asset_body : Request → Devices → Store → Outcome (StatusCode × Asset) × Store
    unfolding checked_slot device_at rest_authorizer asset_device
    asset_body req dms s = elim (checked_slot (pos req.target.slot)) [
      | throws e ↦ (throws e, s)
      | returns n ↦ elim (rest_authorizer decode authorization_enabled req) [
        | throws e ↦ (throws e, s)
        | returns authz ↦ elim (device_at n dms) [
          | none ↦ (returns (not_found, no_asset), s)
          | some dm ↦ asset_device eo_path req authz s
        ]
      ]
    ]

    -- `AssetRequest`
    unfoldable pub asset_proceed :
        (Asset → Option Text) → Request → Devices → Store → Option (List Response) × Store
    unfolding asset_body settled respond respond_status
    asset_proceed json req dms s =
        let (result, s') = asset_body req dms s in
        let answer = settled internal no_asset result in
        (
          if eq_method req.method get then respond json req answer else respond_status req answer,
          s',
        )
