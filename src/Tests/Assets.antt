-- ===== src/Tests/Assets.antt =====
-- A file that is read and posted again, through a codec that copies.
use catena.Base.{
  ◌≡◌, refl, true, false, [], ◌∷◌, ◌++◌, none, some, if◌then◌else◌, leb, length, arith,
}
use catena.Base.Text.{txt, eqb, lookup, contains_key}
use catena.Status.{internal, no_content, returns, throws, with_status}
use catena.Authorizer.{authz_disabled, read_authz, write_authz, has_authz}
use catena.Rest.{post, Request}
use catena.Rest.Controllers.{rest_authorizer}
use catena.Rest.Assets.{
  gzip, Host, Store, Asset, download, asset_of, may_upload, get_asset, post_asset, asset_body,
}
use catena.Rest.Assets.Changes.{IsServed, asset_body-IsServed}
use catena.Rest.Assets.Transfer.{IsCodec, fits, post-get}
use catena.Tests.Rest.{set_gain, mixers, no_claims}

abbrev host : Host
host = record {
  readable = λ path. true;
  writable = λ path. true;
  kept = λ path bytes. bytes;
  removable = λ path. true;
  file_name = λ path. path;
  modified = λ path. none;
  digest = λ bytes. [];
  bound = λ n. n;
  stream = λ f room x. some x;
  unstream = λ f room y. (if leb (length y) room then some y else none);
}

host-IsCodec : IsCodec host
host-IsCodec = record { unpacks = λ f room room' x y h. ground arith }

abbrev stored : Store
stored = record { files = (txt "/eo/logo", 1 ∷ 2 ∷ []) ∷ []; signals = [] }

abbrev logo : Asset
logo = asset_of host (txt "/eo/logo") gzip (1 ∷ 2 ∷ [])

logo_read :
    get_asset host (txt "/eo/logo") (txt "/logo") gzip authz_disabled stored
    ≡ (returns logo, record stored { signals = download (txt "/logo") ∷ [] })
unfolding get_asset lookup eqb read_authz has_authz
logo_read = refl

logo_there : lookup (txt "/eo/logo") stored.files ≡ some (1 ∷ 2 ∷ [])
unfolding lookup eqb
logo_there = refl

may_write : may_upload authz_disabled ≡ true
unfolding may_upload write_authz has_authz
may_write = refl

copy_free : contains_key (txt "/eo/copy") stored.files ≡ false
unfolding contains_key eqb
copy_free = refl

post-get_example :
    let r =
      post_asset host
        (txt "/eo/copy")
        (txt "/copy")
        gzip
        logo.payload
        authz_disabled
        (record stored { signals = download (txt "/logo") ∷ [] }) in
    let room = fits gzip logo.payload (1 ∷ 2 ∷ []) in
    (r.0 ≡ (if room then returns no_content else throws (with_status internal)))
    × (lookup (txt "/eo/copy") r.1.files
        ≡ (if room then some (host.kept (txt "/eo/copy") (1 ∷ 2 ∷ [])) else none))
post-get_example =
    post-get host (txt "/eo/logo") (txt "/eo/copy") (txt "/logo") (txt "/copy") gzip authz_disabled
      authz_disabled stored (record stored { signals = download (txt "/logo") ∷ [] }) logo
      (1 ∷ 2 ∷ []) host-IsCodec logo_there logo_read may_write refl copy_free

abbrev post_logo : Request
post_logo = record set_gain {
  method = post;
  target = record { slot = 1; endpoint = txt "/asset"; fqoid = txt "/logo"; stream = false };
}

asset_body-IsServed_example :
    IsServed
      (txt "/eo" ++ post_logo.target.fqoid)
      post_logo
      (rest_authorizer no_claims false post_logo)
      stored
      (asset_body host no_claims false (txt "/eo") post_logo mixers stored)
asset_body-IsServed_example =
    asset_body-IsServed host no_claims false (txt "/eo") post_logo mixers stored
