-- ===== src/Rest/Assets/Transfer.antt =====
-- An asset that is read, and written again under another path.
use catena.Base.{
  ℕ, ◌*◌, ◌≡◌, refl, sym, ap, ◌∙◌, Bool, true, false, List, ◌++◌, ◌∷◌, [], Option, none, some,
  if◌then◌else◌, leb, length, Bool-cases, inl, inr, arith,
}
use catena.Base.Text.{Text, lookup, contains_key, lookup-insert, contains_key-lookup, eqb_self}
use catena.Status.{internal, no_content, Outcome, returns, throws, with_status}
use catena.Authorizer.{Authorizer}
use catena.Rest.Assets.Changes.{Outcome-cases}
use catena.Rest.Assets.{
  Bytes, Encoding, uncompressed, gzip, deflate, Host, Store, Asset, or_internal, may_download,
  may_upload, compress, decompress, asset_of, upload, get_asset, extract_payload, post_asset,
}

-- zlib's promise: a stream is unpacked to what was packed where the buffer has room for it, and not
-- otherwise.
pub record IsCodec (host : Host) : Type 0 where
  pub unpacks :
      (f : Encoding) (room room' : ℕ) (x y : Bytes)
      → host.stream f room x ≡ some y
      → host.unstream f room' y ≡ (if leb (length x) room' then some x else none)

-- Whether the buffer of `decompress` has room for the bytes.
abbrev pub fits : Encoding → Bytes → Bytes → Bool
fits uncompressed packed bytes = true
fits gzip packed bytes = leb (length bytes) (length packed * 10)
fits deflate packed bytes = leb (length bytes) (length packed * 10)

abbrev payload_of : Outcome Asset → Outcome Bytes
payload_of (returns a) = returns a.payload
payload_of (throws e) = throws e

streamed : (o : Option Bytes) (y : Bytes) → or_internal o ≡ returns y → o ≡ some y
streamed none y h = absurd (ground arith)
streamed (some x) y h = ground arith

unpacked :
    (o : Option Bytes) (b : Bool) (x : Bytes)
    → o ≡ (if b then some x else none)
    → or_internal o ≡ (if b then returns x else throws (with_status internal))
unpacked o b x h = rw h (elim (Bool-cases b) [ inl e ↦ rw e refl | inr e ↦ rw e refl ])

module _ (host : Host) (codec : IsCodec host) where
  decompress-compress :
      (encoding : Encoding) (packed bytes : Bytes)
      → compress host encoding bytes ≡ returns packed
      → decompress host encoding packed
        ≡ (if fits encoding packed bytes then returns bytes else throws (with_status internal))
  unfolding compress decompress
  decompress-compress uncompressed packed bytes h = ap returns (sym (ground arith))
  decompress-compress gzip packed bytes h =
      unpacked _ _ bytes (codec.unpacks gzip _ _ bytes packed (streamed _ packed h))
  decompress-compress deflate packed bytes h =
      unpacked _ _ bytes (codec.unpacks deflate _ _ bytes packed (streamed _ packed h))

module _ (host : Host) (path oid : Text) (encoding : Encoding) (authz : Authorizer) (s s' : Store)
    (a : Asset) (bytes : Bytes) where
  get_asset-packed :
      lookup path s.files ≡ some bytes
      → get_asset host path oid encoding authz s ≡ (returns a, s')
      → (compress host encoding bytes ≡ returns a.payload) × (s'.files ≡ s.files)
  unfolding get_asset asset_of
  get_asset-packed there h = elim (Bool-cases (may_download authz)) [
    | inr denied ↦ absurd (let clash = rw (denied, get_asset) at h in ground arith)
    | inl allowed ↦ elim (Bool-cases (host.readable path)) [
      | inr shut ↦ absurd (let clash = rw (get_asset, allowed, there, shut) at h in ground arith)
      | inl opened ↦ elim (Outcome-cases (compress host encoding bytes)) [
        | inl (e, failed) ↦
            absurd (let clash = rw (get_asset, allowed, there, opened, failed) at h in ground arith)
        | inr (packed, done) ↦
            let same = rw (get_asset, allowed, there, opened, done) at h in
            (
              done ∙ ap (λ (r : Outcome Asset × Store). payload_of r.0) same,
              ap (λ (r : Outcome Asset × Store). r.1.files) (sym same),
            )
      ]
    ]
  ]

extract_unpacked :
    (host : Host) (q : Text) (encoding : Encoding) (packed bytes : Bytes) (t : Store) (room : Bool)
    → host.writable q ≡ true
    → decompress host encoding packed
      ≡ (if room then returns bytes else throws (with_status internal))
    → let r = extract_payload host q encoding packed t in
      (r.0 ≡ (if room then returns no_content else throws (with_status internal)))
      × (lookup q r.1.files ≡ (if room then some (host.kept q bytes) else lookup q t.files))
unfolding extract_payload
extract_unpacked host q encoding packed bytes t true opened h = (
  rw (extract_payload, h, opened) refl,
  rw (extract_payload, h, opened, lookup-insert, eqb_self) refl,
)
extract_unpacked host q encoding packed bytes t false opened h =
    (rw (extract_payload, h) refl, rw (extract_payload, h) refl)

missing_none :
    {V : Type 0} (q : Text) (m : List (Text × V)) → contains_key q m ≡ false → lookup q m ≡ none
missing_none q m h = ground (arith, contains_key-lookup q m)

-- What a client reads of a file is written under a free path as the same bytes, in each of the encodings,
-- by a client that may write; the answer is NO_CONTENT however many of them the file system keeps. That holds of a packed file only where it is at most ten times as long as
-- its stream: a file that packs better is refused with INTERNAL, and nothing is stored.
pub post-get :
    (host : Host) (path q oid oid' : Text) (encoding : Encoding) (authz authz' : Authorizer)
    (s s' : Store) (a : Asset) (bytes : Bytes)
    → IsCodec host
    → lookup path s.files ≡ some bytes
    → get_asset host path oid encoding authz s ≡ (returns a, s')
    → may_upload authz' ≡ true
    → host.writable q ≡ true
    → contains_key q s.files ≡ false
    → let r = post_asset host q oid' encoding a.payload authz' s' in
      let room = fits encoding a.payload bytes in
      (r.0 ≡ (if room then returns no_content else throws (with_status internal)))
      × (lookup q r.1.files ≡ (if room then some (host.kept q bytes) else none))
unfolding post_asset
post-get host path q oid oid' encoding authz authz' s s' a bytes codec there h allowed opened free =
    let (packed, same) = get_asset-packed host path oid encoding authz s s' a bytes there h in
    let told : Store = record s' { signals = s'.signals ++ upload oid' ∷ [] } in
    let room = fits encoding a.payload bytes in
    let (answer, stored) =
      extract_unpacked host q encoding a.payload bytes told room opened
        (decompress-compress host codec encoding a.payload bytes packed) in
    let new : contains_key q s'.files ≡ false = rw same free in
    let before : lookup q s'.files ≡ none = missing_none q s'.files new in
    (
      rw (allowed, new) answer,
      rw (allowed, new) (stored ∙ ap (λ o. if room then some (host.kept q bytes) else o) before),
    )
