-- ===== src/Rest/Routes.antt =====
-- SocketReader.cpp: the path that names a device, an endpoint and an OID is read as such.
use mathlib.Core.List.{append-nil}
use catena.Base.{
  ℕ, ◌<◌, ◌≤◌, ◌≡◌, ◌≢◌, refl, ap, ◌∙◌, Bool, true, false, List, [], ◌∷◌, ◌++◌, some, if◌then◌else◌,
  last?, drop_last, length, length-append, drop, All, All-append, arith, lt→ltb,
}
use catena.Base.Int.{pos}
use catena.Base.Text.{Text, txt, eqb, eqb_self}
use catena.Status.{returns}
use catena.ParamPath.Decimal.{
  IsDigit, print_index, print_index-digits, value_from, value_from-print_index,
}
use catena.Utils.{split}
use catena.Utils.Subs.{join}
use catena.Utils.Joined.{split-join}
use catena.Utils.Numbers.{stoi, skip_spaces, digits_of, signed, after_spaces, int_limit}
use catena.Rest.Paths.{read_path, slot_or_endpoint, ends_in_stream, join_fqoid, read_segments}

-- Digits are read to the end.
digits_of-digits : (s : Text) → All IsDigit s → digits_of s ≡ s
unfolding digits_of
digits_of-digits [] h = refl
digits_of-digits (c ∷ s) h = ground (arith, digits_of-digits s h.1)

drop-whole : (s : Text) → drop (length s) s ≡ []
drop-whole [] = refl
drop-whole (c ∷ s) = drop-whole s

skip_none : (c : ℕ) (s : Text) → IsDigit c → skip_spaces (c ∷ s) ≡ c ∷ s
unfolding skip_spaces
skip_none c s h = ground arith

after_none : (c : ℕ) (s : Text) → IsDigit c → after_spaces (c ∷ s) ≡ signed false (c ∷ s)
unfolding after_spaces
after_none c s h = ground arith

signed_digits :
    (c : ℕ) (s : Text)
    → All IsDigit (c ∷ s)
    → value_from 0 (c ∷ s) < int_limit
    → signed false (c ∷ s) ≡ some (pos (value_from 0 (c ∷ s)), [])
unfolding signed
signed_digits c s h lt =
    rw (digits_of-digits (c ∷ s) h, signed) (rw (lt→ltb _ _ lt, drop-whole s) refl)

-- A slot that an int can hold is read as it was written.
stoi-print_index : (n : ℕ) → n < int_limit → stoi (print_index n) ≡ some (pos n, [])
unfolding stoi
stoi-print_index n lt =
    let (c, s, e, digits) = print_index-digits n in
    let value : value_from 0 (c ∷ s) ≡ n = rw (← e) (value_from-print_index n) in
    rw (e, skip_none c s digits.0, after_none c s digits.0)
      (signed_digits c s digits (rw value lt) ∙ ap (λ m. some (pos m, [])) value)

-- A segment of a path.
abbrev pub IsSegment : Text → Type 0
IsSegment s = All (λ c. c ≢ b'/') s

digits-IsSegment : (s : Text) → All IsDigit s → IsSegment s
digits-IsSegment [] h = tt
digits-IsSegment (c ∷ s) h = ((λ e. omega arith), digits-IsSegment s h.1)

print_index-IsSegment : (n : ℕ) → IsSegment (print_index n)
print_index-IsSegment n =
    let (c, s, e, digits) = print_index-digits n in rw e (digits-IsSegment (c ∷ s) digits)

abbrev pub stream_suffix : Bool → List Text
stream_suffix stream = if stream then txt "stream" ∷ [] else []

last?-append : {A : Type 0} (xs : List A) (a : A) → last? (xs ++ a ∷ []) ≡ some a
last?-append [] a = refl
last?-append (x ∷ []) a = refl
last?-append (x ∷ y ∷ xs) a = last?-append (y ∷ xs) a

drop_last-append : {A : Type 0} (xs : List A) (a : A) → drop_last (xs ++ a ∷ []) ≡ xs
drop_last-append [] a = refl
drop_last-append (x ∷ []) a = refl
drop_last-append (x ∷ y ∷ xs) a = ap (λ l. x ∷ l) (drop_last-append (y ∷ xs) a)

nothing_taken :
    (l path : List Text)
    → l ≡ path
    → ends_in_stream path ≡ false
    → (ends_in_stream l ≡ false) × ((if ends_in_stream l then drop_last l else l) ≡ path)
nothing_taken l path e h = rw e (h, rw h refl)

-- The last segment that is `stream` is taken off, and no other.
suffix_taken :
    (stream : Bool) (s : Text) (path : List Text)
    → (stream ≡ false → ends_in_stream (s ∷ path) ≡ false)
    → (ends_in_stream (s ∷ path ++ stream_suffix stream) ≡ stream)
      × ((if ends_in_stream (s ∷ path ++ stream_suffix stream)
            then drop_last (s ∷ path ++ stream_suffix stream)
            else s ∷ path ++ stream_suffix stream)
          ≡ s ∷ path)
unfolding ends_in_stream
suffix_taken true s path h =
    let last = last?-append (s ∷ path) (txt "stream") in
    (
      rw last (eqb_self (txt "stream")),
      rw (last, eqb_self (txt "stream")) (drop_last-append (s ∷ path) (txt "stream")),
    )
suffix_taken false s path h = nothing_taken _ (s ∷ path) (append-nil (s ∷ path)) (h refl)

abbrev pub version : Text
version = txt "v1"

-- The path of a request to an endpoint of a device, by the OID's segments.
abbrev pub target_path : ℕ → Text → List Text → Bool → Text
target_path slot endpoint oid stream =
    join (txt "/") (
      [] ∷ txt "st2138-api" ∷ version ∷ print_index slot ∷ (endpoint ∷ oid ++ stream_suffix stream))

length-suffix-le : (stream : Bool) → length (stream_suffix stream) ≤ 1
length-suffix-le true = omega arith
length-suffix-le false = omega arith

suffix-IsSegment : (stream : Bool) → All IsSegment (stream_suffix stream)
suffix-IsSegment true = ground arith
suffix-IsSegment false = tt

slot_read : (slot : ℕ) → slot < int_limit → slot_or_endpoint (print_index slot) ≡ (slot, [])
unfolding slot_or_endpoint
slot_read slot fits = rw (stoi-print_index slot fits, slot_or_endpoint) refl

path_read :
    (slot : ℕ) (s endpoint : Text) (oid path : List Text) (stream : Bool)
    → slot_or_endpoint s ≡ (slot, [])
    → (ends_in_stream (s ∷ path) ≡ stream)
      × ((if ends_in_stream (s ∷ path) then drop_last (s ∷ path) else s ∷ path)
          ≡ s ∷ endpoint ∷ oid)
    → read_path version ([] ∷ txt "st2138-api" ∷ version ∷ s ∷ path)
      ≡ returns (record {
        slot = slot;
        endpoint = b'/' ∷ endpoint;
        fqoid = join_fqoid oid;
        stream = stream;
      })
unfolding read_path read_segments eqb
path_read slot s endpoint oid path stream found (last, left) = rw (left, found, last) refl

-- A request's path is read as the slot, the endpoint, the OID and the flag that it was made of. The slot
-- is one that an int can hold, no segment has a slash, the segments are within the rounds of `split`,
-- and where the flag is not set the last segment is not `stream`.
pub read_path-target_path :
    (slot : ℕ) (endpoint : Text) (oid : List Text) (stream : Bool)
    → slot < int_limit
    → All IsSegment (endpoint ∷ oid)
    → length oid < 990
    → (stream ≡ false → ends_in_stream (endpoint ∷ oid) ≡ false)
    → read_path version (split (target_path slot endpoint oid stream) (txt "/"))
      ≡ returns (record {
        slot = slot;
        endpoint = b'/' ∷ endpoint;
        fqoid = join_fqoid oid;
        stream = stream;
      })
unfolding ends_in_stream
read_path-target_path slot endpoint oid stream fits segments short last =
    let suffix = stream_suffix stream in
    let rest = txt "st2138-api" ∷ version ∷ print_index slot ∷ (endpoint ∷ oid ++ suffix) in
    let pieces : All IsSegment rest = (
      ground arith,
      (
        ground arith,
        (
          print_index-IsSegment slot,
          All-append IsSegment (endpoint ∷ oid) suffix segments (suffix-IsSegment stream),
        ),
      ),
    ) in
    ap (read_path version) (
      split-join b'/' [] rest (tt, pieces)
        (omega (arith, length-append (endpoint ∷ oid) suffix, length-suffix-le stream)))
    ∙ path_read slot (print_index slot) endpoint oid (endpoint ∷ oid ++ suffix) stream
        (slot_read slot fits) (suffix_taken stream (print_index slot) (endpoint ∷ oid) last)
