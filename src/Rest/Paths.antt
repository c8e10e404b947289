-- ===== src/Rest/Paths.antt =====
-- sdks/cpp/connections/REST/src/SocketReader.cpp: what `read` makes of the path of the URL.
use catena.Base.{
  ℕ, suc, ◌-◌, Bool, false, ◌&&◌, List, [], ◌∷◌, ◌++◌, none, some, if◌then◌else◌, last?, drop_last,
}
use catena.Base.Int.{ℤ, pos, negsuc}
use catena.Base.Text.{Text, txt, eqb}
use catena.Status.{invalid_argument, Outcome, returns, throws, with_status}
use catena.Utils.Numbers.{stoi}
use catena.Rest.{Target}

-- An int as a `uint32_t`.
abbrev pub to_uint32 : ℤ → ℕ
to_uint32 (pos n) = n
to_uint32 (negsuc n) = 4294967296 - suc n

-- `slot_` and `endpoint_`, from the segment behind the version.
unfoldable pub slot_or_endpoint : Text → ℕ × Text
unfolding stoi
slot_or_endpoint s = elim (stoi s) [ none ↦ (0, b'/' ∷ s) | some (n, rest) ↦ (to_uint32 n, []) ]

unfoldable pub ends_in_stream : List Text → Bool
ends_in_stream path = elim (last? path) [ none ↦ false | some s ↦ eqb s (txt "stream") ]

unfoldable pub join_fqoid : List Text → Text
join_fqoid [] = []
join_fqoid (s ∷ path) = b'/' ∷ s ++ join_fqoid path

-- What stands behind the segment of the slot.
abbrev pub behind_slot : List Text → List Text
behind_slot [] = []
behind_slot (s ∷ path) = path

unfoldable pub read_segments : ℕ → Text → Bool → List Text → Target
unfolding join_fqoid
read_segments slot endpoint stream [] = record {
  slot = slot;
  endpoint = endpoint;
  fqoid = [];
  stream = stream;
}
read_segments slot [] stream (s ∷ path) = record {
  slot = slot;
  endpoint = b'/' ∷ s;
  fqoid = join_fqoid path;
  stream = stream;
}
read_segments slot (c ∷ endpoint) stream (s ∷ path) = record {
  slot = slot;
  endpoint = c ∷ endpoint;
  fqoid = join_fqoid (s ∷ path);
  stream = stream;
}

-- The path's segments; the first is what stands before the first slash.
unfoldable pub read_path : Text → List Text → Outcome Target
unfolding slot_or_endpoint ends_in_stream read_segments
read_path version (start ∷ api ∷ v ∷ s ∷ path) =
    if eqb api (txt "st2138-api") && eqb v version
    then (let (slot, endpoint) = slot_or_endpoint s in
        let stream = ends_in_stream (s ∷ path) in
        let left = if stream then drop_last (s ∷ path) else s ∷ path in
        returns (read_segments slot endpoint stream (behind_slot left)))
    else throws (with_status invalid_argument)
read_path version _ = throws (with_status invalid_argument)
