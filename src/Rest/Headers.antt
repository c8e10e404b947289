-- ===== src/Rest/Headers.antt =====
-- sdks/cpp/connections/REST/src/SocketReader.cpp: the loop of `read` over the headers.
use catena.Base.{
  ℕ, suc, ◌+◌, ◌-◌, Bool, true, false, ◌&&◌, ◌||◌, [], ◌∷◌, ◌++◌, Option, none, some, drop, length,
  if◌then◌else◌, leb, ◌==◌,
}
use catena.Base.Int.{ℤ, pos, negsuc}
use catena.Base.Text.{Text, txt, eqb, starts_with}
use catena.Status.{invalid_argument, Outcome, returns, throws, with_status, ◌>>=◌}
use catena.Device.{DetailLevel, full, subscriptions, minimal, commands_only, none_level, unset}
use catena.Device.Serializer.{eq_level}
use catena.Utils.{find_seq}
use catena.Utils.Numbers.{stoi, read_timestamp}
use catena.Rest.{Heading}

-- The characters are equal, but for the case of the first; the second is in lower case.
abbrev pub eq_folded : ℕ → ℕ → Bool
eq_folded a b = a == b || (leb b'A' a && leb a b'Z' && (a + 32) == b)

unfoldable pub iequals_header_name : Text → Text → Bool
iequals_header_name [] [] = true
iequals_header_name (a ∷ s) (b ∷ t) = eq_folded a b && iequals_header_name s t
iequals_header_name _ _ = false

-- The type, and nothing or its parameters behind it.
unfoldable pub valid_content_type : Text → Text → Bool
valid_content_type [] [] = true
valid_content_type (a ∷ s) [] = a == b';'
valid_content_type [] (b ∷ t) = false
valid_content_type (a ∷ s) (b ∷ t) = eq_folded a b && valid_content_type s t

unfoldable pub trim_front : Text → Text
trim_front [] = []
trim_front (c ∷ s) = let rest = trim_front s in if c == b' ' || c == b'\t' then rest else c ∷ s

unfoldable pub trim_back : Text → Text
trim_back [] = []
trim_back (c ∷ s) = elim (trim_back s) [
  | [] ↦ if c == b'\r' || (c == b' ' || c == b'\t') then [] else c ∷ []
  | d ∷ t ↦ c ∷ d ∷ t
]

-- An int as a `size_t`.
abbrev pub to_size : ℤ → ℕ
to_size (pos n) = n
to_size (negsuc n) = 18446744073709551616 - suc n

unfoldable pub read_length : Text → Outcome ℕ
unfolding stoi
read_length [] = throws (with_status invalid_argument)
read_length (c ∷ s) =
    if c == b'-' then throws (with_status invalid_argument) else elim (stoi (c ∷ s)) [
      | none ↦ throws (with_status invalid_argument)
      | some (n, []) ↦ returns (to_size n)
      | some (n, d ∷ rest) ↦ throws (with_status invalid_argument)
    ]

-- The reverse map of `DetailLevel`.
unfoldable pub find_level : Text → Option DetailLevel
find_level name =
    if eqb name (txt "FULL")
    then some full
    else if eqb name (txt "SUBSCRIPTIONS")
    then some subscriptions
    else if eqb name (txt "MINIMAL")
    then some minimal
    else if eqb name (txt "COMMANDS")
    then some commands_only
    else if eqb name (txt "NONE")
    then some none_level
    else if eqb name (txt "UNSET")
    then some unset
    else none

abbrev is_empty : Text → Bool
is_empty [] = true
is_empty (c ∷ s) = false

abbrev bearer_prefix : Text
bearer_prefix = txt "Bearer "

abbrev pub no_heading : Heading
no_heading = record {
  jws_token = [];
  origin = [];
  detail_level = unset;
  request_start = 0;
  content_length = 0;
  has_content_type = false;
}

-- One header with its value.
unfoldable pub read_field : Bool → Text → Text → Heading → Outcome Heading
unfolding iequals_header_name valid_content_type read_length find_level read_timestamp
read_field authorization_enabled name value h =
    if authorization_enabled
      && is_empty h.jws_token
      && iequals_header_name name (txt "authorization")
    then returns (
        if starts_with value bearer_prefix
        then record h { jws_token = drop (length bearer_prefix) value }
        else h)
    else if is_empty h.origin && iequals_header_name name (txt "origin")
    then returns (record h { origin = value })
    else if eq_level h.detail_level unset && iequals_header_name name (txt "detail-level")
    then returns (elim (find_level value) [ none ↦ h | some l ↦ record h { detail_level = l } ])
    else if h.request_start == 0 && iequals_header_name name (txt "request-start")
    then returns
        (elim (read_timestamp value) [ none ↦ h | some t ↦ record h { request_start = t } ])
    else if h.content_length == 0 && iequals_header_name name (txt "content-length")
    then (read_length value >>= λ n. returns (record h { content_length = n }))
    else if iequals_header_name name (txt "content-type")
    then (if valid_content_type value (txt "application/json")
        then returns (record h { has_content_type = true })
        else throws (with_status invalid_argument))
    else returns h

-- A line of the header; one without a colon is passed over.
unfoldable pub read_header : Bool → Text → Heading → Outcome Heading
unfolding trim_front trim_back read_field
read_header authorization_enabled line h = elim (find_seq (txt ":") line) [
  | none ↦ returns h
  | some (name, value) ↦ read_field authorization_enabled name (trim_back (trim_front value)) h
]

-- The loop over `std::getline`, up to the empty line or the end: the heading, and what is left of the
-- stream. `line` is what was read of the line so far.
unfoldable pub read_headers : Bool → Text → Text → Heading → Outcome (Heading × Text)
unfolding read_header
read_headers authorization_enabled line [] h = elim line [
  | [] ↦ returns (h, [])
  | c ∷ s ↦
      if eqb (c ∷ s) (txt "\r")
      then returns (h, [])
      else (read_header authorization_enabled (c ∷ s) h >>= λ h'. returns (h', []))
]
read_headers authorization_enabled line (c ∷ s) h =
    let next = read_header authorization_enabled line h >>= λ h'.
    read_headers authorization_enabled [] s h' in
    let longer = read_headers authorization_enabled (line ++ c ∷ []) s h in
    if c == b'\n' then (if eqb line (txt "\r") then returns (h, s) else next) else longer
