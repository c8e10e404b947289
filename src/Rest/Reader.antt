-- ===== src/Rest/Reader.antt =====
-- sdks/cpp/connections/REST/src/SocketReader.cpp: `read`.
--
-- The socket is what it delivers: `first` for the read up to the empty line, `more n` for that of `n`
-- bytes. The parser of the URL is the boost library's: an argument gives the decoded path and the
-- parameters, `none` where it throws.
use catena.Base.{
  ℕ, ◌-◌, Bool, not, List, [], ◌∷◌, ◌++◌, Option, none, some, if◌then◌else◌, ltb, ◌==◌, length,
}
use catena.Base.Text.{Text, txt, insert}
use catena.Status.{
  invalid_argument, deadline_exceeded, unknown, data_loss, Outcome, returns, throws, with_status,
  std_exception, ◌>>=◌,
}
use catena.Device.{unset, none_level}
use catena.Device.Serializer.{eq_level}
use catena.Utils.{split}
use catena.Utils.Numbers.{is_space}
use catena.Rest.{all_methods, find_method, Target, Heading, Request}
use catena.Rest.Paths.{read_path}
use catena.Rest.Headers.{no_heading, read_headers}

-- `ReadResult`
pub data Delivery : Type 0 where
  received : Text → Delivery
  timed_out read_error : Delivery

unfoldable pub delivered : Delivery → Outcome Text
delivered (received s) = returns s
delivered timed_out = throws (with_status deadline_exceeded)
delivered read_error = throws (with_status unknown)

-- `std::getline`: the line, and what is left.
unfoldable pub get_line : Text → Text × Text
get_line [] = ([], [])
get_line (c ∷ s) = let (line, rest) = get_line s in if c == b'\n' then ([], s) else (c ∷ line, rest)

-- What `>>` reads into a string: the next word, and what is left.
unfoldable pub get_word : Text → Text → Text × Text
get_word word [] = (word, [])
get_word word (c ∷ s) =
    let next : Text × Text = elim word [ [] ↦ get_word [] s | d ∷ t ↦ (d ∷ t, c ∷ s) ] in
    let longer = get_word (word ++ c ∷ []) s in if is_space c then next else longer

-- The parameters of the query; a later one replaces an earlier of its name.
unfoldable pub collect_fields : List (Text × Text) → List (Text × Text) → List (Text × Text)
collect_fields [] fields = fields
collect_fields ((key, value) ∷ params) fields = collect_fields params (insert key value fields)

-- The body, of which `rest` came with the headers.
unfoldable pub read_body : (ℕ → Delivery) → Heading → Text → Outcome Text
unfolding delivered
read_body more h rest =
    if h.content_length == 0
    then (if ltb 0 (length rest) then throws (with_status data_loss) else returns rest)
    else if not h.has_content_type
    then throws (with_status invalid_argument)
    else if ltb (length rest) h.content_length
    then (delivered (more (h.content_length - length rest)) >>= λ s. returns (rest ++ s))
    else if ltb h.content_length (length rest)
    then throws (with_status data_loss)
    else returns rest

module _ (version : Text) (authorization_enabled : Bool)
    (parse_url : Text → Option (Text × List (Text × Text))) where
  -- The path and the parameters of the URL, whose parser throws outside of the handler.
  unfoldable pub read_url : Text → Outcome (Target × List (Text × Text))
  unfolding read_path collect_fields
  read_url url = elim (parse_url url) [
    | none ↦ throws std_exception
    | some (path, params) ↦ read_path version (split path (txt "/")) >>= λ target.
        returns (target, collect_fields params [])
  ]

  -- What `read` makes of the bytes up to the empty line, and of some that follow it.
  unfoldable pub read_stream : (ℕ → Delivery) → ℕ → Text → Outcome Request
  unfolding get_line get_word read_url read_headers read_body find_method
  read_stream more now s =
      let (line, rest) = get_line s in
      let (method, after_method) = get_word [] line in
      read_url ((get_word [] after_method).0) >>= λ found.
      (read_headers authorization_enabled [] rest no_heading >>= λ headed.
      (read_body more headed.0 headed.1 >>= λ body. returns (record {
        method = find_method method all_methods;
        target = found.0;
        fields = found.1;
        heading =
            if eq_level headed.0.detail_level unset
            then record headed.0 { detail_level = none_level }
            else headed.0;
        json_body = body;
        request_received = now;
      })))

  unfoldable pub read : Delivery → (ℕ → Delivery) → ℕ → Outcome Request
  unfolding delivered read_stream
  read first more now = delivered first >>= λ s. read_stream more now s
