-- ===== src/Tests/Rest.antt =====
-- A REST client that sets a gain, and the results about the REST connection at its requests.
use catena.Base.{
  ℕ, ◌≡◌, refl, ◌<◌, Bool, true, false, List, [], ◌∷◌, ◌++◌, Option, none, some, if◌then◌else◌, leb,
  length, map, arith,
}
use catena.Base.Int.{pos}
use catena.Base.Text.{Text, txt, eqb, starts_with}
use catena.Status.{ok, returns}
use catena.Proto.{ProtoValue, int32_value}
use catena.Authorizer.{Claim}
use catena.Device.{none_level}
use catena.Device.Values.{SetValue}
use catena.Rpc.{answer}
use catena.Rpc.Controllers.{Devices, multi_set_value_body}
use catena.Utils.{split, split_loop, find_seq}
use catena.Utils.Base64.{to_base64, from_base64}
use catena.Utils.Base64.RoundTrip.{from_base64-to_base64}
use catena.Rest.{put, Request, Heading}
use catena.Rest.Headers.{no_heading}
use catena.Rest.Paths.{read_path, join_fqoid, ends_in_stream}
use catena.Rest.Reader.{Delivery, received, read_body}
use catena.Rest.Writer.{send_responses, code_map}
use catena.Rest.Routes.{version, target_path, read_path-target_path}
use catena.Rest.Bodies.{IsExact, read_body-returns}
use catena.Rest.Answers.{calls_of, data_array, send_responses-buffered}
use catena.Rest.Controllers.{set_values_answer, to_multi_one, respond_status}
use catena.Rest.Agreement.{
  same_client, status_of, status_response, set_values_answer-multi_set_value_body,
}
use catena.Rest.Service.{
  Server, Phase, accepting, counted, waiting, returned, started, Reach, here, next, accept, spawn,
  complete, shut_down, leave,
}
use catena.Rest.Service.Requests.{run-drained}
use catena.Tests.{mixer}
use mathlib.Core.Option

from_base64-to_base64_example :
    from_base64 (to_base64 (0 ∷ 255 ∷ 127 ∷ 128 ∷ [])) ≡ 0 ∷ 255 ∷ 127 ∷ 128 ∷ []
from_base64-to_base64_example = from_base64-to_base64 (0 ∷ 255 ∷ 127 ∷ 128 ∷ []) (omega arith)

-- An OID that ends in `stream` is all right where the flag is set.
last_free : true ≡ false → ends_in_stream (txt "value" ∷ txt "stream" ∷ []) ≡ false
last_free h = absurd (ground arith)

read_path-target_path_example :
    read_path version (split (target_path 1 (txt "value") (txt "stream" ∷ []) true) (txt "/"))
    ≡ returns (record {
      slot = 1;
      endpoint = txt "/value";
      fqoid = join_fqoid (txt "stream" ∷ []);
      stream = true;
    })
read_path-target_path_example =
    read_path-target_path 1 (txt "value") (txt "stream" ∷ []) true (omega arith) (ground arith)
      (omega arith) last_free

-- Without it the OID is lost.
stream_lost :
    read_path version (split (txt "/st2138-api/v1/1/value/stream") (txt "/"))
    ≡ returns (record { slot = 1; endpoint = txt "/value"; fqoid = []; stream = true })
unfolding read_path split split_loop find_seq starts_with eqb
stream_lost = refl

abbrev typed : Heading
typed = record no_heading { content_length = 4; has_content_type = true }

abbrev rest_of_body : ℕ → Delivery
rest_of_body n =
    if leb 3 n
    then (if leb n 3 then received (txt "abc") else Delivery.timed_out)
    else Delivery.timed_out

rest_of_body-IsExact : IsExact rest_of_body
rest_of_body-IsExact n s h = ground arith

whole_body : read_body rest_of_body typed (txt "x") ≡ returns (txt "xabc")
unfolding read_body
whole_body = refl

read_body-returns_example :
    (length (txt "xabc") ≡ typed.content_length)
    × ((s : Text) × (txt "xabc" ≡ txt "x" ++ s))
    × (0 < typed.content_length → typed.has_content_type ≡ true)
read_body-returns_example =
    read_body-returns rest_of_body typed (txt "x") (txt "xabc") rest_of_body-IsExact whole_body

abbrev as_json : Text → Option Text
as_json s = some s

abbrev itself : Text → Text
itself s = s

send_responses-buffered_example :
    send_responses as_json
      (calls_of (txt "1" ∷ txt "2" ∷ []) ok)
      (record { origin = txt "*"; buffer = true; json_body = [] })
    ≡ record {
      http_status = code_map ok;
      origin = txt "*";
      body =
          if leb 300 (code_map ok).0 then [] else data_array (map itself (txt "1" ∷ txt "2" ∷ []));
    }
      ∷ []
send_responses-buffered_example =
    send_responses-buffered as_json itself (txt "*") (txt "1" ∷ txt "2" ∷ []) ok
      ((refl, refl), ((refl, refl), tt))

two_in_one : data_array (txt "1" ∷ txt "2" ∷ []) ≡ txt "{\"data\":[1,2]}"
two_in_one = refl

abbrev pub set_gain : Request
set_gain = record {
  method = put;
  target = record { slot = 1; endpoint = txt "/value"; fqoid = txt "/gain"; stream = false };
  fields = [];
  heading = record typed { detail_level = none_level };
  json_body = txt "5";
  request_received = 0;
}

abbrev pub mixers : Devices
mixers = (1, some mixer) ∷ []

abbrev pub no_claims : Text → Option (List (Text × Claim))
no_claims token = none

abbrev five : Text → Option ProtoValue
five body = some (int32_value (pos 5))

abbrev five_at_gain : List SetValue
five_at_gain = record { oid = txt "/gain"; value = int32_value (pos 5) } ∷ []

five_read : to_multi_one five set_gain ≡ some five_at_gain
unfolding to_multi_one
five_read = refl

set_values_answer-multi_set_value_body_example :
    let call =
      multi_set_value_body no_claims
        (same_client false set_gain)
        (pos set_gain.target.slot)
        five_at_gain
        mixers in
    let answered = set_values_answer no_claims false (to_multi_one five) set_gain mixers in
    (respond_status set_gain answered.0
      ≡ Option.map (λ rc. status_response set_gain rc ∷ []) (status_of (answer call.0)))
    × (answered.1 ≡ call.1)
set_values_answer-multi_set_value_body_example =
    set_values_answer-multi_set_value_body no_claims false (to_multi_one five) set_gain five_at_gain
      mixers five_read

-- A request comes, `Shutdown` connects, and both threads end.
abbrev at : Phase → Bool → ℕ → ℕ → Server
at phase shutdown active running = record {
  phase = phase;
  shutdown = shutdown;
  active_requests = active;
  running = running;
}

to_waiting : Reach started (at waiting true 2 2)
to_waiting =
    next
      (next
        (next
          (next (next here (accept started refl (omega arith))) (spawn (at counted false 1 0) refl))
          (shut_down (at accepting false 1 1)))
        (accept (at accepting true 1 1) refl (omega arith)))
      (spawn (at counted true 2 1) refl)

to_returned : Reach started (at returned true 0 0)
to_returned =
    next
      (next (next to_waiting (complete (at waiting true 2 2) 1 refl))
        (complete (at waiting true 1 1) 0 refl))
      (leave (at waiting true 0 0) refl refl)

run-drained_example : (true ≡ true) × (◌≡◌ {A = ℕ} 0 0)
run-drained_example = run-drained to_returned refl
