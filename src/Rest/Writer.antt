-- ===== src/Rest/Writer.antt =====
-- sdks/cpp/connections/REST: `SocketWriter` and `SSEWriter` of include/SocketWriter.h and
-- src/SocketWriter.cpp.
--
-- What a call writes is its result; closing the socket on an error of the write is left out. A message is
-- `none` where it is `st2138::Empty`; its JSON is the protobuf library's, `none` where that fails.
use catena.Base.{
  ℕ, Bool, true, false, ◌&&◌, ◌||◌, not, List, [], ◌∷◌, ◌++◌, Option, none, some, if◌then◌else◌,
  ltb, leb, length,
}
use catena.Base.Text.{Text, txt}
use catena.Status.{
  StatusCode, ok, cancelled, unknown, invalid_argument, deadline_exceeded, not_found,
  already_exists, permission_denied, unauthenticated, resource_exhausted, failed_precondition,
  aborted, out_of_range, unimplemented, internal, unavailable, data_loss, do_not_use, created,
  accepted, no_content, unprocessable_entity, method_not_allowed, conflict, too_many_requests,
  bad_gateway, service_unavailable, gateway_timeout,
}
use catena.ParamPath.Decimal.{print_index}

-- `codeMap_`
unfoldable pub code_map : StatusCode → ℕ × Text
code_map ok = (200, txt "OK")
code_map created = (201, txt "Created")
code_map accepted = (202, txt "Accepted")
code_map no_content = (204, txt "No Content")
code_map already_exists = (208, txt "Already Reported")
code_map cancelled = (400, txt "Cancelled")
code_map invalid_argument = (400, txt "Bad Request")
code_map unauthenticated = (401, txt "Unauthorized")
code_map permission_denied = (403, txt "Forbidden")
code_map not_found = (404, txt "Not Found")
code_map method_not_allowed = (405, txt "Method Not Allowed")
code_map deadline_exceeded = (408, txt "Request Timeout")
code_map conflict = (409, txt "Conflict")
code_map aborted = (409, txt "Conflict")
code_map failed_precondition = (412, txt "Precondition Failed")
code_map unprocessable_entity = (422, txt "Unprocessable Entity")
code_map resource_exhausted = (429, txt "Too Many Requests")
code_map too_many_requests = (429, txt "Too Many Requests")
code_map out_of_range = (416, txt "Range Not Satisfiable")
code_map bad_gateway = (502, txt "Bad Gateway")
code_map unimplemented = (501, txt "Not Implemented")
code_map internal = (500, txt "Internal Server Error")
code_map unknown = (500, txt "Internal Server Error")
code_map data_loss = (500, txt "Internal Server Error")
code_map do_not_use = (500, txt "Internal Server Error")
code_map service_unavailable = (503, txt "Service Unavailable")
code_map unavailable = (503, txt "Service Unavailable")
code_map gateway_timeout = (504, txt "Gateway Timeout")

-- A response, and its bytes.
pub record Response : Type 0 where
  pub http_status : ℕ × Text
  pub origin : Text
  pub body : Text

abbrev pub line_end : Text
line_end = b'\r' ∷ b'\n' ∷ []

abbrev pub status_line : ℕ × Text → Text
status_line (code, reason) = txt "HTTP/1.1 " ++ (print_index code ++ (b' ' ∷ (reason ++ line_end)))

abbrev pub cors_headers : Text → Text
cors_headers origin =
    txt "Access-Control-Allow-Origin: "
    ++ (origin
        ++ (line_end
            ++ (txt "Access-Control-Allow-Methods: GET, POST, PUT, DELETE, OPTIONS"
                ++ (line_end
                    ++ (txt
                          "Access-Control-Allow-Headers: Content-Type, Authorization, accept, Origin, X-Requested-With, Language, Detail-Level"
                        ++ (line_end
                            ++ (txt "Access-Control-Allow-Credentials: true"
                                ++ (line_end ++ line_end))))))))

unfoldable pub response_text : Response → Text
response_text r =
    status_line r.http_status
    ++ (txt "Content-Type: application/json"
        ++ (line_end
            ++ (txt "Connection: close"
                ++ (line_end
                    ++ (txt "Content-Length: "
                        ++ (print_index (length r.body)
                            ++ (line_end ++ (cors_headers r.origin ++ r.body))))))))

pub record SocketWriter : Type 0 where
  pub origin : Text
  pub buffer : Bool
  pub json_body : Text

abbrev pub is_empty : Text → Bool
is_empty [] = true
is_empty (c ∷ s) = false

module _ {R : Type 0} (json : R → Option Text) where
  -- The status with which the message goes out, and its JSON.
  unfoldable pub to_json : ℕ × Text → Option R → (ℕ × Text) × Text
  unfolding code_map
  to_json status none = (status, [])
  to_json status (some msg) =
      if ltb status.0 300
      then (elim (json msg) [ none ↦ (code_map invalid_argument, []) | some s ↦ (status, s) ])
      else (status, [])

  -- The body with the JSON of the message behind it. Where the conversion is not made, or fails, there
  -- is none.
  unfoldable pub add_json : Text → Text → Bool → Text
  add_json body output converted =
      if converted then (if is_empty body then output else body ++ (b',' ∷ output)) else body

  -- Whether `MessageToJsonString` is called, and goes well.
  unfoldable pub is_converted : ℕ × Text → Option R → Bool
  is_converted status none = false
  is_converted status (some msg) =
      ltb status.0 300 && (elim (json msg) [ none ↦ false | some s ↦ true ])

  -- `SocketWriter::sendResponse`
  unfoldable pub send_response :
      StatusCode → Option R → SocketWriter → SocketWriter × Option Response
  unfolding to_json add_json is_converted code_map
  send_response err msg w =
      let (status, output) = to_json (code_map err) msg in
      let body = add_json w.json_body output (is_converted (code_map err) msg) in
      if not w.buffer || is_empty output
      then (let cleared = if leb 300 status.0 then [] else body in
          let sent =
            if w.buffer && not (is_empty cleared)
            then txt "{\"data\":[" ++ (cleared ++ txt "]}")
            else cleared in
          (
            record w { json_body = sent },
            some (record { http_status = status; origin = w.origin; body = sent }),
          ))
      else (record w { json_body = body }, none)

  -- The calls of `sendResponse` of one request, and what they write.
  unfoldable pub send_responses : List (StatusCode × Option R) → SocketWriter → List Response
  unfolding send_response
  send_responses [] w = []
  send_responses ((err, msg) ∷ calls) w =
      let (w', written) = send_response err msg w in
      let rest = send_responses calls w' in elim written [ none ↦ rest | some r ↦ r ∷ rest ]
