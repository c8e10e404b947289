-- ===== src/Rest/Events.antt =====
-- sdks/cpp/connections/REST/src/SocketWriter.cpp: `SSEWriter`, the writer of server-sent events.
use catena.Base.{
  ℕ, Bool, true, ◌&&◌, not, List, [], ◌∷◌, ◌++◌, Option, none, some, if◌then◌else◌, ltb,
}
use catena.Base.Text.{Text, txt}
use catena.Status.{StatusCode, invalid_argument}
use catena.Rest.Writer.{code_map, is_empty, status_line, cors_headers, line_end}

pub record SseWriter : Type 0 where
  pub origin : Text
  pub headers_sent : Bool

-- What a call writes: the heading with the status, where it was not sent yet, and an event with its JSON.
pub record Chunk : Type 0 where
  pub heading : Option ((ℕ × Text) × Text)
  pub event : Option Text

unfoldable pub heading_text : Option ((ℕ × Text) × Text) → Text
heading_text none = []
heading_text (some (status, origin)) =
    status_line status
    ++ (txt "Content-Type: text/event-stream"
        ++ (line_end
            ++ (txt "Cache-Control: no-cache"
                ++ (line_end
                    ++ (txt "Connection: keep-alive" ++ (line_end ++ cors_headers origin))))))

unfoldable pub event_text : Option Text → Text
event_text none = []
event_text (some s) = txt "data: " ++ (s ++ txt "\n\n")

unfoldable pub chunk_text : Chunk → Text
unfolding heading_text event_text
chunk_text c = heading_text c.heading ++ event_text c.event

module _ {R : Type 0} (json : R → Option Text) where
  -- The status after the conversion of the message, and its JSON.
  unfoldable pub event_json : ℕ × Text → Option R → (ℕ × Text) × Text
  unfolding code_map
  event_json status none = (status, [])
  event_json status (some msg) = elim (json msg) [
    | none ↦ (code_map invalid_argument, [])
    | some s ↦ (status, s)
  ]

  -- `SSEWriter::sendResponse`
  unfoldable pub send_event : StatusCode → Option R → SseWriter → SseWriter × Chunk
  unfolding event_json code_map
  send_event err msg w =
      let (status, output) = event_json (code_map err) msg in
      (
        record w { headers_sent = true },
        record {
          heading = if not w.headers_sent then some (status, w.origin) else none;
          event = if ltb status.0 300 && not (is_empty output) then some output else none;
        },
      )

  unfoldable pub send_events : List (StatusCode × Option R) → SseWriter → List Chunk
  unfolding send_event
  send_events [] w = []
  send_events ((err, msg) ∷ calls) w =
      let (w', written) = send_event err msg w in written ∷ send_events calls w'
