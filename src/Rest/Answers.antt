-- ===== src/Rest/Answers.antt =====
-- SocketWriter.cpp: the messages of a request in one response, or as events.
use mathlib.Core.List.{append_assoc}
use catena.Base.{
  ◌≡◌, refl, ap, ◌∙◌, true, false, not, List, [], ◌∷◌, ◌++◌, Option, none, some, inl, inr,
  if◌then◌else◌, leb, map, All, Bool-cases, arith,
}
use catena.Base.Text.{Text, txt}
use catena.Status.{StatusCode, ok}
use catena.Utils.Subs.{join}
use catena.Rest.Writer.{code_map, SocketWriter, is_empty, send_response, send_responses}

-- The messages that a handler sends while all is well, and its last call, without a message.
abbrev pub calls_of : {R : Type 0} → List R → StatusCode → List (StatusCode × Option R)
calls_of msgs rc = map (λ m. (ok, some m)) msgs ++ (rc, none) ∷ []

-- The JSON of messages in an array, as the code writes it; nothing for no message.
abbrev pub data_array : List Text → Text
data_array [] = []
data_array (s ∷ texts) = txt "{\"data\":[" ++ (join (txt ",") (s ∷ texts) ++ txt "]}")

-- The body so far, with what is to come.
abbrev more_of : Text → List Text → Text
more_of body [] = body
more_of body (s ∷ texts) = more_of (if is_empty body then s else body ++ (b',' ∷ s)) texts

abbrev wrapped : Text → Text
wrapped [] = []
wrapped (c ∷ s) = txt "{\"data\":[" ++ ((c ∷ s) ++ txt "]}")

join-grow :
    (s t : Text) (texts : List Text)
    → join (txt ",") ((s ++ (b',' ∷ t)) ∷ texts) ≡ join (txt ",") (s ∷ t ∷ texts)
join-grow s t [] = refl
join-grow s t (u ∷ texts) = append_assoc s (b',' ∷ t) _

append-nonempty : (s t : Text) → is_empty (s ++ (b',' ∷ t)) ≡ false
append-nonempty [] t = refl
append-nonempty (c ∷ s) t = refl

more_of-join :
    (s : Text) (texts : List Text)
    → is_empty s ≡ false
    → more_of s texts ≡ join (txt ",") (s ∷ texts)
more_of-join s [] h = refl
more_of-join s (t ∷ texts) h =
    rw h (more_of-join (s ++ (b',' ∷ t)) texts (append-nonempty s t) ∙ join-grow s t texts)

wrapped-nonempty :
    (s : Text) → is_empty s ≡ false → wrapped s ≡ txt "{\"data\":[" ++ (s ++ txt "]}")
wrapped-nonempty [] h = absurd (ground arith)
wrapped-nonempty (c ∷ s) h = refl

join-nonempty :
    (s : Text) (texts : List Text)
    → is_empty s ≡ false
    → is_empty (join (txt ",") (s ∷ texts)) ≡ false
join-nonempty [] texts h = absurd (ground arith)
join-nonempty (c ∷ s) [] h = refl
join-nonempty (c ∷ s) (t ∷ texts) h = refl

wrapped-data_array :
    (texts : List Text)
    → All (λ s. is_empty s ≡ false) texts
    → wrapped (more_of [] texts) ≡ data_array texts
wrapped-data_array [] h = refl
wrapped-data_array (s ∷ texts) h =
    rw (more_of-join s texts h.0) (wrapped-nonempty _ (join-nonempty s texts h.0))

wrapped-if :
    (s : Text) → (if not (is_empty s) then txt "{\"data\":[" ++ (s ++ txt "]}") else s) ≡ wrapped s
wrapped-if [] = refl
wrapped-if (c ∷ s) = refl

module _ {R : Type 0} (json : R → Option Text) (text_of : R → Text) where
  -- A message is converted to a text, which is not empty.
  abbrev pub IsJson : R → Type 0
  IsJson m = (json m ≡ some (text_of m)) × (is_empty (text_of m) ≡ false)

  message_kept :
      (m : R) (w : SocketWriter)
      → IsJson m
      → w.buffer ≡ true
      → send_response json ok (some m) w ≡ (
        record w {
          json_body = if is_empty w.json_body then text_of m else w.json_body ++ (b',' ∷ text_of m);
        },
        none,
      )
  unfolding send_response
  message_kept m w (j, full) b = rw (j, full, b) refl

  next_call :
      (err : StatusCode) (msg : Option R) (calls : List (StatusCode × Option R))
      (w w' : SocketWriter)
      → send_response json err msg w ≡ (w', none)
      → send_responses json ((err, msg) ∷ calls) w ≡ send_responses json calls w'
  unfolding send_responses
  next_call err msg calls w w' h =
      ap
        (λ r. elim r.1 [
          | none ↦ send_responses json calls r.0
          | some a ↦ a ∷ send_responses json calls r.0
        ])
        h

  last_call :
      (rc : StatusCode) (w : SocketWriter)
      → w.buffer ≡ true
      → send_responses json ((rc, none) ∷ []) w
        ≡ record {
          http_status = code_map rc;
          origin = w.origin;
          body = if leb 300 (code_map rc).0 then [] else wrapped w.json_body;
        }
          ∷ []
  unfolding send_responses send_response
  last_call rc w b = elim (Bool-cases (leb 300 (code_map rc).0)) [
    | inl failed ↦ rw (b, failed) refl
    | inr fine ↦ rw (b, fine, wrapped-if w.json_body) refl
  ]

  sent_together :
      (msgs : List R) (rc : StatusCode) (w : SocketWriter)
      → All IsJson msgs
      → w.buffer ≡ true
      → send_responses json (calls_of msgs rc) w
        ≡ record {
          http_status = code_map rc;
          origin = w.origin;
          body =
              if leb 300 (code_map rc).0
              then []
              else wrapped (more_of w.json_body (map text_of msgs));
        }
          ∷ []
  unfolding send_responses
  sent_together [] rc w h b = last_call rc w b
  sent_together (m ∷ msgs) rc w h b =
      next_call ok (some m) _ w _ (message_kept m w h.0 b) ∙ sent_together msgs rc _ h.1 b

  texts-nonempty :
      (msgs : List R) → All IsJson msgs → All (λ s. is_empty s ≡ false) (map text_of msgs)
  texts-nonempty [] h = tt
  texts-nonempty (m ∷ msgs) h = (h.0.1, texts-nonempty msgs h.1)

  -- A writer that buffers sends one response for all the messages of a request, at the last call, with
  -- the status of that call: for an error without a body, and else with the JSON of every message in
  -- their order, in an array. The JSON of a message is not empty.
  pub send_responses-buffered :
      (origin : Text) (msgs : List R) (rc : StatusCode)
      → All IsJson msgs
      → send_responses json
          (calls_of msgs rc)
          (record { origin = origin; buffer = true; json_body = [] })
        ≡ record {
          http_status = code_map rc;
          origin = origin;
          body = if leb 300 (code_map rc).0 then [] else data_array (map text_of msgs);
        }
          ∷ []
  send_responses-buffered origin msgs rc h =
      sent_together msgs rc _ h refl
      ∙ rw (wrapped-data_array (map text_of msgs) (texts-nonempty msgs h)) refl
