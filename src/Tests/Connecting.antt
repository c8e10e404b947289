-- ===== src/Tests/Connecting.antt =====
-- Tokens, ranks and the queue of connections.
use catena.Base.{◌≡◌, refl, ◌↔◌, ◌⊎◌, true, false, ◌||◌, List, [], ◌∷◌, ◌++◌, some, arith}
use catena.Base.Text.{Text, txt, eqb}
use catena.Base.TextSet.{insert, lt_text}
use catena.Status.{returns}
use catena.Authorizer.{Authorizer, text_claim, authorizer, write_authz_param, read_authz}
use catena.Authorizer.Rights.{spaced, has_word, authz_iff}
use catena.Connections.{Connection, init_priority, register, lt_connection}
use catena.Connections.Priority.{IsHighest, ReadsNone, init_priority_cases}
use catena.Connections.Order.{IsAscending}
use catena.Connections.Queue.{IsQueue, register-IsQueue}

abbrev claimed : Authorizer
claimed = record { disabled = false; client_scopes = txt "st2138:op:w" ∷ []; exp = 0 }

abbrev worded : Authorizer
worded = record { disabled = false; client_scopes = txt "openid" ∷ txt "st2138:op:w" ∷ []; exp = 0 }

abbrev scope_words : List Text
scope_words = txt "openid" ∷ []

-- The token's claim is `openid st2138:op:w`.
token_claimed :
    authorizer
      (some ([] ++ (txt "scope", text_claim (spaced scope_words (txt "st2138:op:w"))) ∷ []))
    ≡ returns worded
unfolding authorizer eqb insert lt_text
token_claimed = refl

authz_iff_example :
    ((write_authz_param worded false (txt "st2138:op") ≡ true) ↔ (
      (false ≡ false)
      × (has_word (txt "st2138:op" ++ txt ":w") scope_words (txt "st2138:op:w") ≡ true)))
    × ((read_authz worded (txt "st2138:op") ≡ true) ↔ (
        (has_word (txt "st2138:op") scope_words (txt "st2138:op:w")
          || has_word (txt "st2138:op" ++ txt ":w") scope_words (txt "st2138:op:w"))
        ≡ true))
authz_iff_example =
    authz_iff [] [] scope_words (txt "st2138:op:w") worded false (txt "st2138:op") refl refl
      (refl, tt) refl token_claimed

init_priority_cases_example :
    IsHighest claimed 4 (init_priority true claimed)
    ⊎ ((init_priority true claimed ≡ 0) × ReadsNone claimed 4)
init_priority_cases_example = init_priority_cases claimed

abbrev low : Connection
low = record { handle = 1; priority = 2; object_id = 1; cancelled = false }

abbrev high : Connection
high = record { handle = 2; priority = 9; object_id = 2; cancelled = false }

abbrev middle : Connection
middle = record { handle = 3; priority = 5; object_id = 3; cancelled = false }

abbrev queue : List Connection
queue = low ∷ high ∷ []

queue-IsAscending : IsAscending queue
unfolding lt_connection
queue-IsAscending = ((refl, tt), (tt, tt))

queue-IsQueue : IsQueue 2 queue
queue-IsQueue = record { bounded = omega arith; ascending = queue-IsAscending }

register-IsQueue_example : IsQueue 2 (register 2 middle queue).queue
register-IsQueue_example = register-IsQueue 2 middle queue queue-IsQueue
