-- ===== src/Rpc/Objects.antt =====
-- sdks/cpp/connections/gRPC/src/controllers/ExternalObjectRequest.cpp: a file of the service is sent in one
-- message.
--
-- What a file holds, if it is there, and the digest of OpenSSL are arguments. An exception of the file
-- system is left out.
use catena.Base.{
  ℕ, ◌≡◌, ◌≤◌, ◌<◌, Bool, true, false, List, [], ◌∷◌, ◌++◌, Option, none, some, length, arith,
}
use catena.Base.Int.{ℤ}
use catena.Base.Text.{Text}
use catena.Status.{StatusCode, ok, not_found, Outcome, returns, throws, with_status}
use catena.Rpc.Controllers.{Devices, device_at, checked_slot}
use catena.Rpc.Streams.{Round, sends, fails, stream_life}
use catena.Rpc.Closing.{IsClosed, needed, stream_life-IsClosed}

-- `st2138::ExternalObjectPayload`
pub record ObjectPayload : Type 0 where
  pub payload : List ℕ
  pub digest : List ℕ

module _ (read_file : Text → Option (List ℕ)) (sha256 : List ℕ → List ℕ) (eo_path : Text)
    (slot : ℤ) where
  -- `kProcess` does nothing of its own; the OID is kept from the request.
  unfoldable pub object_body : Text → Devices → Outcome (StatusCode × Text) × Devices
  object_body oid dms = (returns (ok, oid), dms)

  -- `kWrite`: the slot must have a device, of which nothing else is asked.
  unfoldable pub object_round : Devices → Text → Round Text ObjectPayload
  unfolding checked_slot device_at
  object_round dms oid = elim (checked_slot slot) [
    | throws e ↦ fails e oid
    | returns n ↦ elim (device_at n dms) [
      | none ↦ fails (with_status not_found) oid
      | some dm ↦ elim (read_file (eo_path ++ oid)) [
        | none ↦ fails (with_status not_found) oid
        | some bytes ↦ sends (record { payload = bytes; digest = sha256 bytes }) false oid
      ]
    ]
  ]

  one_message :
      (dms : Devices) (oid oid' : Text) (m : ObjectPayload)
      → object_round dms oid ≡ sends m true oid'
      → 0 < 0
  unfolding object_round
  one_message dms oid oid' m h = absurd (ground arith)

  -- An ExternalObjectRequest call ends with whatever devices and events: it is deregistered once, as its
  -- last action, and was answered at most once.
  object_round-IsClosed :
      (oid : Text) (a b : Bool) (s t : Devices) (events : List (Bool × Devices))
      → needed (λ w. 0) ((object_body oid t).0) ≤ length events
      → IsClosed 1 (stream_life (object_body oid) object_round [] ((a, s) ∷ (b, t) ∷ events))
  object_round-IsClosed oid a b s t events h =
      stream_life-IsClosed (object_body oid) object_round [] (λ w. 0)
        (λ dms w w' m e. one_message dms w w' m e) a b s t events h
