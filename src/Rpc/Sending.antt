-- ===== src/Rpc/Sending.antt =====
-- What a stream sends on a state that stays, and that of DeviceRequest.
use catena.Base.{
  ℕ, zero, suc, ◌≡◌, refl, ap, ◌∙◌, Bool, true, false, List, [], ◌∷◌, ◌++◌, map, length, Option,
  none, some,
}
use catena.Base.Int.{ℤ}
use catena.Base.Text.{Text}
use catena.Status.{StatusCode, ok, Outcome, returns}
use catena.Authorizer.{Authorizer, Claim}
use catena.Device.{Device, DetailLevel, subscriptions}
use catena.Device.Serializer.{eq_level}
use catena.Device.Parts.{
  Component, device_part, later_parts, get_device_serializer, get_next, has_more,
}
use catena.Subscriptions.{Subscribed}
use catena.Rpc.{CallStatus, Action, Context, initial_status, client_authorizer}
use catena.Rpc.Streams.{Round, sends, ends, write_round, proceed_stream, run_stream, stream_life}
use catena.Rpc.Closing.{run_process, run_write}
use catena.Rpc.Controllers.{device_at, checked_slot}
use catena.Rpc.Streaming.{Service, with_device, request_device, device_body, device_round}

-- The rounds of a stream on a state that stays, and what they send.
data Unrolls {R S W : Type 0} (round : S → W → Round W R) (s : S) : W → List R → Type 0 where
  ended : (w w' : W) → round s w ≡ ends w' → Unrolls round s w []
  last : (w w' : W) (r : R) → round s w ≡ sends r false w' → Unrolls round s w (r ∷ [])
  more :
      (w w' : W) (r : R) (rs : List R)
      → round s w ≡ sends r true w'
      → Unrolls round s w' rs
      → Unrolls round s w (r ∷ rs)

-- `n` events that go well, on a state that stays.
abbrev pub steady : {S : Type 0} → ℕ → S → List (Bool × S)
steady zero s = []
steady (suc n) s = (true, s) ∷ steady n s

module _ {R S W : Type 0} (handle : S → Outcome (StatusCode × W) × S) (round : S → W → Round W R)
    (idle : W) where
  run_steady :
      (s : S) (w : W) (rs : List R)
      → Unrolls round s w rs
      → run_stream handle round idle (steady (suc (suc (length rs))) s) CallStatus.write w
        ≡ map (λ r. Action.send r) rs ++ Action.complete ∷ Action.deregister ∷ []
  unfolding proceed_stream
  run_steady s w [] (ended w' w'' e) =
      rw
        (run_write handle round idle (steady 1 s) s w w'' CallStatus.finish (Action.complete ∷ [])
          (rw (e, write_round)))
        refl
  run_steady s w (r ∷ []) (last w' w'' r' e) =
      rw
        (run_write handle round idle (steady 2 s) s w w'' CallStatus.post_write (Action.send r ∷ [])
          (rw (e, write_round)))
        refl
  run_steady s w (r ∷ rs) (more w' w'' r' rs' e later) =
      rw
        (run_write handle round idle (steady (suc (suc (length rs))) s) s w w'' CallStatus.write
          (Action.send r ∷ []) (rw (e, write_round)))
        (ap (λ l. Action.send r ∷ l) (run_steady s w'' rs later))

-- The parts of a device, given one by one.
device_round-Unrolls :
    (s : Service) (c : Component) (parts : List Component)
    → Unrolls device_round s (some (c ∷ parts)) (c ∷ parts)
unfolding device_round get_next has_more
device_round-Unrolls s c [] = last (some (c ∷ [])) (some []) c refl
device_round-Unrolls s c (c' ∷ parts) =
    more (some (c ∷ c' ∷ parts)) (some (c' ∷ parts)) c (c' ∷ parts) refl
      (device_round-Unrolls s c' parts)

sends_parts :
    (decode : Text → Option (List (Text × Claim))) (ctx : Context) (fuel : ℕ) (slot : ℤ)
    (dl : DetailLevel) (oids : List Text) (s t : Service) (c : Component) (parts : List Component)
    → device_body decode ctx fuel slot dl oids s ≡ (returns (ok, some (c ∷ parts)), t)
    → stream_life
        (device_body decode ctx fuel slot dl oids)
        device_round
        none
        ((true, s) ∷ (true, s) ∷ steady (suc (suc (length parts))) t)
      ≡ Action.request
        ∷ Action.spawn true
        ∷ Action.notify_when_done
        ∷ (map (λ r. Action.send r) (c ∷ parts) ++ Action.complete ∷ Action.deregister ∷ [])
unfolding proceed_stream initial_status
sends_parts decode ctx fuel slot dl oids s t c parts h =
    let body = device_body decode ctx fuel slot dl oids in
    let events = steady (suc (suc (length parts))) t in
    let first =
      run_process body device_round none events s ok none (some (c ∷ parts)) (ap (λ r. r.0) h)
        refl in
    let told =
      run_steady body device_round none t (some (c ∷ parts)) (c ∷ parts)
        (device_round-Unrolls t c parts) in
    ap (λ l. Action.request ∷ l)
      (first
        ∙ (ap
              (λ x.
                Action.spawn true
                ∷ Action.notify_when_done
                ∷ run_stream body device_round none ((true, x) ∷ events) CallStatus.write
                    (some (c ∷ parts)))
              (ap (λ r. r.1) h)
            ∙ ap (λ l. Action.spawn true ∷ Action.notify_when_done ∷ l) told))

-- The body of a stream, where there is a device and an authorizer for it.
with_device_found :
    {W : Type 0} (decode : Text → Option (List (Text × Claim))) (ctx : Context) (slot : ℤ)
    (idle : W) (check : Device → Outcome StatusCode)
    (body : ℕ → Device → Authorizer → Subscribed → Outcome (StatusCode × W) × Subscribed)
    (s : Service) (n : ℕ) (d : Device) (authz : Authorizer)
    → checked_slot slot ≡ returns n
    → device_at n s.0 ≡ some d
    → check d ≡ returns ok
    → client_authorizer decode ctx ≡ returns authz
    → with_device decode ctx slot idle check body s
      ≡ ((body n d authz s.1).0, (s.0, (body n d authz s.1).1))
unfolding with_device
with_device_found decode ctx slot idle check body (dms, s) n d authz in_range there checked known =
    rw (in_range, there, checked, known, with_device)

request_device-level :
    (fuel : ℕ) (dl : DetailLevel) (oids : List Text) (n : ℕ) (d : Device) (authz : Authorizer)
    (s : Subscribed)
    → eq_level dl subscriptions ≡ false
    → request_device fuel dl oids n d authz s
      ≡ (returns (ok, some (get_device_serializer d authz [] dl)), s)
unfolding request_device
request_device-level fuel dl oids n d authz s level = rw (level, request_device, level, level)

-- A DeviceRequest call for a device that there is, from a client with an authorizer and not for the
-- level of the subscriptions, sends the parts of the device one by one and in their order, the first
-- at the request's own event; then it completes the stream and is deregistered, where all events go
-- well and the devices stay.
pub device_round-sends :
    (decode : Text → Option (List (Text × Claim))) (ctx : Context) (fuel : ℕ) (slot : ℤ)
    (dl : DetailLevel) (oids : List Text) (s : Service) (n : ℕ) (d : Device) (authz : Authorizer)
    → checked_slot slot ≡ returns n
    → device_at n s.0 ≡ some d
    → client_authorizer decode ctx ≡ returns authz
    → eq_level dl subscriptions ≡ false
    → stream_life
        (device_body decode ctx fuel slot dl oids)
        device_round
        none
        (steady (suc (suc (suc (length (get_device_serializer d authz [] dl))))) s)
      ≡ Action.request
        ∷ Action.spawn true
        ∷ Action.notify_when_done
        ∷ (map (λ r. Action.send r) (get_device_serializer d authz [] dl)
            ++ Action.complete ∷ Action.deregister ∷ [])
unfolding get_device_serializer
device_round-sends decode ctx fuel slot dl oids (dms, s) n d authz in_range there known level =
    sends_parts decode ctx fuel slot dl oids (dms, s) (dms, s) (device_part d)
      (later_parts d authz [] dl) body
  where
    body :
        device_body decode ctx fuel slot dl oids (dms, s)
        ≡ (returns (ok, some (device_part d ∷ later_parts d authz [] dl)), (dms, s))
    body =
        unfold device_body in
        (with_device_found decode ctx slot none (λ x. returns ok) (request_device fuel dl oids)
            (dms, s) n d authz in_range there refl known
          ∙ ap (λ r. (r.0, (dms, r.1))) (request_device-level fuel dl oids n d authz s level))
