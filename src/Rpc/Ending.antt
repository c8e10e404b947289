-- ===== src/Rpc/Ending.antt =====
-- A call of UpdateSubscriptions ends.
use catena.Base.{
  ℕ, ◌≤◌, ◌<◌, ◌≡◌, ap, inl, inr, Bool, true, List, [], ◌∷◌, length, Option, some, Bool-cases,
  Option-cases, if◌then◌else◌, arith,
}
use catena.Base.Int.{ℤ}
use catena.Base.Text.{Text}
use catena.Status.{StatusCode, is_ok}
use catena.Proto.{ProtoValue}
use catena.Authorizer.{Authorizer, Claim, authz_disabled}
use catena.Params.Stored.{to_proto}
use catena.Device.{Device}
use catena.Device.Lookup.{Target, absent, present, get_param_at}
use catena.Device.Frame.{Found-cases}
use catena.Rpc.{Context}
use catena.Rpc.Streams.{Round, sends, ends, fails, stream_life}
use catena.Rpc.Closing.{IsClosed, needed, stream_life-IsClosed}
use catena.Rpc.Controllers.{device_at}
use catena.Rpc.Streaming.{Service, Updating, not_updating, next_param, update_body, update_round}

next_param_absent :
    (d : Device) (authz : Authorizer) (oid : Text) (oids : List Text) (rc : StatusCode)
    → get_param_at d oid authz_disabled ≡ absent rc
    → next_param d authz (oid ∷ oids) ≡ next_param d authz oids
unfolding next_param
next_param_absent d authz oid oids rc e = rw (e, next_param)

next_param_present :
    (d : Device) (authz : Authorizer) (oid : Text) (oids : List Text) (t : Target)
    → get_param_at d oid authz_disabled ≡ present t
    → next_param d authz (oid ∷ oids) ≡ (
        if is_ok ((to_proto t.value t.descriptor authz).0)
        then (some (t.descriptor.own.oid, (to_proto t.value t.descriptor authz).1), oids)
        else next_param d authz oids)
unfolding next_param
next_param_present d authz oid oids t e = rw (e, next_param)

-- The stream takes the OID that it sends, and those that it passes over.
next_param-less :
    (d : Device) (authz : Authorizer) (oids : List Text) (m : Text × Option ProtoValue)
    → (next_param d authz oids).0 ≡ some m
    → length ((next_param d authz oids).1) < length oids
next_param-less d authz [] m h = absurd (unfold next_param in ground arith)
next_param-less d authz (oid ∷ oids) m h = elim (Found-cases (get_param_at d oid authz_disabled)) [
  | inl (rc, e) ↦
      let skip = next_param_absent d authz oid oids rc e in
      rw skip (omega (arith, next_param-less d authz oids m (rw skip at h)))
  | inr (t, e) ↦
      let step = next_param_present d authz oid oids t e in
      elim (Bool-cases (is_ok ((to_proto t.value t.descriptor authz).0))) [
        | inl good ↦ rw (step, good) (omega arith)
        | inr bad ↦
            rw (step, bad) (omega (arith, next_param-less d authz oids m (rw (step, bad) at h)))
      ]
]

left_after : Round Updating (Text × Option ProtoValue) → List Text
left_after (sends m more w) = w.left
left_after (ends w) = w.left
left_after (fails e w) = w.left

update_round-less :
    (s : Service) (w w' : Updating) (m : Text × Option ProtoValue)
    → update_round s w ≡ sends m true w'
    → length w'.left < length w.left
unfolding update_round left_after
update_round-less (dms, s) w w' m h = elim (Option-cases (device_at w.slot dms)) [
  | inl e ↦ absurd (let clash = rw (e, update_round) at h in ground arith)
  | inr (d, e) ↦ elim (Option-cases ((next_param d w.authz w.left).0)) [
    | inl e' ↦ absurd (let clash = rw (e, e', update_round) at h in ground arith)
    | inr (m', e') ↦
        let same : sends m' true (record w { left = (next_param d w.authz w.left).1 })
            ≡ sends m true w' =
          rw (e, e', update_round) at h in
        rw (← ap left_after same) (next_param-less d w.authz w.left m' e')
  ]
]

-- Whatever the other calls do to the devices and the subscriptions in between, and whichever events
-- fail, an UpdateSubscriptions call ends: behind its request it takes at most two events more than
-- there are OIDs subscribed to, and then it has been deregistered, once and as its last action, and
-- was answered at most once.
pub update_round-IsClosed :
    (decode : Text → Option (List (Text × Claim))) (ctx : Context) (fuel : ℕ) (slot : ℤ)
    (added removed : List Text) (a b : Bool) (s t : Service) (events : List (Bool × Service))
    → needed (λ w. length w.left) ((update_body decode ctx fuel slot added removed t).0)
      ≤ length events
    → IsClosed 1 (
        stream_life
          (update_body decode ctx fuel slot added removed)
          update_round
          not_updating
          ((a, s) ∷ (b, t) ∷ events))
update_round-IsClosed decode ctx fuel slot added removed a b s t events h =
    stream_life-IsClosed (update_body decode ctx fuel slot added removed) update_round not_updating
      (λ w. length w.left) (λ s' w w' m e. update_round-less s' w w' m e) a b s t events h
