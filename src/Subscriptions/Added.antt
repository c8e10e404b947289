-- ===== src/Subscriptions/Added.antt =====
-- What `addSubscription` adds, on a device whose parameters have no fields.
use catena.Base.{
  ℕ, suc, ◌≡◌, refl, ap, ◌∙◌, ◌⊎◌, inl, inr, Bool, true, false, ◌||◌, ◌&&◌, not, List, [], ◌∷◌, any,
  All, Bool-cases, if◌then◌else◌, ◌==◌, ==_iff, arith,
}
use catena.Base.Text.{Text, txt, eqb, eqb_sound}
use catena.Base.TextSet.{contains, insert, contains-insert}
use catena.Status.{StatusCode, Outcome-cases, returns, throws}
use catena.Authorizer.{Authorizer}
use catena.ParamPath.{
  ParamPath, Segment, index, string, parse, empty, pop, front_is_string, front_is_index,
  front_as_string, front_as_index, back_is_index,
}
use catena.ParamPath.RoundTrip.{parse-IsValid}
use catena.Params.{can_read}
use catena.Device.{Device}
use catena.Device.Lookup.{Target, Found, absent, present, find_param, get_param, get_param_at}
use catena.Device.Frame.{Found-cases}
use catena.Visitor.{walked, traverse_params, subscription_visitor}
use catena.Visitor.Paths.{at_front}
use catena.Visitor.Below.{IsFlat, found_below}
use catena.Visitor.Flat.{IsEntered, traverse_top, traverse_member, found_no_fields}
use catena.Subscriptions.{Subscribed, update, is_wildcard, base_path, is_subscribed}
use catena.Subscriptions.Adding.{add_oid, add_subscription}
use catena.Subscriptions.Readable.{get_top_level_params-readable, add_targets-readable}

abbrev pub is_present : Found → Bool
is_present (absent rc) = false
is_present (present t) = true

-- A path to a member of an array.
unfoldable pub is_member : Text → Bool
is_member path = elim (parse path) [ throws e ↦ false | returns p ↦ back_is_index p ]

-- The OIDs that a request is for: every readable parameter of the device for the wildcard of all; the
-- parameter before another wildcard, but no member of an array; else the OID itself. The client may
-- read what is found.
unfoldable pub covers : Device → Authorizer → Text → Text → Bool
covers d authz oid o =
    if not (is_wildcard oid)
    then is_present (get_param_at d oid authz) && eqb oid o
    else if eqb oid (txt "/*")
    then any (λ e. eqb (b'/' ∷ e.0) o && can_read authz e.1.descriptor) d.params
    else is_present (get_param_at d (base_path oid) authz)
      && not (is_member (base_path oid))
      && eqb (base_path oid) o

-- Where something is found under a path, it is a parameter or a member of one.
present_shape :
    (d : Device) (authz : Authorizer) (segs : List Segment) (t : Target)
    → (get_param d (at_front segs) authz).0 ≡ present t
    → ((name : Text) × (segs ≡ string name ∷ []))
      ⊎ ((name : Text) × (i : ℕ) × (segs ≡ string name ∷ index i ∷ []))
unfolding get_param find_param empty pop front_is_string front_is_index front_as_string
    front_as_index
present_shape d authz [] t h = absurd (ground arith)
present_shape d authz (index i ∷ segs) t h = absurd (ground arith)
present_shape d authz (string name ∷ []) t h = inl (name, refl)
present_shape d authz (string name ∷ index i ∷ []) t h = inr (name, i, refl)
present_shape d authz (string name ∷ string s ∷ segs) t h = absurd (ground arith)
present_shape d authz (string name ∷ index i ∷ x ∷ segs) t h =
    absurd (found_below d authz name i x segs t h)

parse-at_front :
    (text : Text) (path : ParamPath)
    → parse text ≡ returns path
    → parse text ≡ returns (at_front path.segments)
parse-at_front text path e =
    let front = (parse-IsValid text path e).1 in
    e ∙ ap (λ k. returns (record { segments = path.segments; front_idx = k })) front

-- The wildcard of the parameter or the member under a path.
traverse_found :
    (d : Device) (authz : Authorizer) (n : ℕ) (t : Target) (base : Text) (oids : List Text)
    → All (IsFlat d) d.params
    → get_param_at d base authz ≡ present t
    → IsEntered
        (not (is_member base))
        base
        oids
        (traverse_params d authz subscription_visitor (suc (suc n)) t base oids)
unfolding IsEntered back_is_index get_param_at is_member
traverse_found d authz n t base oids all h = elim (Outcome-cases (parse base)) [
  | inl (x, e) ↦ absurd (let clash = rw (e, get_param_at) at h in ground arith)
  | inr (path, e) ↦
      let read = parse-at_front base path e in
      elim (present_shape d authz path.segments t (rw (read, get_param_at) at h)) [
        | inl (name, shape) ↦
            let read' = rw shape at read in
            rw (read', is_member)
              (traverse_top d authz n t base name oids all read'
                (found_no_fields d authz base path t all e h))
        | inr (name, i, shape) ↦
            let read' = rw shape at read in
            rw (read', is_member)
              (
                oids,
                (
                  traverse_member d authz (suc n) t base name i oids read'
                      (found_no_fields d authz base path t all e h),
                  λ o. refl,
                ),
              )
      ]
]

found_twice :
    (oid o : Text) (oids : List Text) (b : Bool)
    → contains oid oids ≡ true
    → contains o oids ≡ ((b && eqb oid o) || contains o oids)
found_twice oid o oids b h = elim (Bool-cases (eqb oid o)) [
  | inr differ ↦ rw differ (ground arith)
  | inl same ↦ let here = rw (eqb_sound oid o same) at h in rw (same, here) (ground arith)
]

add_oid-covers :
    (d : Device) (authz : Authorizer) (n : ℕ) (oid : Text) (oids : List Text)
    → All (IsFlat d) d.params
    → (after : List Text) × (((add_oid (suc (suc n)) oid d authz oids).1 ≡ walked after)
        × ((o : Text) → contains o after ≡ (covers d authz oid o || contains o oids)))
unfolding add_oid covers IsEntered
add_oid-covers d authz n oid oids flat = elim (Bool-cases (is_wildcard oid)) [
  | inr single ↦ elim (Bool-cases (contains oid oids)) [
    | inl there ↦ (
      oids,
      (
        rw (single, there) refl,
        λ o. rw single (found_twice oid o oids (is_present (get_param_at d oid authz)) there),
      ),
    )
    | inr new ↦ elim (Found-cases (get_param_at d oid authz)) [
      | inl (rc, e) ↦ (oids, (rw (single, new, e) refl, λ o. rw (single, e) refl))
      | inr (t, e) ↦ (
        insert oid oids,
        (rw (single, new, e) refl, λ o. rw (single, e) (contains-insert oid o oids)),
      )
    ]
  ]
  | inl wild ↦ elim (Bool-cases (eqb oid (txt "/*"))) [
    | inl whole ↦
        let (after, (same, told)) = add_targets-readable d authz n d.params oids flat flat in
        (
          after,
          (
            rw (wild, whole, get_top_level_params-readable d authz StatusCode.ok d.params flat)
                same,
            λ o. rw (wild, whole) (told o),
          ),
        )
    | inr part ↦ elim (Found-cases (get_param_at d (base_path oid) authz)) [
      | inl (rc, e) ↦ (oids, (rw (wild, part, e) refl, λ o. rw (wild, part, e) refl))
      | inr (t, e) ↦
          let (after, (same, told)) = traverse_found d authz n t (base_path oid) oids flat e in
          (after, (rw (wild, part, e) same, λ o. rw (wild, part, e) (told o)))
    ]
  ]
]

-- A request adds exactly the OIDs that it covers to those of the device's slot, and nothing to any
-- other slot, on a device whose parameters have no fields, on fuel for two levels.
pub is_subscribed-add_subscription :
    (d : Device) (authz : Authorizer) (n : ℕ) (oid : Text) (s : Subscribed)
    → All (IsFlat d) d.params
    → (after : Subscribed) × (((add_subscription (suc (suc n)) oid d authz s).1 ≡ walked after)
        × ((o : Text) (slot : ℕ)
            → is_subscribed o slot after
              ≡ ((slot == d.slot && covers d authz oid o) || is_subscribed o slot s)))
unfolding add_subscription is_subscribed
is_subscribed-add_subscription d authz n oid s flat =
    let (after, (same, told)) = add_oid-covers d authz n oid (s d.slot) flat in
    (
      update d.slot after s,
      (
        rw same refl,
        λ o slot. (elim (Bool-cases (slot == d.slot)) [
          | inr other ↦ rw other refl
          | inl here ↦ let slot_here = (==_iff slot d.slot).0 here in rw (here, slot_here) (told o)
        ]),
      ),
    )
