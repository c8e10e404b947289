-- ===== src/Device/Single.antt =====
-- A single value: what `tryMultiSetValue` accepts, `commitMultiSetValue` carries out.
use catena.Base.{
  ℕ, ◌≤◌, ◌≡◌, sym, ◌∙◌, ap, ◌⊎◌, inl, inr, false, ◌&&◌, not, [], ◌∷◌, some, Bool-cases,
  Option-cases, arith, length, ◌==◌,
}
use catena.Base.Text.{Text, lookup}
use catena.Status.{
  StatusCode, ok, is_ok, is_ok-true, invalid_argument, Outcome-cases, returns, throws, Exception,
  with_status, std_exception, null_dereference, returns-injective, >>=-eq-returns,
}
use catena.Proto.{ProtoValue}
use catena.Authorizer.{Authorizer}
use catena.ParamPath.{
  ParamPath, parse, back_is_index, back_as_index, pop_back, front_as_string, empty, pop, k_none,
}
use catena.ParamPath.RoundTrip.{parse-IsValid}
use catena.Params.{Descriptor}
use catena.Params.Stored.{
  Stored, size, is_vector, push_default, Trackers, no_trackers, member_sizes, validate_set_value,
  validate_whole, is_settable, holds_vector,
}
use catena.Params.Trackers.{no_trackers-Tracks, validate_member-Tracks}
use catena.Device.{Device}
use catena.Device.Lookup.{Target, present, get_param, top_level}
use catena.Device.Values.{
  SetValue, owner, validate_at, store, write_value, validate_one, try_values, reset_values,
  try_multi_set_value, commit_member, commit_one, commit_multi_set_value, set_value,
}
use catena.Device.Frame.{Found-cases}
use catena.Device.Settable.{
  IsReached, find_param-IsReached, get_param-absent, IsSettable, add_back-some, member-push_default,
  validate_set_value-IsSettable, find_param-push_back_index,
}

commit_member-returns :
    (d : Device) (authz : Authorizer) (v : SetValue) (t : Target) (i : ℕ) (rest : ParamPath)
    → IsReached authz t rest
    → IsSettable t.value t.descriptor authz i
    → (rc : StatusCode) × ((commit_member d authz v t i rest).0 ≡ returns rc)
unfolding commit_member
commit_member-returns d authz v t i rest reached settable = elim settable.in_range [
  | inl (end, room) ↦
      let (new, here) = member-push_default t.value settable.vector in
      (
        (write_value (store t (push_default t.value) d)
            (record t { index = some (size t.value); value = new }) v authz).0,
        rw (
          end,
          add_back-some t.value t.descriptor authz settable.vector settable.writable room,
          here,
        ),
      )
  | inr (at, inside) ↦
      let (new, here) = find_param-push_back_index t rest authz i reached settable.vector inside in
      ((write_value d (record t { index = some i; value = new }) v authz).0, rw (at, here))
]

validate_set_value-returns :
    (value : Stored) (src : ProtoValue) (index : ℕ) (pd : Descriptor) (authz : Authorizer)
    → (r : StatusCode × Trackers) × (validate_set_value value src index pd authz no_trackers
        ≡ returns r)
unfolding validate_set_value
validate_set_value-returns value src index pd authz = elim (Bool-cases (is_settable src)) [
  | inr unsettable ↦ ((invalid_argument, no_trackers), rw unsettable)
  | inl settable ↦ elim (Bool-cases (is_vector value && not (holds_vector src))) [
    | inr whole ↦ (validate_whole value src index pd authz no_trackers, rw (settable, whole))
    | inl single ↦
        let (rc, tr, (e, rest)) =
          validate_member-Tracks value src index pd authz no_trackers (member_sizes value)
            (no_trackers-Tracks value (ground arith)) in
        ((rc, tr), rw (settable, single, e))
  ]
]

module _ (d : Device) (authz : Authorizer) (src : ProtoValue) (parent : ParamPath) (index : ℕ) where
  pub validate_at-returns : (rc : StatusCode) × (validate_at d authz src parent index ≡ returns rc)
  unfolding validate_at
  validate_at-returns = elim (Found-cases ((get_param d parent authz).0)) [
    | inl (rc, missing) ↦ (rc, rw (missing, validate_at))
    | inr (t, found) ↦
        let (r, e) = validate_set_value-returns t.value src index t.descriptor authz in
        (r.0, rw (found, e, validate_at))
  ]

  -- What is validated is found, and fits.
  validated :
      validate_at d authz src parent index ≡ returns ok
      → (t : Target) × (((get_param d parent authz).0 ≡ present t)
          × ((index == k_none) ≡ false → IsSettable t.value t.descriptor authz index))
  unfolding validate_at
  validated h = elim (Found-cases ((get_param d parent authz).0)) [
    | inl (rc, missing) ↦
        let clash : rc ≡ ok = returns-injective (rw (missing, validate_at) at h) in
        let bad : is_ok ok ≡ false = rw clash at (get_param-absent d parent authz rc missing) in cc
    | inr (t, found) ↦ (
      t,
      (
        found,
        λ named.
            (let (r, e, final) =
                >>=-eq-returns (validate_set_value t.value src index t.descriptor authz no_trackers)
                  (λ r. returns r.0) (rw (found, validate_at) at h) in
              validate_set_value-IsSettable t.value src index t.descriptor authz (r.1) named
                (e ∙ ap (λ rc. returns (rc, r.1)) (returns-injective final))),
      ),
    )
  ]

get_param-IsReached :
    (d : Device) (path : ParamPath) (authz : Authorizer) (t : Target)
    → path.front_idx ≤ length path.segments
    → (get_param d path authz).0 ≡ present t
    → IsReached authz t ((get_param d path authz).1)
unfolding get_param empty pop
get_param-IsReached d path authz t within h =
    elim (Option-cases (lookup (front_as_string path) d.params)) [
      | inl missing ↦ ground arith
      | inr (p, here) ↦
          ground
            (arith, find_param-IsReached (top_level (front_as_string path) p) (pop path) authz t)
    ]

pop_back-within :
    (p : ParamPath)
    → p.front_idx ≤ length p.segments
    → (pop_back p).front_idx ≤ length (pop_back p).segments
unfolding pop_back
pop_back-within p within = ground arith

commit_one-returns :
    (d : Device) (authz : Authorizer) (v : SetValue) (path : ParamPath)
    → parse v.oid ≡ returns path
    → (back_as_index path == k_none) ≡ false
    → validate_at d authz v.value ((owner path).0) ((owner path).1) ≡ returns ok
    → (rc : StatusCode) × ((commit_one d authz v).0 ≡ returns rc)
unfolding commit_one
commit_one-returns d authz v path good named h = elim (Bool-cases (back_is_index path)) [
  | inl ends ↦
      let (t, (found, fits)) =
        validated d authz v.value (pop_back path) (back_as_index path) (rw ends at h) in
      let (rc, e) =
        commit_member-returns d authz v t (back_as_index path)
          ((get_param d (pop_back path) authz).1)
          (get_param-IsReached d (pop_back path) authz t
            (pop_back-within path (parse-IsValid v.oid path good).0.within) found)
          (fits named) in
      (rc, rw (commit_one, good, ends, found, e))
  | inr whole ↦
      let (t, (found, fits)) = validated d authz v.value path k_none (rw whole at h) in
      ((write_value d t v authz).0, rw (commit_one, good, whole, found))
]

module _ (d : Device) (authz : Authorizer) (v : SetValue) where
  try-returns :
      (path : ParamPath) (rc : StatusCode)
      → parse v.oid ≡ returns path
      → validate_at d authz v.value ((owner path).0) ((owner path).1) ≡ returns rc
      → try_multi_set_value d (v ∷ []) ok authz ≡ returns rc
  unfolding try_multi_set_value try_values reset_values validate_one
  try-returns path rc good h = elim (Bool-cases (is_ok rc)) [
    | inl fine ↦ rw (good, h, fine, good) (ap returns (sym (is_ok-true rc fine)))
    | inr bad ↦ rw (good, h, bad, good)
  ]

  try-throws :
      (e : Exception) → parse v.oid ≡ throws e → try_multi_set_value d (v ∷ []) ok authz ≡ throws e
  unfolding try_multi_set_value try_values reset_values validate_one
  try-throws (with_status rc) bad = rw (bad, bad)
  try-throws std_exception bad = rw bad
  try-throws null_dereference bad = rw bad

-- Setting one value returns a status, and neither meets a null pointer nor throws, where its path
-- parses and does not end in the index that stands for none. Where the path does not parse it throws
-- what the constructor of the path throws.
pub set_value_cases :
    (d : Device) (jptr : Text) (src : ProtoValue) (authz : Authorizer)
    → ((path : ParamPath) → parse jptr ≡ returns path → (back_as_index path == k_none) ≡ false)
    → ((rc : StatusCode) × ((set_value d jptr src authz).0 ≡ returns rc))
      ⊎ ((e : Exception) × ((parse jptr ≡ throws e) × ((set_value d jptr src authz).0 ≡ throws e)))
unfolding set_value commit_multi_set_value
set_value_cases d jptr src authz named = elim (Outcome-cases (parse jptr)) [
  | inl (e, bad) ↦
      inr (e, (bad, rw (set_value, try-throws d authz (record { oid = jptr; value = src }) e bad)))
  | inr (path, good) ↦
      let v : SetValue = record { oid = jptr; value = src } in
      let (rc, e) = validate_at-returns d authz src ((owner path).0) ((owner path).1) in
      let tried = try-returns d authz v path rc good e in
      inl (elim (Bool-cases (is_ok rc)) [
        | inr bad ↦ (rc, rw (set_value, tried, bad))
        | inl fine ↦
            let (final, done) =
              commit_one-returns d authz v path good (named path good)
                (e ∙ ap returns (is_ok-true rc fine)) in
            (final, rw (set_value, tried, fine, commit_multi_set_value, done))
      ])
]
