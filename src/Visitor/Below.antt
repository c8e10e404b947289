-- ===== src/Visitor/Below.antt =====
-- What the device finds below a path that the visitor makes.
use catena.Base.{
  ℕ, zero, suc, ◌+◌, ◌≤◌, ◌<◌, ◌≡◌, refl, inl, inr, true, List, [], ◌∷◌, some, All, Bool-cases,
  Option-cases, if◌then◌else◌, arith,
}
use catena.Base.Text.{Text, eqb, eqb_sound, lookup}
use catena.Status.{StatusCode, returns}
use catena.Authorizer.{Authorizer}
use catena.ParamPath.{
  ParamPath, Segment, index, string, parse, empty, pop, front_is_string, front_is_index,
  front_as_string, front_as_index, to_string, push_back_string,
}
use catena.ParamPath.Decimal.{print_index}
use catena.ParamPath.Language.{IsName}
use catena.ParamPath.RoundTrip.{parse-IsValid}
use catena.Params.{can_read}
use catena.Params.Stored.{member}
use catena.Device.{Device, Param}
use catena.Device.Lookup.{Target, absent, present, find_param, get_param, get_param_at}
use catena.Device.Frame.{Found-cases}
use catena.Visitor.{
  Walked, walked, next, with_path, counting, u32_mod, step_into, each_member, Visitor,
}
use catena.Visitor.Paths.{at_front, parse-member}

-- A parameter without fields, found under its name, which is that of its descriptor.
pub record IsFlat (d : Device) (entry : Text × Param) : Type 0 where
  pub named : IsName entry.0
  pub found : lookup entry.0 d.params ≡ some entry.1
  pub same_oid : entry.1.descriptor.own.oid ≡ entry.0
  pub no_fields : entry.1.descriptor.own.sub_params ≡ []

pub lookup-All :
    (P : Text × Param → Type 0) (k : Text) (p : Param) (m : List (Text × Param))
    → All P m
    → lookup k m ≡ some p
    → P (k, p)
unfolding lookup
lookup-All P k p [] h e = absurd (ground arith)
lookup-All P k p ((j, q) ∷ m) (h, hs) e = elim (Bool-cases (eqb j k)) [
  | inl same ↦
      let key : j ≡ k = eqb_sound j k same in
      let value : q ≡ p = ground arith in rw (← key, ← value) h
  | inr other ↦ lookup-All P k p m hs (rw other at e)
]

pub found_below :
    (d : Device) (authz : Authorizer) (name : Text) (i : ℕ) (x : Segment) (segs : List Segment)
    (t : Target)
    → (get_param d (at_front (string name ∷ index i ∷ x ∷ segs)) authz).0 ≡ present t
    → ⊥
unfolding get_param find_param empty pop front_is_string front_is_index front_as_string
    front_as_index
found_below d authz name i x segs t h = elim (Option-cases (lookup name d.params)) [
  | inl e ↦ ground arith
  | inr (p, e) ↦ elim (Option-cases (member p.value i)) [
    | inl e' ↦ ground arith
    | inr (v, e') ↦ ground arith
  ]
]

-- Nothing is found below a member.
no_deeper :
    (d : Device) (authz : Authorizer) (text name : Text) (i : ℕ) (x : Segment) (segs : List Segment)
    → parse text ≡ returns (at_front (string name ∷ index i ∷ x ∷ segs))
    → (rc : StatusCode) × (get_param_at d text authz ≡ absent rc)
unfolding get_param_at
no_deeper d authz text name i x segs h = elim (Found-cases (get_param_at d text authz)) [
  | inl (rc, e) ↦ (rc, e)
  | inr (t, e) ↦ absurd (found_below d authz name i x segs t (rw (h, get_param_at) at e))
]

-- What is found has the descriptor of a parameter of the device.
pub found_descriptor :
    (d : Device) (authz : Authorizer) (path : ParamPath) (t : Target)
    → (get_param d path authz).0 ≡ present t
    → (p : Param) × ((lookup (front_as_string path) d.params ≡ some p)
        × (t.descriptor ≡ p.descriptor))
unfolding get_param find_param
found_descriptor d authz path t h = elim (Option-cases (lookup (front_as_string path) d.params)) [
  | inl e ↦ absurd (ground arith)
  | inr (p, e) ↦ (p, (e, ground arith))
]

pub All-counting : (i n m : ℕ) → i + n ≤ m → All (λ k. k < m) (counting i n)
unfolding counting
All-counting i zero m h = tt
All-counting i (suc n) m h = (omega arith, All-counting (suc i) n m (omega arith))

pub with_path_found :
    {A : Type 0} (path : Text) (p : ParamPath) (a : A) (f : ParamPath → Walked A)
    → parse path ≡ returns p
    → with_path path a f ≡ f p
unfolding with_path
with_path_found path p a f h = rw (h, with_path)

module _ {A : Type 0} (d : Device) (authz : Authorizer) (visitor : Visitor A) where
  -- A step into a member of the array with a path.
  pub step_member :
      (go : Target → Text → A → Walked A) (path : Text) (segs : List Segment) (k : ℕ) (a : A)
      → parse path ≡ returns (at_front segs)
      → step_into d authz visitor go path (print_index k) a
        ≡ elim (get_param_at d
            (to_string true (push_back_string (print_index k) (at_front segs)))
            authz) [
              | absent rc ↦ walked a
              | present t ↦
                  if can_read authz t.descriptor
                  then go t (to_string true (push_back_string (print_index k) (at_front segs))) a
                  else walked a
            ]
  unfolding step_into
  step_member go path segs k a h = with_path_found path (at_front segs) a _ h

  -- Nothing is found below a member, so that the visitor's state stays.
  pub each_member_below :
      (go : Target → Text → A → Walked A) (path name : Text) (i : ℕ) (is : List ℕ) (a : A)
      → parse path ≡ returns (at_front (string name ∷ index i ∷ []))
      → All (λ k. k < u32_mod) is
      → each_member d authz visitor go path is a ≡ walked a
  unfolding each_member next
  each_member_below go path name i [] a h small = refl
  each_member_below go path name i (k ∷ is) a h (k_small, small) =
      let spelled = (parse-IsValid path (at_front (string name ∷ index i ∷ [])) h).0.spelled in
      let read = parse-member (string name ∷ index i ∷ []) k spelled k_small in
      let (rc, e) =
        no_deeper d authz
          (to_string true
            (push_back_string (print_index k) (at_front (string name ∷ index i ∷ []))))
          name i (index k) [] read in
      rw (step_member go path (string name ∷ index i ∷ []) k a h, e)
        (each_member_below go path name i is a h small)
