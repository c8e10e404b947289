-- ===== src/Device/Settable.antt =====
-- A parameter that a path leads to, and a member that a value fits.
use catena.Base.{
  ℕ, ◌≤◌, ◌<◌, ◌≡◌, refl, ◌∙◌, ap, ◌⊎◌, inl, inr, true, false, [], ◌∷◌, ◌++◌, some, Bool-cases,
  arith, length, length-append, lt→ltb, ◌==◌, get_elem?-some, get_elem?-last,
}
use catena.Base.Int.{pos}
use catena.Status.{StatusCode, ok, is_ok, returns}
use catena.Proto.{ProtoValue}
use catena.Authorizer.{Authorizer}
use catena.ParamPath.{
  ParamPath, Segment, front, is_index, as_index, push_back_index, front_is_index, front_as_index,
  empty, pop, k_end, k_none,
}
use catena.Params.{Descriptor, can_read, can_write, max_length}
use catena.Params.Convert.{valid_int32, valid_float32, valid_string}
use catena.Params.Stored.{
  Stored, size, is_vector, member, add_back, push_default, valid, test_member, Trackers,
  no_trackers, validate_member, validate_set_value, validate_whole, check_lengths,
}
use catena.Device.{Device}
use catena.Device.Lookup.{Target, absent, present, find_param, get_param}

-- The parameter that was found may be read, and the path is used up.
pub record IsReached (authz : Authorizer) (t : Target) (rest : ParamPath) : Type 0 where
  pub readable : can_read authz t.descriptor ≡ true
  pub at_end : rest.front_idx ≡ length rest.segments

pub find_param-IsReached :
    (target : Target) (path : ParamPath) (authz : Authorizer) (t : Target)
    → path.front_idx ≤ length path.segments
    → (find_param target path authz).0 ≡ present t
    → IsReached authz t ((find_param target path authz).1)
unfolding find_param empty pop
find_param-IsReached target path authz t within h = ground arith

pub get_param-absent :
    (d : Device) (path : ParamPath) (authz : Authorizer) (rc : StatusCode)
    → (get_param d path authz).0 ≡ absent rc
    → is_ok rc ≡ false
unfolding get_param find_param
get_param-absent d path authz rc h = ground arith

-- What a value for a member was let through for.
pub record IsSettable (value : Stored) (pd : Descriptor) (authz : Authorizer) (index : ℕ)
    : Type 0 where
  pub vector : is_vector value ≡ true
  pub writable : can_write authz pd ≡ true
  pub in_range :
      ((index == k_end) ≡ true × (size value < max_length pd))
      ⊎ ((index == k_end) ≡ false × (index < size value))

pub member-can_write :
    (value : Stored) (src : ProtoValue) (pd : Descriptor) (authz : Authorizer)
    → is_vector value ≡ true
    → is_ok (valid (test_member value) src pd ok authz) ≡ true
    → can_write authz pd ≡ true
unfolding valid test_member valid_int32 valid_float32 valid_string
member-can_write (Stored.int32_array l) src pd authz v h = ground arith
member-can_write (Stored.float32_array l) src pd authz v h = ground arith
member-can_write (Stored.string_array l) src pd authz v h = ground arith
member-can_write (Stored.int32 n) src pd authz v h = cc
member-can_write (Stored.float32 n) src pd authz v h = cc
member-can_write (Stored.string n) src pd authz v h = cc

pub add_back-some :
    (value : Stored) (pd : Descriptor) (authz : Authorizer)
    → is_vector value ≡ true
    → can_write authz pd ≡ true
    → size value < max_length pd
    → (add_back value pd authz).1 ≡ some (push_default value)
unfolding add_back
add_back-some value pd authz v w room = ground arith

pub member-push_default :
    (value : Stored)
    → is_vector value ≡ true
    → (new : Stored) × (member (push_default value) (size value) ≡ some new)
unfolding member push_default size
member-push_default (Stored.int32_array l) v =
    (Stored.int32 (pos 0), rw (get_elem?-last l (pos 0), member))
member-push_default (Stored.float32_array l) v =
    (Stored.float32 (0), rw (get_elem?-last l (0), member))
member-push_default (Stored.string_array l) v =
    (Stored.string ([]), rw (get_elem?-last l ([]), member))
member-push_default (Stored.int32 n) v = cc
member-push_default (Stored.float32 n) v = cc
member-push_default (Stored.string n) v = cc

pub member-some :
    (value : Stored) (i : ℕ)
    → is_vector value ≡ true
    → i < size value
    → (new : Stored) × (member value i ≡ some new)
unfolding member size
member-some (Stored.int32_array l) i v h =
    let (a, at) = get_elem?-some l i h in (Stored.int32 a, rw (at, member))
member-some (Stored.float32_array l) i v h =
    let (a, at) = get_elem?-some l i h in (Stored.float32 a, rw (at, member))
member-some (Stored.string_array l) i v h =
    let (a, at) = get_elem?-some l i h in (Stored.string a, rw (at, member))
member-some (Stored.int32 n) i v h = cc
member-some (Stored.float32 n) i v h = cc
member-some (Stored.string n) i v h = cc

-- A value for a member that is accepted with no trackers can be stored.
pub validate_member-IsSettable :
    (value : Stored) (src : ProtoValue) (index : ℕ) (pd : Descriptor) (authz : Authorizer)
    (tr : Trackers)
    → is_vector value ≡ true
    → validate_member value src index pd authz no_trackers ≡ returns (ok, tr)
    → IsSettable value pd authz index
unfolding validate_member check_lengths
validate_member-IsSettable value src index pd authz tr v h = record {
  vector = v;
  writable = member-can_write value src pd authz v (ground arith);
  in_range = elim (Bool-cases (index == k_end)) [
    | inl end ↦ inl (end, ground arith)
    | inr at ↦ inr (at, ground arith)
  ];
}

pub validate_set_value-IsSettable :
    (value : Stored) (src : ProtoValue) (index : ℕ) (pd : Descriptor) (authz : Authorizer)
    (tr : Trackers)
    → (index == k_none) ≡ false
    → validate_set_value value src index pd authz no_trackers ≡ returns (ok, tr)
    → IsSettable value pd authz index
unfolding validate_set_value validate_whole
validate_set_value-IsSettable value src index pd authz tr named h =
    ground (arith, validate_member-IsSettable value src index pd authz tr)

pub front-push_back_index :
    (i : ℕ) (p : ParamPath)
    → p.front_idx ≡ length p.segments
    → front (push_back_index i p) ≡ some (Segment.index i)
unfolding push_back_index
front-push_back_index i p at_end = rw (
  lt→ltb p.front_idx (length (p.segments ++ Segment.index i ∷ []))
      (ground (arith, length-append p.segments (Segment.index i ∷ []))),
  at_end,
  get_elem?-last p.segments (Segment.index i),
)

pub empty-pop-push_back_index :
    (i : ℕ) (p : ParamPath)
    → p.front_idx ≡ length p.segments
    → empty (pop (push_back_index i p)) ≡ true
unfolding empty pop push_back_index
empty-pop-push_back_index i p at_end =
    ground (arith, length-append p.segments (Segment.index i ∷ []))

pub front_is_index-eq : (p : ParamPath) → front_is_index p ≡ is_index (front p)
unfolding front_is_index
front_is_index-eq p = refl

pub front_as_index-eq : (p : ParamPath) → front_as_index p ≡ as_index (front p)
unfolding front_as_index
front_as_index-eq p = refl

pub find_param-push_back_index :
    (t : Target) (rest : ParamPath) (authz : Authorizer) (i : ℕ)
    → IsReached authz t rest
    → is_vector t.value ≡ true
    → i < size t.value
    → (v : Stored) × ((find_param t (push_back_index i rest) authz).0
        ≡ present (record t { index = some i; value = v }))
unfolding find_param
find_param-push_back_index t rest authz i reached v h =
    let (new, here) = member-some t.value i v h in
    let e = front-push_back_index i rest reached.at_end in
    let is = front_is_index-eq (push_back_index i rest) ∙ ap is_index e in
    let at = front_as_index-eq (push_back_index i rest) ∙ ap as_index e in
    let last = empty-pop-push_back_index i rest reached.at_end in
    (new, rw (reached.readable, v, is, at, here, last, at))
