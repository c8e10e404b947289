-- ===== src/Visitor.antt =====
-- sdks/cpp/common/src/ParamVisitor.cpp, and the visitor of include/SubscriptionManager.h.
--
-- The traversal recurs on what the device finds under longer and longer paths: it runs on fuel, one
-- for each level. `device.getParam` finds nothing below a member of an array, so that two levels are
-- enough (`Visitor.Flat`).
pub mod Paths
pub mod Below
pub mod Flat
use catena.Base.{
  ℕ, zero, suc, ◌%◌, Bool, true, false, ◌&&◌, ◌||◌, not, List, [], ◌∷◌, if◌then◌else◌, ltb, ◌==◌,
}
use catena.Base.Text.{Text}
use catena.Base.TextSet.{insert}
use catena.Status.{Outcome, returns, throws, Exception}
use catena.Authorizer.{Authorizer}
use catena.ParamPath.{ParamPath, parse, push_back_string, to_string, back_is_index}
use catena.ParamPath.Decimal.{print_index}
use catena.Params.{is_array_type, can_read}
use catena.Params.Stored.{size}
use catena.Device.{Device}
use catena.Device.Lookup.{Target, Found, absent, present, get_param_at}

-- What a traversal has made of the visitor's state. An exception leaves what was done before it.
pub data Walked (A : Type 0) : Type 0 where
  out_of_fuel : Walked A
  thrown : Exception → A → Walked A
  walked : A → Walked A

module _ {A : Type 0} where
  unfoldable pub next : Walked A → (A → Walked A) → Walked A
  next out_of_fuel f = out_of_fuel
  next (thrown e a) f = thrown e a
  next (walked a) f = f a

  -- A step that needs a path, which the constructor may refuse.
  unfoldable pub with_path : Text → A → (ParamPath → Walked A) → Walked A
  with_path path a f = elim (parse path) [ throws e ↦ thrown e a | returns p ↦ f p ]

-- `IParamVisitor`
pub record Visitor (A : Type 0) : Type 0 where
  pub visit : Target → Text → A → Walked A
  pub visit_array : Target → Text → ℕ → A → Walked A

-- `uint32_t`
abbrev pub u32_mod : ℕ
u32_mod = 4294967296

-- `param->size()` as a `uint32_t`.
unfoldable pub array_length : Target → ℕ
unfolding size
array_length t = size t.value % u32_mod

-- The numbers that a loop from `i` runs through in `n` rounds.
unfoldable pub counting : ℕ → ℕ → List ℕ
counting i zero = []
counting i (suc n) = i ∷ counting (suc i) n

-- `child_name.empty() || child_name[0] == '/'`
unfoldable pub is_skipped : Text → Bool
is_skipped [] = true
is_skipped (c ∷ name) = c == b'/'

module _ {A : Type 0} (d : Device) (authz : Authorizer) (visitor : Visitor A) where
  -- One member or child, found by its path; `go` traverses it.
  unfoldable pub step_into : (Target → Text → A → Walked A) → Text → Text → A → Walked A
  unfolding with_path get_param_at
  step_into go path name a = with_path path a λ p.
      (let text = to_string true (push_back_string name p) in
        elim (get_param_at d text authz) [
          | absent rc ↦ walked a
          | present t ↦ if can_read authz t.descriptor then go t text a else walked a
        ])

  unfoldable pub each_member : (Target → Text → A → Walked A) → Text → List ℕ → A → Walked A
  unfolding step_into next
  each_member go path [] a = walked a
  each_member go path (i ∷ is) a =
      next (step_into go path (print_index i) a) (each_member go path is)

  unfoldable pub each_child : (Target → Text → A → Walked A) → Text → List Text → A → Walked A
  unfolding step_into next is_skipped
  each_child go path [] a = walked a
  each_child go path (name ∷ names) a =
      next (if is_skipped name then walked a else step_into go path name a)
        (each_child go path names)

  -- `traverseParams`
  unfoldable pub traverse_params : ℕ → Target → Text → A → Walked A
  unfolding next array_length counting each_member each_child is_array_type
  traverse_params zero t path a = out_of_fuel
  traverse_params (suc n) t path a = next (visitor.visit t path a) λ b.
      (next
        (if is_array_type t.descriptor.own.type && ltb 0 (array_length t)
          then next (visitor.visit_array t path (array_length t) b)
              (each_member (traverse_params n) path (counting 0 (array_length t)))
          else walked b)
        (each_child (traverse_params n) path t.descriptor.own.sub_params))

-- `SubscriptionVisitor`: neither of its operations enters a member of an array.
unfoldable pub enter : Text → List Text → Walked (List Text)
unfolding with_path
enter path oids =
    with_path path oids λ p. walked (if not (back_is_index p) then insert path oids else oids)

unfoldable pub subscription_visitor : Visitor (List Text)
unfolding enter
subscription_visitor = record {
  visit = λ t path oids. enter path oids;
  visit_array = λ t path length oids. enter path oids;
}
