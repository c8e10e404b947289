-- ===== src/Visitor/Flat.antt =====
-- The traversal of a device whose parameters have no fields.
use catena.Base.{
  ℕ, suc, ◌<◌, ◌≡◌, refl, inl, inr, Bool, true, ◌||◌, ◌&&◌, List, [], ◌∷◌, All, Bool-cases, ltb,
  arith,
}
use catena.Base.Text.{Text, eqb}
use catena.Base.TextSet.{contains, insert, contains-insert}
use catena.Status.{returns}
use catena.Authorizer.{Authorizer}
use catena.ParamPath.{
  ParamPath, index, string, parse, front_as_string, back_is_index, to_string, push_back_string,
}
use catena.ParamPath.Decimal.{print_index}
use catena.ParamPath.RoundTrip.{parse-IsValid}
use catena.Params.{can_read, is_array_type}
use catena.Device.{Device}
use catena.Device.Lookup.{Target, present, get_param_at}
use catena.Device.Frame.{Found-cases}
use catena.Visitor.{
  Walked, walked, next, counting, u32_mod, array_length, step_into, each_member, each_child,
  traverse_params, enter, subscription_visitor,
}
use catena.Visitor.Paths.{at_front, parse-member}
use catena.Visitor.Below.{
  IsFlat, lookup-All, found_descriptor, All-counting, with_path_found, step_member,
  each_member_below,
}

-- What the visitor of the subscriptions does with the path of a member, and with that of a parameter.
enter_member :
    (path name : Text) (i : ℕ) (oids : List Text)
    → parse path ≡ returns (at_front (string name ∷ index i ∷ []))
    → enter path oids ≡ walked oids
unfolding enter back_is_index
enter_member path name i oids h =
    with_path_found path (at_front (string name ∷ index i ∷ [])) oids _ h

enter_top :
    (path name : Text) (oids : List Text)
    → parse path ≡ returns (at_front (string name ∷ []))
    → enter path oids ≡ walked (insert path oids)
unfolding enter back_is_index
enter_top path name oids h = with_path_found path (at_front (string name ∷ [])) oids _ h

-- The members of an array leave the set as it is.
pub traverse_member :
    (d : Device) (authz : Authorizer) (n : ℕ) (t : Target) (path name : Text) (i : ℕ)
    (oids : List Text)
    → parse path ≡ returns (at_front (string name ∷ index i ∷ []))
    → t.descriptor.own.sub_params ≡ []
    → traverse_params d authz subscription_visitor (suc n) t path oids ≡ walked oids
unfolding traverse_params subscription_visitor next each_child
traverse_member d authz n t path name i oids h no_fields =
    rw (enter_member path name i oids h, no_fields)
      (elim (Bool-cases (is_array_type t.descriptor.own.type && ltb 0 (array_length t))) [
        | inr other ↦ rw other
        | inl array ↦
            rw
              (
                array,
                enter_member path name i oids h,
                each_member_below d authz subscription_visitor
                    (traverse_params d authz subscription_visitor n) path name i
                    (counting 0 (array_length t)) oids h
                    (All-counting 0 (array_length t) u32_mod (unfold array_length in omega arith)),
              )
              refl
      ])

-- What a path of the device leads to has no fields.
pub found_no_fields :
    (d : Device) (authz : Authorizer) (text : Text) (path : ParamPath) (t : Target)
    → All (IsFlat d) d.params
    → parse text ≡ returns path
    → get_param_at d text authz ≡ present t
    → t.descriptor.own.sub_params ≡ []
found_no_fields d authz text path t flat read e =
    let (p, (found, same)) =
      found_descriptor d authz path t (unfold get_param_at in rw (read, get_param_at) at e) in
    rw same ((lookup-All (IsFlat d) (front_as_string path) p d.params flat found).no_fields)

step_top :
    (d : Device) (authz : Authorizer) (n : ℕ) (path name : Text) (k : ℕ) (oids : List Text)
    → All (IsFlat d) d.params
    → parse path ≡ returns (at_front (string name ∷ []))
    → k < u32_mod
    → step_into d authz subscription_visitor
        (traverse_params d authz subscription_visitor (suc n))
        path
        (print_index k)
        oids
      ≡ walked oids
step_top d authz n path name k oids flat h small =
    let text = to_string true (push_back_string (print_index k) (at_front (string name ∷ []))) in
    let go = traverse_params d authz subscription_visitor (suc n) in
    let spelled = (parse-IsValid path (at_front (string name ∷ [])) h).0.spelled in
    let read = parse-member (string name ∷ []) k spelled small in
    rw (step_member d authz subscription_visitor go path (string name ∷ []) k oids h)
      (elim (Found-cases (get_param_at d text authz)) [
        | inl (rc, e) ↦ rw e
        | inr (t, e) ↦
            let no_fields = found_no_fields d authz text _ t flat read e in
            elim (Bool-cases (can_read authz t.descriptor)) [
              | inr denied ↦ rw (e, denied)
              | inl allowed ↦
                  rw (e, allowed) (traverse_member d authz n t text name k oids read no_fields)
            ]
      ])

each_member_top :
    (d : Device) (authz : Authorizer) (n : ℕ) (path name : Text) (is : List ℕ) (oids : List Text)
    → All (IsFlat d) d.params
    → parse path ≡ returns (at_front (string name ∷ []))
    → All (λ k. k < u32_mod) is
    → each_member d authz subscription_visitor
        (traverse_params d authz subscription_visitor (suc n))
        path
        is
        oids
      ≡ walked oids
unfolding each_member next
each_member_top d authz n path name [] oids flat h small = refl
each_member_top d authz n path name (k ∷ is) oids flat h (k_small, small) =
    rw (step_top d authz n path name k oids flat h k_small)
      (each_member_top d authz n path name is oids flat h small)

-- What a traversal makes of the set of subscriptions: its path comes to it, and nothing else.
unfoldable pub IsEntered : Bool → Text → List Text → Walked (List Text) → Type 0
IsEntered b path oids result =
    (after : List Text) × ((result ≡ walked after)
      × ((o : Text) → contains o after ≡ ((b && eqb path o) || contains o oids)))

-- From a parameter of the device, on fuel for two levels.
pub traverse_top :
    (d : Device) (authz : Authorizer) (n : ℕ) (t : Target) (path name : Text) (oids : List Text)
    → All (IsFlat d) d.params
    → parse path ≡ returns (at_front (string name ∷ []))
    → t.descriptor.own.sub_params ≡ []
    → IsEntered true path oids
        (traverse_params d authz subscription_visitor (suc (suc n)) t path oids)
unfolding IsEntered traverse_params subscription_visitor next each_child
traverse_top d authz n t path name oids flat h no_fields =
    elim (Bool-cases (is_array_type t.descriptor.own.type && ltb 0 (array_length t))) [
      | inr other ↦ (
        insert path oids,
        (rw (enter_top path name oids h, no_fields, other) refl, λ o. contains-insert path o oids),
      )
      | inl array ↦ (
        insert path (insert path oids),
        (
          rw
              (
                enter_top path name oids h,
                no_fields,
                array,
                enter_top path name (insert path oids) h,
                each_member_top d authz n path name (counting 0 (array_length t))
                    (insert path (insert path oids)) flat h
                    (All-counting 0 (array_length t) u32_mod (unfold array_length in omega arith)),
              )
              refl,
          λ o.
              ground
                (arith, contains-insert path o (insert path oids), contains-insert path o oids),
        ),
      )
    ]
