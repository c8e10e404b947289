-- ===== src/Subscriptions/Adding.antt =====
-- SubscriptionManager.cpp: `addSubscription`, which walks the sub-parameters of a wildcard with the
-- visitor.
use catena.Base.{ℕ, not, List, [], ◌∷◌, if◌then◌else◌}
use catena.Base.Text.{Text, txt, eqb}
use catena.Base.TextSet.{contains, insert}
use catena.Status.{StatusCode, ok, already_exists, returns, throws}
use catena.Authorizer.{Authorizer}
use catena.Params.{can_read}
use catena.Device.{Device}
use catena.Device.Lookup.{Target, absent, present, get_param_at, get_top_level_params}
use catena.Visitor.{
  Walked, out_of_fuel, thrown, walked, next, traverse_params, subscription_visitor,
}
use catena.Subscriptions.{Subscribed, update, is_wildcard, base_path}

-- The parameters of the wildcard of all.
unfoldable pub add_targets : ℕ → Device → Authorizer → List Target → List Text → Walked (List Text)
unfolding next traverse_params subscription_visitor
add_targets fuel d authz [] oids = walked oids
add_targets fuel d authz (t ∷ ts) oids =
    next
      (if can_read authz t.descriptor
        then traverse_params d authz subscription_visitor fuel t (b'/' ∷ t.descriptor.own.oid) oids
        else walked oids)
      (add_targets fuel d authz ts)

-- The status, and the set of the device.
unfoldable pub add_oid :
    ℕ → Text → Device → Authorizer → List Text → StatusCode × Walked (List Text)
unfolding is_wildcard get_param_at get_top_level_params add_targets
add_oid fuel oid d authz oids =
    if not (is_wildcard oid)
    then if contains oid oids
      then (already_exists, walked oids)
      else elim (get_param_at d oid authz) [
        | absent rc ↦ (rc, walked oids)
        | present t ↦ (ok, walked (insert oid oids))
      ]
    else if eqb oid (txt "/*")
    then elim (get_top_level_params d authz ok d.params) [
      | throws e ↦ (ok, thrown e oids)
      | returns (rc, targets) ↦ (rc, add_targets fuel d authz targets oids)
    ]
    else elim (get_param_at d (base_path oid) authz) [
      | absent rc ↦ (rc, walked oids)
      | present t ↦ (ok, traverse_params d authz subscription_visitor fuel t (base_path oid) oids)
    ]

abbrev update_walked : ℕ → Subscribed → Walked (List Text) → Walked Subscribed
update_walked slot s out_of_fuel = out_of_fuel
update_walked slot s (thrown e oids) = thrown e (update slot oids s)
update_walked slot s (walked oids) = walked (update slot oids s)

-- `addSubscription`
unfoldable pub add_subscription :
    ℕ → Text → Device → Authorizer → Subscribed → StatusCode × Walked Subscribed
unfolding add_oid
add_subscription fuel oid d authz s =
    let (rc, oids) = add_oid fuel oid d authz (s d.slot) in (rc, update_walked d.slot s oids)
