-- ===== src/Subscriptions.antt =====
-- sdks/cpp/common/src/SubscriptionManager.cpp: the OIDs that are subscribed to, by device.
--
-- `subscriptions_[slot]` makes an empty set where the map has none, which the other operations treat
-- as a missing one: the map is a function.
pub mod Removed
pub mod Adding
pub mod Readable
pub mod Added
use catena.Base.{
  ℕ, ◌-◌, Bool, true, false, ◌&&◌, not, List, [], ◌∷◌, if◌then◌else◌, length, leb, take, drop, any,
  keep, ◌==◌,
}
use catena.Base.Text.{Text, txt, eqb, starts_with}
use catena.Base.TextSet.{contains, erase}
use catena.Status.{StatusCode, ok, not_found}

abbrev pub Subscribed : Type 0
Subscribed = ℕ → List Text

abbrev pub update : ℕ → List Text → Subscribed → Subscribed
update slot oids s = λ i. if i == slot then oids else s i

-- `oid.substr(oid.length() - 2) == "/*"`
unfoldable pub is_wildcard : Text → Bool
is_wildcard oid = leb 2 (length oid) && eqb (drop (length oid - 2) oid) (txt "/*")

abbrev pub base_path : Text → Text
base_path oid = take (length oid - 2) oid

-- `removeSubscription`: the loop erases every OID that starts with the base path.
unfoldable pub remove_subscription : Text → ℕ → Subscribed → StatusCode × Subscribed
unfolding is_wildcard
remove_subscription oid slot s =
    if is_wildcard oid
    then (
      if any (λ o. starts_with o (base_path oid)) (s slot) then ok else not_found,
      update slot (keep (λ o. not (starts_with o (base_path oid))) (s slot)) s,
    )
    else if contains oid (s slot)
    then (ok, update slot (erase oid (s slot)) s)
    else (not_found, s)

-- `isSubscribed` and `getAllSubscribedOids`
unfoldable pub is_subscribed : Text → ℕ → Subscribed → Bool
is_subscribed oid slot s = contains oid (s slot)

abbrev pub get_all_subscribed_oids : ℕ → Subscribed → List Text
get_all_subscribed_oids slot s = s slot
