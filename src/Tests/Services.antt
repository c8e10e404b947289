-- ===== src/Tests/Services.antt =====
-- The devices of a service, and what a client is told of descriptors.
use catena.Base.{◌≡◌, refl, ◌⊎◌, true, false, ◌&&◌, not, [], ◌∷◌, none, some, if◌then◌else◌}
use catena.Base.Text.{txt, eqb}
use catena.Status.{Exception, throws, returns, std_exception}
use catena.Rpc.Service.{
  service_devices, configured, twice, all_there, add_devices, has_slot, service_devices_cases,
}
use catena.Rpc.Controllers.{Devices, device_at}
use catena.Params.Described.{
  Shown, Described, described, no_described, below, described_to_proto, descriptor_in,
}
use catena.Params.Described.Told.{IsKeyed, names, told_at, readable_at, described_to_proto-readable}
use catena.Params.Described.Changes.{add_sub_param, add_sub_param-told}
use catena.Params.{can_read}
use catena.Tests.{mixer, title, gain, operator_authz}

-- Two devices for one slot.
service_devices_cases_example :
    ((e : Exception) × (service_devices true (some mixer ∷ some mixer ∷ []) ≡ throws e)
      × ((true
            && all_there (some mixer ∷ some mixer ∷ [])
            && not (twice (some mixer ∷ some mixer ∷ [])))
          ≡ false))
    ⊎ ((r : Devices) × (service_devices true (some mixer ∷ some mixer ∷ []) ≡ returns r)
        × ((true
              && all_there (some mixer ∷ some mixer ∷ [])
              && not (twice (some mixer ∷ some mixer ∷ [])))
            ≡ true)
        × (device_at 1 r ≡ configured 1 (some mixer ∷ some mixer ∷ [])))
service_devices_cases_example = service_devices_cases true (some mixer ∷ some mixer ∷ []) 1

clash_refused : service_devices true (some mixer ∷ some mixer ∷ []) ≡ throws std_exception
unfolding service_devices add_devices has_slot
clash_refused = refl

two_slots :
    service_devices true (some mixer ∷ some (record mixer { slot = 2 }) ∷ [])
    ≡ returns ((1, some mixer) ∷ (2, some (record mixer { slot = 2 })) ∷ [])
unfolding service_devices add_devices has_slot
two_slots = refl

abbrev plain : Shown
plain = record {
  widget = [];
  precision = 0;
  response = false;
  oid_aliases = [];
  name = record { display_strings = (txt "en", txt "Channel") ∷ [] };
  constraint = none;
  template_oid = [];
}

abbrev channel_described : Described
channel_described = described title plain (
    below (txt "gain") (described gain plain no_described)
      (below (txt "title") (described title plain no_described) no_described))

channel_described-IsKeyed : IsKeyed channel_described
unfolding IsKeyed names eqb
channel_described-IsKeyed = (refl, tt, (refl, tt, tt))

gain-IsKeyed : IsKeyed (described gain plain no_described)
unfolding IsKeyed
gain-IsKeyed = tt

described_to_proto-readable_example :
    told_at (txt "gain" ∷ []) (described_to_proto channel_described operator_authz)
    ≡ readable_at operator_authz (txt "gain" ∷ []) channel_described
described_to_proto-readable_example =
    described_to_proto-readable operator_authz (txt "gain" ∷ []) channel_described
      channel_described-IsKeyed

add_sub_param-told_example :
    (t' : Described) × (add_sub_param
        (txt "title")
        (some (described gain plain no_described))
        channel_described
      ≡ returns t')
    × IsKeyed t'
    × (told_at (txt "title" ∷ []) (described_to_proto t' operator_authz) ≡ (
        if eqb (txt "title") (txt "title")
        then (if can_read operator_authz (descriptor_in (described gain plain no_described))
            then told_at [] (described_to_proto (described gain plain no_described) operator_authz)
            else none)
        else told_at (txt "title" ∷ []) (described_to_proto channel_described operator_authz)))
add_sub_param-told_example =
    add_sub_param-told operator_authz (txt "title") (txt "title") []
      (described gain plain no_described) channel_described gain-IsKeyed channel_described-IsKeyed
