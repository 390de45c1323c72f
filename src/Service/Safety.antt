-- ===== src/Service/Safety.antt =====
-- anchor-core/src/service.rs: what a host can hear from a device.
use dsm_unplugged.Common.{ℕ, ◌<◌, ◌^◌, ◌≡◌, ap, List, [], ◌∷◌, All, Array}
use mathlib.Core.List.{map}
use dsm_unplugged.Hash.{Blake3}
use dsm_unplugged.Tropic.{Tropic, WitnessSig, CounterLaws}
use dsm_unplugged.RootAdvance.{OfflineRelease}
use dsm_unplugged.Appliance.{new}
use dsm_unplugged.Appliance.Fork.{OnePerIndex}
use dsm_unplugged.Appliance.Safety.{one_release_per_index}
use dsm_unplugged.Proto.{Prost, ProstLaws, transition_to_pb, release_to_pb}
use dsm_unplugged.Service.History.{anchor_index, OneWireReleasePerIndex, Link, Talk, Talk-Refines}

index_of_release :
    (q r : OfflineRelease)
    → anchor_index (release_to_pb q) ≡ anchor_index (release_to_pb r)
    → q.transition.anchor_counter ≡ r.transition.anchor_counter
unfolding release_to_pb transition_to_pb
index_of_release q r e = cc

All-map_wire :
    (r : OfflineRelease) (log : List OfflineRelease)
    → All (λ q. q.transition.anchor_counter ≡ r.transition.anchor_counter → q ≡ r) log
    → All
        (λ q. anchor_index q ≡ anchor_index (release_to_pb r) → q ≡ release_to_pb r)
        (map release_to_pb log)
All-map_wire r [] h = tt
All-map_wire r (q ∷ log) (p, h) =
    (λ e. ap release_to_pb (p (index_of_release q r e)), All-map_wire r log h)

OnePerIndex-wire :
    (log : List OfflineRelease) → OnePerIndex log → OneWireReleasePerIndex (map release_to_pb log)
OnePerIndex-wire [] h = tt
OnePerIndex-wire (r ∷ log) (p, h) = (All-map_wire r log p, OnePerIndex-wire log h)

-- Whatever frames a host sends to a device that was enrolled with a 32-bit counter value, and
-- whatever recoveries, power cuts and drifts of the counter come in between, the responses never
-- hold two different releases for one anchor index. The chip is assumed to keep the laws of its
-- down-counter, and the codec to read back what it wrote.
pub one_wire_release_per_index :
    ⦃b : Blake3⦄ ⦃t : Tropic⦄ ⦃s : WitnessSig⦄ ⦃c : Prost⦄ (laws : CounterLaws t)
    (codec : ProstLaws c) (chip : t.Chip) (h0 : ℕ) (root anchor_id : Array 32) (slot : ℕ)
    (l : Link laws)
    → h0 < 2 ^ 32
    → Talk laws (record { app = new chip h0 root anchor_id slot; heard = [] }) l
    → OneWireReleasePerIndex l.heard
one_wire_release_per_index laws codec chip h0 root anchor_id slot l lt k =
    let z = Talk-Refines laws (new chip h0 root anchor_id slot) codec k in
    rw z.heard (
      OnePerIndex-wire z.released
        (one_release_per_index laws chip h0 root anchor_id slot _ lt z.reach))
