-- ===== src/Campaign/Duplicates.antt =====
-- The duplicates of sim/runtime/random_campaign.py, in the network of sim/runtime/cluster.py.
use syncons.Base.{ℕ, ◌≡◌, refl, Bool, true, false, Option}
use syncons.Protocol.{Packet}
use syncons.Cluster.{InFlight}
use syncons.Cluster.Network.{Network, apply_fault, route_to, route_extra_rounds, advance_network}
use syncons.Cluster.Network.Alike.{nodes_of, delivered_now, advance_network_same}
use syncons.Campaign.Faults.{Rolls, random_network_fault_model}

-- The same rolls, but that no packet is duplicated.
abbrev pub without_duplicates : (Packet → ℕ → Rolls) → Packet → ℕ → Rolls
without_duplicates rolls packet dst = record (rolls packet dst) { duplicated = false }

abbrev rolls_of : Bool → Bool → Option ℕ → Bool → Rolls
rolls_of lost delayed corrupted duplicated = record {
  lost = lost;
  delayed = delayed;
  corrupted = corrupted;
  duplicated = duplicated;
}

delivered_case :
    (r : ℕ) (item : InFlight) (corrupted : Option ℕ) (lost delayed duplicated : Bool)
    → delivered_now
        (random_network_fault_model (λ p d. rolls_of lost delayed corrupted duplicated))
        r
        item
      ≡ delivered_now
          (random_network_fault_model (λ p d. rolls_of lost delayed corrupted false))
          r
          item
unfolding apply_fault random_network_fault_model route_to route_extra_rounds
delivered_case r item corrupted true delayed duplicated = refl
delivered_case r item corrupted false true duplicated = refl
delivered_case r item corrupted false false false = refl
delivered_case r item corrupted false false true = refl

delivered_same :
    (rolls : Packet → ℕ → Rolls) (r : ℕ) (item : InFlight)
    → delivered_now (random_network_fault_model rolls) r item
      ≡ delivered_now (random_network_fault_model (without_duplicates rolls)) r item
unfolding apply_fault random_network_fault_model
delivered_same rolls r item =
    let roll = rolls item.packet item.dst in
    delivered_case r item roll.corrupted roll.lost roll.delayed roll.duplicated

-- A round leaves the same nodes, or raises in the same cases, with the duplicates that the random
-- model asks for and without them: in the round of their packet none of them is received.
pub random_network_fault_model_duplicates :
    (rolls : Packet → ℕ → Rolls) (r : ℕ) (network : Network)
    → nodes_of (advance_network (random_network_fault_model rolls) r network)
      ≡ nodes_of (advance_network (random_network_fault_model (without_duplicates rolls)) r network)
random_network_fault_model_duplicates rolls r network =
    advance_network_same (random_network_fault_model rolls)
      (random_network_fault_model (without_duplicates rolls)) r (delivered_same rolls r) network
