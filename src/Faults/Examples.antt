-- ===== src/Faults/Examples.antt =====
-- Runs of the fault models of sim/scenarios/faults.py.
use syncons.Base.{refl, ◌≡◌, none, some, false, [], ◌∷◌}
use syncons.Protocol.{Packet}
use syncons.Faults.Partition.{reply, deliver_round-network_bridge_partition_at}
use syncons.Faults.{network_bridge_partition_at, staggered_recoverable_crashes}

abbrev packet : Packet
packet = record { round_id = 3; run_id = 0; src_id = 1; row = 1; payload = "cmd" }

cut : (network_bridge_partition_at 3 (0 ∷ 1 ∷ []) (3 ∷ 4 ∷ []) packet 4).deliver_round ≡ none
unfolding network_bridge_partition_at
cut = refl

bridged : (network_bridge_partition_at 3 (0 ∷ 1 ∷ []) (3 ∷ 4 ∷ []) packet 2).deliver_round ≡ some 3
unfolding network_bridge_partition_at
bridged = refl

down : staggered_recoverable_crashes ((4, 20) ∷ (3, 24) ∷ []) 3 24 ≡ false
unfolding staggered_recoverable_crashes
down = refl

reply_dropped_too :
    (network_bridge_partition_at 3 (0 ∷ 1 ∷ []) (3 ∷ 4 ∷ []) packet 4).deliver_round
    ≡ (network_bridge_partition_at 3 (0 ∷ 1 ∷ []) (3 ∷ 4 ∷ []) (reply packet 4) 1).deliver_round
reply_dropped_too = deliver_round-network_bridge_partition_at 3 (0 ∷ 1 ∷ []) (3 ∷ 4 ∷ []) packet 4
