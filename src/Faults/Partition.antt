-- ===== src/Faults/Partition.antt =====
-- What `network_bridge_partition_at` of sim/scenarios/faults.py cuts.
use syncons.Base.{ℕ, ◌≡◌, List, arith}
use syncons.Protocol.{Packet}
use syncons.Faults.{network_bridge_partition_at}

-- The packet that goes back to the sender.
abbrev pub reply : Packet → ℕ → Packet
reply packet dst = record packet { src_id = dst }

-- A partition is symmetric: from one node to another it drops a packet exactly when it drops the
-- one of the same round the other way, and delivers both in the same round otherwise.
pub deliver_round-network_bridge_partition_at :
    (fault_round : ℕ) (left right : List ℕ) (packet : Packet) (dst : ℕ)
    → (network_bridge_partition_at fault_round left right packet dst).deliver_round
      ≡ (network_bridge_partition_at fault_round left right
          (reply packet dst)
          packet.src_id).deliver_round
unfolding network_bridge_partition_at
deliver_round-network_bridge_partition_at fault_round left right packet dst = ground arith
