-- ===== src/Faults.antt =====
-- The fault models of sim/scenarios/faults.py. A factory takes its arguments first; the defaults
-- of the source are constants.
pub mod Partition
mod Examples
use syncons.Base.{
  ℕ, Bool, true, not, ◌&&◌, ◌||◌, Option, none, some, List, [], ◌∷◌, Dict, if◌then◌else◌, leb, ◌==◌,
  elem, insert, lookup,
}
use syncons.Protocol.{Packet, Delivery, NetworkFaultModel, NodeFaultModel}

-- `Delivery(deliver_round=...)`
abbrev pub delivery_in : Option ℕ → Delivery
delivery_in deliver_round = record {
  deliver_round = deliver_round;
  packet_round_override = none;
  run_id_override = none;
  row_override = none;
  payload_override = none;
  extra_deliver_rounds = [];
  extra_copies = [];
}

abbrev pub network_perfect : NetworkFaultModel
network_perfect packet dst = delivery_in (some packet.round_id)

abbrev pub network_asymmetric_loss_at : ℕ → NetworkFaultModel
network_asymmetric_loss_at fault_round packet dst =
    if packet.round_id == fault_round && (packet.src_id == 1 && dst == 2)
    then delivery_in none
    else delivery_in (some packet.round_id)

abbrev pub network_asymmetric_loss : NetworkFaultModel
network_asymmetric_loss packet dst =
    if packet.round_id == 0 && (packet.src_id == 1 && dst == 2)
    then delivery_in none
    else delivery_in (some packet.round_id)

abbrev pub network_bridge_partition : NetworkFaultModel
network_bridge_partition packet dst =
    if packet.round_id == 0 && (packet.src_id == 1 && dst == 2 || packet.src_id == 2 && dst == 1)
    then delivery_in none
    else delivery_in (some packet.round_id)

-- The sets of the source as lists.
unfoldable pub network_bridge_partition_at : ℕ → List ℕ → List ℕ → NetworkFaultModel
network_bridge_partition_at fault_round left right packet dst =
    if packet.round_id == fault_round
      && (elem packet.src_id left && elem dst right || elem packet.src_id right && elem dst left)
    then delivery_in none
    else delivery_in (some packet.round_id)

abbrev pub network_one_round_delay : NetworkFaultModel
network_one_round_delay packet dst =
    if packet.round_id == 1 && (packet.src_id == 2 && dst == 0)
    then delivery_in (some 2)
    else delivery_in (some packet.round_id)

abbrev pub network_quorum_loss : NetworkFaultModel
network_quorum_loss packet dst = delivery_in (some packet.round_id)

abbrev pub network_future_round_skew : NetworkFaultModel
network_future_round_skew packet dst =
    if packet.round_id == 0 && (packet.src_id == 2 && elem dst (0 ∷ 1 ∷ []))
    then record (delivery_in (some 0)) { packet_round_override = some 1 }
    else delivery_in (some packet.round_id)

abbrev pub network_row_corruption : NetworkFaultModel
network_row_corruption packet dst =
    if packet.round_id == 1 && (packet.src_id == 1 && dst == 2)
    then record (delivery_in (some 1)) { row_override = some 0b011 }
    else delivery_in (some packet.round_id)

abbrev pub all_nodes_active : NodeFaultModel
all_nodes_active node_id round_id = true

abbrev pub node2_crashes_after_round0 : NodeFaultModel
node2_crashes_after_round0 node_id round_id = not (node_id == 2 && leb 1 round_id)

abbrev pub nodes1and2_crash_after_round0 : NodeFaultModel
nodes1and2_crash_after_round0 node_id round_id = not (elem node_id (1 ∷ 2 ∷ []) && leb 1 round_id)

abbrev pub node2_reboots_under_control_plane : NodeFaultModel
node2_reboots_under_control_plane node_id round_id = not (node_id == 2 && round_id == 1)

abbrev pub node2_reboots_under_control_plane_at : ℕ → NodeFaultModel
node2_reboots_under_control_plane_at crash_round node_id round_id =
    not (node_id == 2 && round_id == crash_round)

-- The dict comprehension over the schedule.
abbrev pub crash_rounds : Dict ℕ → Dict ℕ → Dict ℕ
crash_rounds found [] = found
crash_rounds found (entry ∷ schedule) = crash_rounds (insert entry.0 entry.1 found) schedule

unfoldable pub staggered_recoverable_crashes : Dict ℕ → NodeFaultModel
staggered_recoverable_crashes crash_schedule node_id round_id =
    elim (lookup node_id (crash_rounds [] crash_schedule)) [
      | none ↦ true
      | some crash_round ↦ not (round_id == crash_round)
    ]
