-- ===== src/Protocol.antt =====
-- sim/protocol/types.py: the records and enumerations that nodes, control plane and runtime
-- exchange. Times, round numbers of packets, epochs and run ids are natural numbers; the round
-- number of a stage and the committed frontier are integers, since they start below zero.
pub mod Equality
pub mod Records
mod Examples
use syncons.Base.{
  ℕ, ℤ, Bool, true, false, ◌&&◌, Option, none, List, String, Dict, ◌==◌, option_eq, dict_eq, str_eq,
  all, length,
}

-- The states of a node's data plane.
pub data NodeStatus : Type 0 where
  running halted crashed : NodeStatus

pub data MembershipState : Type 0 where
  active failed recovering rejoin_pending : MembershipState

pub data PendingConfigStatus : Type 0 where
  prepared committed : PendingConfigStatus

pub record SimulationTiming : Type 0 where
  pub round_length_ns : ℕ
  pub halt_report_delay_ns : ℕ
  pub cp_collection_delay_ns : ℕ
  pub cp_decision_delay_ns : ℕ
  pub repair_delay_ns : ℕ
  pub install_delay_ns : ℕ
  pub reentry_delay_ns : ℕ
  pub app_delivery_delay_ns : ℕ

abbrev pub default_timing : SimulationTiming
default_timing = record {
  round_length_ns = 4_000;
  halt_report_delay_ns = 10_000;
  cp_collection_delay_ns = 20_000;
  cp_decision_delay_ns = 15_000;
  repair_delay_ns = 50_000;
  install_delay_ns = 20_000;
  reentry_delay_ns = 10_000;
  app_delivery_delay_ns = 5_000;
}

pub record Packet : Type 0 where
  pub round_id : ℕ
  pub src_id : ℕ
  pub run_id : ℕ
  pub row : ℕ
  pub payload : String

pub record OutboundPacket : Type 0 where
  pub packet : Packet
  pub destinations : List ℕ

pub record RoundStage : Type 0 where
  pub round_id : ℤ
  pub membership_epoch : ℕ
  pub installed_membership : ℕ
  pub row : ℕ
  pub proposals : Dict String
  pub rows : Dict ℕ

pub record CommittedRound : Type 0 where
  pub round : ℤ
  pub membership_epoch : ℕ
  pub commit_set : ℕ
  pub proposals : Dict String

pub record CommittedRoundRecord : Type 0 where
  pub round : ℤ
  pub membership_epoch : ℕ
  pub commit_set : ℕ
  pub proposals : Dict String
  pub commit_time_ns : Option ℕ
  pub app_delivery_time_ns : Option ℕ

pub record NodeRoundResult : Type 0 where
  pub outbound : Option OutboundPacket
  pub new_commits : List CommittedRound

pub record RepairLog : Type 0 where
  pub entries : List CommittedRoundRecord

pub record RepairSnapshot : Type 0 where
  pub node_id : ℕ
  pub committed_rounds : List CommittedRoundRecord

-- The strings of `halt_reason`.
pub data HaltReason : Type 0 where
  no_agreed_row commit_set_not_valid no_sound_set : HaltReason
  local_node_excluded_from_sound_set sound_set_not_subset_of_previous_set : HaltReason

-- The strings of `Node.status_reason`.
pub data StatusReason : Type 0 where
  crash_fault rebooted_under_control_plane : StatusReason
  halt : HaltReason → StatusReason

pub record HaltRecord : Type 0 where
  pub failed_round : ℤ
  pub membership_epoch : ℕ
  pub installed_membership_epoch : ℕ
  pub run_id : ℕ
  pub installed_membership : ℕ
  pub quorum : ℕ
  pub observation_rows : Dict ℕ
  pub self_row : ℕ
  pub committed_frontier : Option ℤ
  pub sound_set_lineage : Option ℕ
  pub log_digest : String
  pub halt_reason : HaltReason

pub record DeliveryCopy : Type 0 where
  pub deliver_round : ℕ
  pub packet_round_override : Option ℕ
  pub run_id_override : Option ℕ
  pub row_override : Option ℕ
  pub payload_override : Option String

-- `reason` is an annotation for people and is left out.
pub record Delivery : Type 0 where
  pub deliver_round : Option ℕ
  pub packet_round_override : Option ℕ
  pub run_id_override : Option ℕ
  pub row_override : Option ℕ
  pub payload_override : Option String
  pub extra_deliver_rounds : List ℕ
  pub extra_copies : List DeliveryCopy

abbrev pub NetworkFaultModel : Type 0
NetworkFaultModel = Packet → ℕ → Delivery

abbrev pub PayloadFactory : Type 0
PayloadFactory = ℕ → ℕ → String

abbrev pub NodeFaultModel : Type 0
NodeFaultModel = ℕ → ℕ → Bool

pub record InstalledConfig : Type 0 where
  pub membership_epoch : ℕ
  pub members_bitmap : ℕ
  pub run_id : ℕ

pub record PendingConfig : Type 0 where
  pub membership_epoch : ℕ
  pub members_bitmap : ℕ
  pub effective_round : ℕ
  pub run_id : ℕ
  pub status : PendingConfigStatus

pub record ControlPlaneState : Type 0 where
  pub installed_config : InstalledConfig
  pub node_states : Dict MembershipState
  pub pending_config : Option PendingConfig
  pub repair_logs : Dict RepairLog

pub record ControlPlaneUpdate : Type 0 where
  pub installed_config : InstalledConfig
  pub membership_state : MembershipState
  pub pending_config : Option PendingConfig
  pub repair_log : Option RepairLog

-- The events that a node puts into its outbox; `kind` is the constructor.
pub data Event : Type 0 where
  node_crashed : ℕ → Event
  node_halted : ℕ → HaltRecord → Event
  prepare_ack : ℕ → PendingConfig → Event

-- `event["node_id"]`
abbrev pub event_node : Event → ℕ
event_node (node_crashed node_id) = node_id
event_node (node_halted node_id halt_record) = node_id
event_node (prepare_ack node_id config) = node_id
