-- ===== src/Node.antt =====
-- sim/protocol/node.py: the state of one node. The methods stand in the modules below: a method
-- takes the node and returns the new one, with its result if it has one.
pub mod Identity
pub mod Rows
pub mod Digest
pub mod Boundary
pub mod Config
pub mod Round
pub mod Samples
use syncons.Base.{
  ℕ, ℤ, negsuc, ◌-◌, ◌^◌, ◌+◌, Bool, false, Option, none, List, [], ◌++◌, ◌∷◌, String,
}
use syncons.Protocol.{
  NodeStatus, running, MembershipState, active, HaltRecord, StatusReason, RoundStage, PendingConfig,
  ControlPlaneUpdate, Event, PayloadFactory,
}

-- The fields of the dataclass, then those of `__post_init__`.
pub record Node : Type 0 where
  pub node_id : ℕ
  pub node_count : ℕ
  pub payload_factory : PayloadFactory
  pub status : NodeStatus
  pub current_round : ℕ
  pub status_reason : Option StatusReason
  pub committed_frontier : ℤ
  pub last_committed_sound_set : Option ℕ
  pub commit_digest : String
  pub halted_round : Option ℕ
  pub halt_details : Option HaltRecord
  pub membership_state : MembershipState
  pub installed_membership_epoch : ℕ
  pub installed_membership : ℕ
  pub current_sound_set : ℕ
  pub run_id : ℕ
  pub pending_config : Option PendingConfig
  pub current_stage : RoundStage
  pub previous_stage : RoundStage
  pub commit_stage : RoundStage
  pub control_plane_event_outbox : List Event
  pub pending_control_plane_update : Option ControlPlaneUpdate
  pub control_plane_irq_pending : Bool

-- A stage with no row and no evidence, as the constructor call with three arguments builds it.
abbrev pub blank_stage : ℤ → ℕ → ℕ → RoundStage
blank_stage round_id membership_epoch installed_membership = record {
  round_id = round_id;
  membership_epoch = membership_epoch;
  installed_membership = installed_membership;
  row = 0;
  proposals = [];
  rows = [];
}

-- `Node(node_id=…, node_count=…, payload_factory=…)`; the digest of the empty log is computed
-- by `hashlib` and comes in as an argument.
unfoldable pub new_node : String → ℕ → ℕ → PayloadFactory → Node
new_node empty_digest node_id node_count payload_factory = record {
  node_id = node_id;
  node_count = node_count;
  payload_factory = payload_factory;
  status = running;
  current_round = 0;
  status_reason = none;
  committed_frontier = negsuc 0;
  last_committed_sound_set = none;
  commit_digest = empty_digest;
  halted_round = none;
  halt_details = none;
  membership_state = active;
  installed_membership_epoch = 0;
  installed_membership = 2 ^ node_count - 1;
  current_sound_set = 2 ^ node_count - 1;
  run_id = 0;
  pending_config = none;
  current_stage = blank_stage (negsuc 0) 0 0;
  previous_stage = blank_stage (negsuc 0) 0 0;
  commit_stage = blank_stage (negsuc 1) 0 0;
  control_plane_event_outbox = [];
  pending_control_plane_update = none;
  control_plane_irq_pending = false;
}

unfoldable pub emit_control_plane_event : Event → Node → Node
emit_control_plane_event event node = record node {
  control_plane_event_outbox = node.control_plane_event_outbox ++ event ∷ [];
}

-- The events, and the node with an empty outbox.
unfoldable pub pull_control_plane_events : Node → List Event × Node
pull_control_plane_events node =
    (node.control_plane_event_outbox, record node { control_plane_event_outbox = [] })
