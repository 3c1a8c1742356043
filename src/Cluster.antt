-- ===== src/Cluster.antt =====
-- sim/runtime/cluster.py: the state of ClusterRun, and how it forwards events and updates. The
-- fields of the dataclass that never change are the settings; the fault models are any functions.
pub mod Network
pub mod Rounds
pub mod Totality
mod Examples
use syncons.Base.{
  ℕ, ◌+◌, Bool, true, false, Option, none, some, List, [], ◌∷◌, ◌++◌, map, Dict, if◌then◌else◌,
  lookup, lookup_or, insert, keys, tabulate, range, option_eq, String,
}
use syncons.Protocol.{
  SimulationTiming, PayloadFactory, NetworkFaultModel, NodeFaultModel, Packet, Delivery,
  CommittedRoundRecord, RepairSnapshot, ControlPlaneState, ControlPlaneUpdate, failed, Event,
  node_crashed, node_halted, prepare_ack,
}
use syncons.Protocol.Equality.{update_eq}
use syncons.Protocol.Records.{with_timing}
use syncons.Node.{Node, new_node, pull_control_plane_events}
use syncons.Node.Config.{push_control_plane_update}
use syncons.Control.{ControlPlane, Forwarded, new_control_plane, sorted, ◌>>=◌}
use syncons.Control.Events.{observe_event}

pub record Settings : Type 0 where
  pub node_count : ℕ
  pub timing : SimulationTiming
  pub payload_factory : PayloadFactory
  pub network_fault_model : NetworkFaultModel
  pub node_fault_model : NodeFaultModel

-- An entry of `scheduled_deliveries`.
pub record InFlight : Type 0 where
  pub dst : ℕ
  pub packet : Packet
  pub fault_applied : Bool

-- RoundSummary of sim/runtime/metrics.py.
pub record RoundSummary : Type 0 where
  pub round_id : ℕ
  pub start_time_ns : ℕ
  pub end_time_ns : ℕ
  pub committed_txns : ℕ

-- The fields of `__post_init__`, and what the metrics sink has collected.
pub record Cluster : Type 0 where
  pub control_plane : ControlPlane
  pub nodes : List Node
  pub scheduled_deliveries : Dict (List InFlight)
  pub control_plane_events : List Forwarded
  pub commit_history_by_node : Dict (List CommittedRoundRecord)
  pub last_control_plane_updates : Dict ControlPlaneUpdate
  pub summaries : List RoundSummary

-- `on_round_complete` of InMemoryMetricsCollector.
abbrev pub on_round_complete : RoundSummary → List RoundSummary → List RoundSummary
on_round_complete summary rounds = rounds ++ summary ∷ []

unfoldable pub immediate_delivery : NetworkFaultModel
immediate_delivery packet dst = record {
  deliver_round = some packet.round_id;
  packet_round_override = none;
  run_id_override = none;
  row_override = none;
  payload_override = none;
  extra_deliver_rounds = [];
  extra_copies = [];
}

-- `ClusterRun(…)`; the digest of the empty log comes from `hashlib`.
unfoldable pub new_cluster : String → Settings → Cluster
new_cluster empty_digest settings = record {
  control_plane = new_control_plane settings.timing;
  nodes =
      map (λ i. new_node empty_digest i settings.node_count settings.payload_factory)
        (range settings.node_count);
  scheduled_deliveries = [];
  control_plane_events = [];
  commit_history_by_node = tabulate (λ _. []) (range settings.node_count);
  last_control_plane_updates = [];
  summaries = [];
}

-- `_repair_log_snapshots`
unfoldable pub repair_log_snapshots : Dict (List CommittedRoundRecord) → List RepairSnapshot
repair_log_snapshots history =
    map
      (λ node_id. record {
        node_id = node_id;
        committed_rounds =
            map (λ entry. with_timing entry none none) (lookup_or node_id [] history);
      })
      (sorted (keys history))

-- `_submit_control_plane_event`
unfoldable pub submit_control_plane_event : Forwarded → Cluster → Option Cluster
submit_control_plane_event forwarded cluster = do
  observed ← observe_event forwarded cluster.control_plane
  some (record cluster {
    control_plane_events = cluster.control_plane_events ++ forwarded ∷ [];
    control_plane = observed;
  })

abbrev pub is_interruption : Event → Bool
is_interruption (node_crashed _) = true
is_interruption (node_halted _ _) = true
is_interruption (prepare_ack _ _) = false

-- An event with its time stamp. Every event of a node has a `node_id` already.
unfoldable pub forward : SimulationTiming → ℕ → ℕ → Event → Forwarded
forward timing round_id round_start_ns event = record {
  event = event;
  round = round_id;
  available_at_ns =
      if is_interruption event
      then round_start_ns + timing.halt_report_delay_ns
      else round_start_ns;
}

unfoldable pub submit_events : SimulationTiming → ℕ → ℕ → List Event → Cluster → Option Cluster
unfolding submit_control_plane_event forward
submit_events timing round_id round_start_ns [] cluster = some cluster
submit_events timing round_id round_start_ns (event ∷ events) cluster = do
  submitted ← submit_control_plane_event (forward timing round_id round_start_ns event) cluster
  submit_events timing round_id round_start_ns events submitted

-- `_build_control_plane_update`
unfoldable pub build_control_plane_update : ℕ → ControlPlaneState → ControlPlaneUpdate
build_control_plane_update node_id control_state = record {
  installed_config = control_state.installed_config;
  membership_state = lookup_or node_id failed control_state.node_states;
  pending_config = control_state.pending_config;
  repair_log = lookup node_id control_state.repair_logs;
}

-- The history of a node that is handed a repair log becomes that log.
unfoldable pub repaired_history :
    ControlPlaneUpdate → ℕ → Dict (List CommittedRoundRecord) → Dict (List CommittedRoundRecord)
repaired_history update node_id history = elim update.repair_log [
  | none ↦ history
  | some log ↦ insert node_id log.entries history
]

-- The body of the loop of `_push_control_plane_updates`.
unfoldable pub push_update : ControlPlaneState → Node → Cluster → Node × Cluster
unfolding build_control_plane_update repaired_history
push_update control_state node cluster =
    let update = build_control_plane_update node.node_id control_state in
    if option_eq update_eq (lookup node.node_id cluster.last_control_plane_updates) (some update)
    then (node, cluster)
    else (
      push_control_plane_update update node,
      record cluster {
        commit_history_by_node =
            repaired_history update node.node_id cluster.commit_history_by_node;
        last_control_plane_updates = insert node.node_id update cluster.last_control_plane_updates;
      },
    )

-- The loop itself: the nodes come back in their order.
unfoldable pub push_updates : ControlPlaneState → List Node → Cluster → List Node × Cluster
unfolding push_update
push_updates control_state [] cluster = ([], cluster)
push_updates control_state (node ∷ nodes) cluster =
    let (pushed, after) = push_update control_state node cluster in
    let (rest, final) = push_updates control_state nodes after in (pushed ∷ rest, final)

-- `_push_control_plane_updates`
unfoldable pub push_control_plane_updates : ControlPlaneState → Cluster → Cluster
unfolding push_updates
push_control_plane_updates control_state cluster =
    let (nodes, after) = push_updates control_state cluster.nodes cluster in
    record after { nodes = nodes }
