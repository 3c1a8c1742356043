-- ===== src/Cluster/Rounds.antt =====
-- `run` of sim/runtime/cluster.py: one turn of its loop, and the loop.
use syncons.Base.{
  ℕ, ◌+◌, ◌*◌, not, Option, none, some, List, [], ◌∷◌, ◌++◌, map, if◌then◌else◌, any, length,
  lookup_or, insert, range, String, str_eq, ◌==◌,
}
use syncons.Protocol.{CommittedRound, CommittedRoundRecord, OutboundPacket, NodeStatus}
use syncons.Protocol.Records.{from_committed_round}
use syncons.Node.{Node, pull_control_plane_events}
use syncons.Node.Digest.{Hashing}
use syncons.Node.Round.{advance_round, crash}
use syncons.Control.{Forwarded, ◌>>=◌}
use syncons.Control.Clock.{advance_to_time, control_state_at}
use syncons.Cluster.{
  Settings, Cluster, on_round_complete, repair_log_snapshots, submit_events,
  push_control_plane_updates, new_cluster,
}
use syncons.Cluster.Network.{schedule_outbound_packet, schedule_to, advance_network}

-- `s | {x}` and `s.update(xs)` on a set of texts.
abbrev pub add_text : String → List String → List String
add_text x xs = if any (str_eq x) xs then xs else xs ++ x ∷ []

abbrev pub update_texts : List String → List String → List String
update_texts xs [] = xs
update_texts xs (y ∷ ys) = update_texts (add_text y xs) ys

-- `committed_commands_this_round.update(entry.proposals.values())` over the entries.
unfoldable pub note_commands : List CommittedRoundRecord → List String → List String
note_commands [] commands = commands
note_commands (entry ∷ entries) commands =
    note_commands entries (update_texts commands (map (λ p. p.1) entry.proposals))

unfoldable pub timed_entries : Settings → ℕ → List CommittedRound → List CommittedRoundRecord
timed_entries settings round_start_ns new_commits =
    map
      (λ entry.
        from_committed_round entry (some round_start_ns)
          (some (round_start_ns + settings.timing.app_delivery_delay_ns)))
      new_commits

-- The state inside the loop over the nodes.
pub record Progress : Type 0 where
  pub cluster : Cluster
  pub commands : List String

-- `if round_result.new_commits: …`
unfoldable pub keep_commits : Settings → ℕ → ℕ → List CommittedRound → Progress → Progress
unfolding timed_entries note_commands
keep_commits settings node_id round_start_ns new_commits progress =
    let entries = timed_entries settings round_start_ns new_commits in
    let history = progress.cluster.commit_history_by_node in
    if length new_commits == 0 then progress else record {
      cluster = record (progress.cluster) {
        commit_history_by_node = insert node_id (lookup_or node_id [] history ++ entries) history;
      };
      commands = note_commands entries progress.commands;
    }

unfoldable pub enqueue : Option OutboundPacket → Cluster → Cluster
unfolding schedule_to
enqueue none cluster = cluster
enqueue (some outbound) cluster = record cluster {
  scheduled_deliveries = schedule_outbound_packet outbound cluster.scheduled_deliveries;
}

-- The node fault model, before the node advances.
unfoldable pub faulted : Settings → ℕ → Node → Node
faulted settings round_id node =
    if not (settings.node_fault_model node.node_id round_id) then crash round_id node else node

module _ (settings : Settings) where
  -- The control plane comes first in a round, and each node gets its update.
  unfoldable pub turn_control_plane : ℕ → Cluster → Option Cluster
  turn_control_plane round_id cluster = do
    let snapshots = repair_log_snapshots cluster.commit_history_by_node
    advanced ←
        advance_to_time snapshots (round_id * settings.timing.round_length_ns) settings.node_count
          cluster.control_plane
    answer ← control_state_at snapshots round_id settings.node_count advanced
    some (push_control_plane_updates answer.0 (record cluster { control_plane = answer.1 }))

  -- The network and the summary come last.
  unfoldable pub close_round : ℕ → List Node → Progress → Option Cluster
  close_round round_id nodes progress = do
    let round_start_ns = round_id * settings.timing.round_length_ns
    network ←
        advance_network settings.network_fault_model round_id
          (record { nodes = nodes; scheduled = progress.cluster.scheduled_deliveries })
    some (record (progress.cluster) {
      nodes = network.nodes;
      scheduled_deliveries = network.scheduled;
      summaries =
          on_round_complete
            (record {
              round_id = round_id;
              start_time_ns = round_start_ns;
              end_time_ns = round_start_ns + settings.timing.round_length_ns;
              committed_txns = length progress.commands;
            })
            progress.cluster.summaries;
    })

module _ (hashing : Hashing) (settings : Settings) where
  -- The body of the loop over the nodes.
  unfoldable pub turn_node : ℕ → Node → Progress → Option (Node × Progress)
  unfolding enqueue pull_control_plane_events
  turn_node round_id node progress = do
    let round_start_ns = round_id * settings.timing.round_length_ns
    let (advanced, round_result) = advance_round hashing round_id (faulted settings round_id node)
    let kept =
        keep_commits settings advanced.node_id round_start_ns round_result.new_commits progress
    let (events, pulled) = pull_control_plane_events advanced
    forwarded ← submit_events settings.timing round_id round_start_ns events kept.cluster
    some (
      pulled,
      record { cluster = enqueue round_result.outbound forwarded; commands = kept.commands },
    )

  unfoldable pub turn_nodes : ℕ → List Node → Progress → Option (List Node × Progress)
  unfolding turn_node
  turn_nodes round_id [] progress = some ([], progress)
  turn_nodes round_id (node ∷ nodes) progress = do
    turned ← turn_node round_id node progress
    rest ← turn_nodes round_id nodes turned.1
    some (turned.0 ∷ rest.0, rest.1)

  -- One turn of the loop of `run`.
  unfoldable pub turn : ℕ → Cluster → Option Cluster
  turn round_id cluster = do
    pushed ← turn_control_plane settings round_id cluster
    turned ← turn_nodes round_id pushed.nodes (record { cluster = pushed; commands = [] })
    close_round settings round_id turned.0 turned.1

  unfoldable pub run_rounds : List ℕ → Cluster → Option Cluster
  run_rounds [] cluster = some cluster
  run_rounds (round_id ∷ rounds) cluster = do
    turned ← turn round_id cluster
    run_rounds rounds turned

-- What the result says of a node, as far as other code reads it. An entry stands for its snapshot,
-- from which it can be read back.
pub record NodeResult : Type 0 where
  pub node_id : ℕ
  pub status : NodeStatus
  pub halted_round : Option ℕ
  pub committed_rounds : List CommittedRoundRecord

-- The keys of the result, without the timing, which copies the settings, and the debug snapshot of
-- the control plane.
pub record RunResult : Type 0 where
  pub node_count : ℕ
  pub rounds : ℕ
  pub simulated_time_ns : ℕ
  pub control_plane_events : List Forwarded
  pub nodes : List NodeResult

unfoldable pub final_snapshot : Settings → ℕ → Cluster → RunResult
final_snapshot settings rounds cluster = record {
  node_count = settings.node_count;
  rounds = rounds;
  simulated_time_ns = rounds * settings.timing.round_length_ns;
  control_plane_events = cluster.control_plane_events;
  nodes =
      map
        (λ (node : Node). record {
          node_id = node.node_id;
          status = node.status;
          halted_round = node.halted_round;
          committed_rounds = lookup_or node.node_id [] cluster.commit_history_by_node;
        })
        cluster.nodes;
}

unfoldable pub run : Hashing → Settings → ℕ → Option RunResult
run hashing settings rounds = do
  cluster ←
      run_rounds hashing settings (range rounds) (new_cluster hashing.empty_log_digest settings)
  some (final_snapshot settings rounds cluster)
