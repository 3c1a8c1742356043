-- ===== src/Cluster/Examples.antt =====
-- Runs of clusters of three nodes in sim/runtime/cluster.py, and instances of the theorems on them.
use syncons.Base.{
  ℕ, ◌+◌, ◌≡◌, false, not, ◌&&◌, none, some, [], ◌∷◌, map, arith, ltb, ◌==◌, if◌then◌else◌,
  lookup_or, erase, range,
}
use syncons.Protocol.{NetworkFaultModel, default_timing}
use syncons.Node.Samples.{tally, payload, node_at}
use syncons.Cluster.{Cluster, Settings, InFlight, new_cluster}
use syncons.Cluster.Network.{Network, advance_network}
use syncons.Cluster.Network.Passes.{two_passes, advance_network-two_passes}
use syncons.Cluster.Rounds.{RunResult, run, run_rounds, turn}
use syncons.Cluster.Totality.{IsSound, Yields}
use syncons.Cluster.Totality.Reasons.{AreExpected, run_rounds-AreExpected}
use syncons.Cluster.Totality.Rounds.{result_ids, new_cluster-IsSound, turn-IsSound, run_returns}

-- Packets of node 0 come a round late, those of node 1 come twice.
abbrev late_and_twice : NetworkFaultModel
late_and_twice packet dst = record {
  deliver_round = some (if packet.src_id == 0 then packet.round_id + 1 else packet.round_id);
  packet_round_override = none;
  run_id_override = none;
  row_override = none;
  payload_override = none;
  extra_deliver_rounds = [];
  extra_copies =
      if packet.src_id == 1
      then record {
        deliver_round = packet.round_id;
        packet_round_override = none;
        run_id_override = none;
        row_override = none;
        payload_override = none;
      }
        ∷ []
      else [];
}

-- Node 2 stops at round 1.
abbrev rough : Settings
rough = record {
  node_count = 3;
  timing = default_timing;
  payload_factory = payload;
  network_fault_model = late_and_twice;
  node_fault_model = λ i r. not (i == 2 && ltb 0 r);
}

-- A packet of this node to node 0, which the fault model has not seen yet.
abbrev in_flight : ℕ → InFlight
in_flight src = record {
  dst = 0;
  packet = record { round_id = 0; src_id = src; run_id = 0; row = 0; payload = "cmd" };
  fault_applied = false;
}

abbrev loaded : Network
loaded = record {
  nodes = map node_at (range 3);
  scheduled = (0, in_flight 1 ∷ in_flight 0 ∷ []) ∷ [];
}

advance_network-two_passes_example :
    advance_network late_and_twice 0 loaded
    ≡ two_passes late_and_twice 0
        (lookup_or 0 [] loaded.scheduled)
        (record loaded { scheduled = erase 0 loaded.scheduled })
advance_network-two_passes_example = advance_network-two_passes late_and_twice 0 loaded

start-IsSound : IsSound tally 3 (new_cluster "" rough)
start-IsSound = new_cluster-IsSound tally "" rough (omega arith) (omega arith)

turn-IsSound_example : Yields (IsSound tally 3) (turn tally rough 0 (new_cluster "" rough))
turn-IsSound_example = turn-IsSound tally rough 0 (new_cluster "" rough) start-IsSound

run_returns_example :
    (result : RunResult) × (run tally rough 6 ≡ some result) × (result_ids result ≡ range 3)
run_returns_example = run_returns tally rough 6 (omega arith) (omega arith)

run_rounds-AreExpected_example :
    (cluster : Cluster) × (run_rounds tally rough (range 6) (new_cluster "" rough) ≡ some cluster)
    × AreExpected cluster.nodes
run_rounds-AreExpected_example = run_rounds-AreExpected tally rough 6 (omega arith) (omega arith)
