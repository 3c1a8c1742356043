-- ===== src/Scenarios.antt =====
-- The built-in scenarios of sim/scenarios/builtin.py, without their descriptions. A range of rounds
-- is written as one.
pub mod Gaps
mod Examples
use syncons.Base.{
  ℕ, Bool, true, false, ◌&&◌, ◌||◌, Option, none, some, List, [], ◌∷◌, ◌++◌, map, any, all, ℤ, pos,
  range, range_from, String, str_eq,
}
use syncons.Protocol.{running, halted, crashed, NodeStatus}
use syncons.Faults.{
  network_perfect, network_asymmetric_loss, network_bridge_partition, network_one_round_delay,
  network_quorum_loss, network_future_round_skew, network_row_corruption, all_nodes_active,
  node2_crashes_after_round0, nodes1and2_crash_after_round0, node2_reboots_under_control_plane,
}
use syncons.Expectations.{ScenarioExpectation, ScenarioSpec}

-- A tuple of rounds.
abbrev pub rounds_tuple : List ℕ → List ℤ
rounds_tuple rounds = map pos rounds

-- Three values, one for each node.
abbrev triple {ℓ} : {A : Type ℓ} → A → A → A → List A
triple a b c = a ∷ b ∷ c ∷ []

abbrev pub perfect : ScenarioSpec
perfect = record {
  network_fault_model = network_perfect;
  node_fault_model = all_nodes_active;
  rounds = 5;
  expectation = record {
    statuses = triple running running running;
    committed_rounds =
        triple (rounds_tuple (range 3)) (rounds_tuple (range 3)) (rounds_tuple (range 3));
    halted_rounds = triple none none none;
  };
}

abbrev pub node2_crash : ScenarioSpec
node2_crash = record {
  network_fault_model = network_perfect;
  node_fault_model = node2_crashes_after_round0;
  rounds = 5;
  expectation = record {
    statuses = triple running running crashed;
    committed_rounds = triple (rounds_tuple (range 3)) (rounds_tuple (range 3)) [];
    halted_rounds = triple none none (some 1);
  };
}

abbrev pub asymmetric_loss : ScenarioSpec
asymmetric_loss = record {
  network_fault_model = network_asymmetric_loss;
  node_fault_model = all_nodes_active;
  rounds = 40;
  expectation = record {
    statuses = triple running running running;
    committed_rounds =
        triple (rounds_tuple (range 34 ++ 36 ∷ 37 ∷ [])) (rounds_tuple (range 34 ++ 36 ∷ 37 ∷ []))
          (rounds_tuple (range 33 ++ 36 ∷ 37 ∷ []));
    halted_rounds = triple none none none;
  };
}

abbrev pub bridge_partition : ScenarioSpec
bridge_partition = record {
  network_fault_model = network_bridge_partition;
  node_fault_model = all_nodes_active;
  rounds = 5;
  expectation = record {
    statuses = triple halted halted halted;
    committed_rounds = triple [] [] [];
    halted_rounds = triple (some 2) (some 2) (some 2);
  };
}

abbrev pub one_epoch_delay : ScenarioSpec
one_epoch_delay = record {
  network_fault_model = network_one_round_delay;
  node_fault_model = all_nodes_active;
  rounds = 5;
  expectation = record {
    statuses = triple halted running running;
    committed_rounds =
        triple (rounds_tuple (range 1)) (rounds_tuple (range 3)) (rounds_tuple (range 3));
    halted_rounds = triple (some 3) none none;
  };
}

abbrev pub quorum_loss : ScenarioSpec
quorum_loss = record {
  network_fault_model = network_quorum_loss;
  node_fault_model = nodes1and2_crash_after_round0;
  rounds = 5;
  expectation = record {
    statuses = triple halted crashed crashed;
    committed_rounds = triple [] [] [];
    halted_rounds = triple (some 2) (some 1) (some 1);
  };
}

abbrev pub future_epoch_skew : ScenarioSpec
future_epoch_skew = record {
  network_fault_model = network_future_round_skew;
  node_fault_model = all_nodes_active;
  rounds = 5;
  expectation = record {
    statuses = triple running running halted;
    committed_rounds = triple (rounds_tuple (range 3)) (rounds_tuple (range 3)) [];
    halted_rounds = triple none none (some 2);
  };
}

abbrev pub ack_bitmap_corruption : ScenarioSpec
ack_bitmap_corruption = record {
  network_fault_model = network_row_corruption;
  node_fault_model = all_nodes_active;
  rounds = 5;
  expectation = record {
    statuses = triple running running halted;
    committed_rounds =
        triple (rounds_tuple (range 3)) (rounds_tuple (range 3)) (rounds_tuple (range 2));
    halted_rounds = triple none none (some 4);
  };
}

abbrev pub controlled_rejoin : ScenarioSpec
controlled_rejoin = record {
  network_fault_model = network_perfect;
  node_fault_model = node2_reboots_under_control_plane;
  rounds = 55;
  expectation = record {
    statuses = triple running running running;
    committed_rounds =
        triple (rounds_tuple (range 33 ++ range_from 35 18))
          (rounds_tuple (range 33 ++ range_from 35 18))
          (rounds_tuple (range 32 ++ range_from 35 18));
    halted_rounds = triple none none none;
  };
}

abbrev pub online_rejoin : ScenarioSpec
online_rejoin = record {
  network_fault_model = network_perfect;
  node_fault_model = node2_reboots_under_control_plane;
  rounds = 40;
  expectation = record {
    statuses = triple running running running;
    committed_rounds =
        triple (rounds_tuple (range 33 ++ range_from 35 3))
          (rounds_tuple (range 33 ++ range_from 35 3)) (rounds_tuple (range 32 ++ range_from 35 3));
    halted_rounds = triple none none none;
  };
}

-- `SCENARIOS`, in the order of insertion.
abbrev pub scenarios : List (String × ScenarioSpec)
scenarios =
    ("perfect", perfect)
    ∷ ("node2_crash", node2_crash)
    ∷ ("asymmetric_loss", asymmetric_loss)
    ∷ ("bridge_partition", bridge_partition)
    ∷ ("one_epoch_delay", one_epoch_delay)
    ∷ ("quorum_loss", quorum_loss)
    ∷ ("future_epoch_skew", future_epoch_skew)
    ∷ ("ack_bitmap_corruption", ack_bitmap_corruption)
    ∷ ("controlled_rejoin", controlled_rejoin)
    ∷ ("online_rejoin", online_rejoin)
    ∷ []

abbrev pub primary_scenarios : List String
primary_scenarios =
    "perfect" ∷ "node2_crash" ∷ "asymmetric_loss" ∷ "bridge_partition" ∷ "one_epoch_delay"
    ∷ "quorum_loss" ∷ "controlled_rejoin" ∷ "online_rejoin" ∷ []

abbrev pub auxiliary_scenarios : List String
auxiliary_scenarios = []

abbrev pub out_of_model_scenarios : List String
out_of_model_scenarios = "ack_bitmap_corruption" ∷ "future_epoch_skew" ∷ []

abbrev contains : List String → String → Bool
contains names name = any (str_eq name) names

-- The assertion at the end: the groups together have the names of the scenarios, and no other.
abbrev pub groups_cover : Bool
groups_cover =
    let grouped = primary_scenarios ++ auxiliary_scenarios ++ out_of_model_scenarios in
    let names = map (λ (s : String × ScenarioSpec). s.0) scenarios in
    all (contains grouped) names && all (contains names) grouped
