-- ===== src/Campaign/Examples.antt =====
-- Instances of the theorems on campaigns: a result of two nodes, and a campaign of two trials.
use mathlib.Core.List.{Memᴰ}
use syncons.Base.{
  ℕ, ◌<◌, ◌≡◌, refl, ◌↔◌, Bool, true, false, ◌&&◌, none, some, List, [], ◌∷◌, map, arith, ◌==◌,
  range, pos,
}
use syncons.Protocol.{CommittedRoundRecord, running, Packet}
use syncons.Node.Samples.{tally, payload, node_at}
use syncons.Cluster.Network.{Network, advance_network}
use syncons.Cluster.Network.Alike.{nodes_of}
use syncons.Cluster.Rounds.{NodeResult, RunResult}
use syncons.Campaign.{committed_value, safety_violations}
use syncons.Campaign.Faults.{
  random_node_fault_model, random_network_fault_model, RandomFaultConfig, Rolls,
}
use syncons.Campaign.Summary.{Draws, CampaignSummary, run_random_trial, run_campaign}
use syncons.Campaign.Violations.{IsSafe, safety_violations_iff}
use syncons.Campaign.Safety.{safety_violations-compatible, safety_violations-committed_value}
use syncons.Campaign.Duplicates.{without_duplicates, random_network_fault_model_duplicates}
use syncons.Campaign.Bounds.{random_node_fault_model_stays}
use syncons.Campaign.Trials.{IsSummary, run_campaign_returns}

abbrev entry : CommittedRoundRecord
entry = record {
  round = pos 0;
  membership_epoch = 0;
  commit_set = 3;
  proposals = (0, "a") ∷ (1, "b") ∷ [];
  commit_time_ns = none;
  app_delivery_time_ns = none;
}

-- The same proposals in another order.
abbrev reordered : CommittedRoundRecord
reordered = record entry { proposals = (1, "b") ∷ (0, "a") ∷ [] }

abbrev node : ℕ → CommittedRoundRecord → NodeResult
node i committed = record {
  node_id = i;
  status = running;
  halted_round = none;
  committed_rounds = committed ∷ [];
}

abbrev result : RunResult
result = record {
  node_count = 2;
  rounds = 4;
  simulated_time_ns = 16_000;
  control_plane_events = [];
  nodes = node 0 entry ∷ node 1 reordered ∷ [];
}

safety_violations_iff_example : (safety_violations result ≡ []) ↔ IsSafe result.nodes
safety_violations_iff_example = safety_violations_iff result

result-clean : safety_violations result ≡ []
unfolding committed_value
result-clean = (safety_violations-compatible result).1 refl

value_of_both : committed_value entry ≡ committed_value reordered
value_of_both =
    safety_violations-committed_value result entry reordered result-clean (Memᴰ.head refl)
      (Memᴰ.tail (Memᴰ.head refl)) refl

-- Node 1 crashes in round 2.
abbrev drawn : ℕ → ℕ → Bool
drawn i r = i == 1 && r == 2

drawn_stops : random_node_fault_model drawn 2 5 1 3 ≡ false
unfolding random_node_fault_model
drawn_stops = refl

stays_down : (0 < 3) × (random_node_fault_model drawn 2 5 1 4 ≡ false)
stays_down = random_node_fault_model_stays drawn 2 5 1 3 4 drawn_stops (omega arith)

abbrev calm_rolls : Packet → ℕ → Rolls
calm_rolls packet dst = record {
  lost = false;
  delayed = false;
  corrupted = none;
  duplicated = true;
}

abbrev config : RandomFaultConfig ℕ
config = record {
  node_count = 3;
  rounds = 4;
  trials = 2;
  seed = 1;
  packet_loss = 0;
  packet_delay = 0;
  ack_corruption = 0;
  duplicate = 1;
  node_crash = 0;
}

abbrev draws : RandomFaultConfig ℕ → ℕ → Draws
draws of_config seed = record { crashes = drawn; rolls = calm_rolls }

run_campaign_returns_example :
    (results : List RunResult) × (summary : CampaignSummary) × (map
        (run_random_trial tally draws payload config)
        (map (λ i. i) (range 2))
      ≡ map some results)
    × (run_campaign tally draws payload config (λ i. i) ≡ some summary)
    × IsSummary config results summary
run_campaign_returns_example =
    run_campaign_returns tally draws payload config (omega arith) (λ i. i)

-- A packet of node 1 to node 0 is on its way.
abbrev loaded : Network
loaded = record {
  nodes = node_at 0 ∷ node_at 1 ∷ node_at 2 ∷ [];
  scheduled =
      (
        0,
        record {
          dst = 0;
          packet = record { round_id = 0; src_id = 1; run_id = 0; row = 0; payload = "cmd" };
          fault_applied = false;
        }
            ∷ [],
      )
      ∷ [];
}

random_network_fault_model_duplicates_example :
    nodes_of (advance_network (random_network_fault_model calm_rolls) 0 loaded)
    ≡ nodes_of
        (advance_network (random_network_fault_model (without_duplicates calm_rolls)) 0 loaded)
random_network_fault_model_duplicates_example =
    random_network_fault_model_duplicates calm_rolls 0 loaded
