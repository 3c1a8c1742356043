-- ===== src/Campaign/Summary.antt =====
-- The summaries of a trial and of a campaign in sim/runtime/random_campaign.py. The average is kept
-- as its numerator and denominator.
use syncons.Base.{
  ℕ, ◌+◌, ◌*◌, min, max, Bool, not, ◌&&◌, Option, none, some, List, [], ◌∷◌, map, if◌then◌else◌,
  ltb, ◌==◌, length, count, range,
}
use syncons.Protocol.{NodeStatus, halted, crashed, Packet, PayloadFactory, default_timing}
use syncons.Protocol.Equality.{node_status_eq}
use syncons.Control.{◌>>=◌}
use syncons.Node.Digest.{Hashing}
use syncons.Cluster.Rounds.{NodeResult, RunResult, run}
use syncons.Campaign.{Violation, safety_violations}
use syncons.Campaign.Faults.{
  RandomFaultConfig, random_node_fault_model, random_network_fault_model, Rolls,
}

-- `min(xs) if xs else None`
abbrev pub least : List ℕ → Option ℕ
least [] = none
least (x ∷ xs) = elim (least xs) [ none ↦ some x | some y ↦ some (min x y) ]

-- `max(xs, default=0)`
abbrev pub greatest : List ℕ → ℕ
greatest [] = 0
greatest (x ∷ xs) = max x (greatest xs)

-- `[node["halted_round"] for node in nodes if node["status"] == status and … is not None]`
abbrev pub halted_rounds_of : NodeStatus → List NodeResult → List ℕ
halted_rounds_of status [] = []
halted_rounds_of status (node ∷ nodes) =
    let rest = halted_rounds_of status nodes in
    if node_status_eq node.status status
    then elim node.halted_round [ none ↦ rest | some round ↦ round ∷ rest ]
    else rest

pub record TrialSummary : Type 0 where
  pub statuses : List NodeStatus
  pub committed_counts : List ℕ
  pub max_committed : ℕ
  pub halted_nodes : ℕ
  pub crashed_nodes : ℕ
  pub first_halt_round : Option ℕ
  pub first_crash_round : Option ℕ
  pub violations : List Violation

unfoldable pub summarize_trial : RunResult → TrialSummary
unfolding safety_violations
summarize_trial result =
    let statuses = map (λ node. node.status) result.nodes in
    let committed_counts = map (λ node. length node.committed_rounds) result.nodes in
    record {
      statuses = statuses;
      committed_counts = committed_counts;
      max_committed = greatest committed_counts;
      halted_nodes = count (λ s. node_status_eq s halted) statuses;
      crashed_nodes = count (λ s. node_status_eq s crashed) statuses;
      first_halt_round = least (halted_rounds_of halted result.nodes);
      first_crash_round = least (halted_rounds_of crashed result.nodes);
      violations = safety_violations result;
    }

abbrev pub sum : List ℕ → ℕ
sum [] = 0
sum (x ∷ xs) = x + sum xs

pub record CampaignSummary : Type 0 where
  pub trials : ℕ
  pub safety_violation_runs : ℕ
  pub halted_runs : ℕ
  pub crashed_runs : ℕ
  pub all_running_runs : ℕ
  pub total_committed : ℕ
  pub total_node_runs : ℕ

-- The counts at the end of `run_campaign`.
unfoldable pub summarize_campaign : ℕ → ℕ → List TrialSummary → CampaignSummary
summarize_campaign config_trials node_count trials = record {
  trials = config_trials;
  safety_violation_runs =
      count (λ (trial : TrialSummary). not (length trial.violations == 0)) trials;
  halted_runs = count (λ (trial : TrialSummary). ltb 0 trial.halted_nodes) trials;
  crashed_runs = count (λ (trial : TrialSummary). ltb 0 trial.crashed_nodes) trials;
  all_running_runs =
      count (λ (trial : TrialSummary). trial.halted_nodes == 0 && trial.crashed_nodes == 0) trials;
  total_committed = sum (map (λ (trial : TrialSummary). sum trial.committed_counts) trials);
  total_node_runs = config_trials * node_count;
}

-- What `random.Random` draws in a trial, by its seed.
pub record Draws : Type 0 where
  pub crashes : ℕ → ℕ → Bool
  pub rolls : Packet → ℕ → Rolls

module _ {Chance : Type 0} (hashing : Hashing) (draws : RandomFaultConfig Chance → ℕ → Draws) where
  -- `run_random_trial`, with the default timing and payloads of ClusterRun.
  unfoldable pub run_random_trial : PayloadFactory → RandomFaultConfig Chance → ℕ → Option RunResult
  unfolding random_network_fault_model random_node_fault_model
  run_random_trial payload_factory config trial_seed =
      let drawn = draws config trial_seed in
      run hashing
        (record {
          node_count = config.node_count;
          timing = default_timing;
          payload_factory = payload_factory;
          network_fault_model = random_network_fault_model drawn.rolls;
          node_fault_model = random_node_fault_model drawn.crashes config.node_count config.rounds;
        })
        config.rounds

  -- The loop of `run_campaign`, over the seeds that `seed_rng` draws.
  unfoldable pub run_trials :
      PayloadFactory → RandomFaultConfig Chance → List ℕ → Option (List TrialSummary)
  unfolding run_random_trial summarize_trial
  run_trials payload_factory config [] = some []
  run_trials payload_factory config (seed ∷ seeds) = do
    result ← run_random_trial payload_factory config seed
    rest ← run_trials payload_factory config seeds
    some (summarize_trial result ∷ rest)

  unfoldable pub run_campaign :
      PayloadFactory → RandomFaultConfig Chance → (ℕ → ℕ) → Option CampaignSummary
  unfolding run_trials summarize_campaign
  run_campaign payload_factory config trial_seed = do
    trials ← run_trials payload_factory config (map trial_seed (range config.trials))
    some (summarize_campaign config.trials config.node_count trials)
