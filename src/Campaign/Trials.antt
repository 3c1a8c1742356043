-- ===== src/Campaign/Trials.antt =====
-- A campaign of sim/runtime/random_campaign.py comes to its summary.
use syncons.Base.{
  ℕ, suc, ◌*◌, ◌<◌, ◌≡◌, refl, sym, ap, ◌∙◌, Bool, not, ◌&&◌, some, List, [], ◌∷◌, map, arith, ltb,
  ◌==◌, length, count, all, any, range, length-range_from,
}
use syncons.Protocol.{NodeStatus, running, halted, crashed, default_timing, PayloadFactory}
use syncons.Node.Digest.{Hashing}
use syncons.Cluster.Rounds.{NodeResult, RunResult}
use syncons.Cluster.Totality.Rounds.{run_returns, length-map}
use syncons.Campaign.Faults.{random_node_fault_model, random_network_fault_model, RandomFaultConfig}
use syncons.Campaign.Summary.{
  summarize_trial, sum, CampaignSummary, summarize_campaign, Draws, run_random_trial, run_trials,
  run_campaign,
}
use syncons.Campaign.{safety_violations}
use syncons.Campaign.Bounds.{AreCounted, summarize_campaign-AreCounted}
use syncons.Protocol.Equality.{node_status_eq}

-- A run in which some node ended in this status.
abbrev pub ends_in : NodeStatus → RunResult → Bool
ends_in status result = any (λ (n : NodeResult). node_status_eq n.status status) result.nodes

-- What a summary says of the results of the runs.
pub record IsSummary {Chance : Type 0} (config : RandomFaultConfig Chance)
    (results : List RunResult) (summary : CampaignSummary) : Type 0 where
  pub trials : summary.trials ≡ config.trials
  pub halts : summary.halted_runs ≡ count (ends_in halted) results
  pub crashes : summary.crashed_runs ≡ count (ends_in crashed) results
  pub calm :
      summary.all_running_runs
      ≡ count (all (λ n. node_status_eq n.status running)) (map (λ r. r.nodes) results)
  pub violated :
      summary.safety_violation_runs ≡ count (λ r. not (length (safety_violations r) == 0)) results
  pub committed :
      summary.total_committed
      ≡ sum (map (λ r. sum (map (λ (n : NodeResult). length n.committed_rounds) r.nodes)) results)
  pub counted : AreCounted summary
  pub node_runs : summary.total_node_runs ≡ config.trials * config.node_count

module _ {ℓ} {A B : Type ℓ} where
  map-map :
      {C : Type ℓ} (g : B → C) (f : A → B) (xs : List A) → map g (map f xs) ≡ map (λ x. g (f x)) xs
  map-map g f [] = refl
  map-map g f (x ∷ xs) = ap (λ ys. g (f x) ∷ ys) (map-map g f xs)

  count-map :
      (p : B → Bool) (f : A → B) (xs : List A) → count p (map f xs) ≡ count (λ x. p (f x)) xs
  count-map p f [] = refl
  count-map p f (x ∷ xs) = ground (arith, count-map p f xs)

count_same {ℓ} :
    {A : Type ℓ} (p q : A → Bool) (xs : List A) → ((x : A) → p x ≡ q x) → count p xs ≡ count q xs
count_same p q [] h = refl
count_same p q (x ∷ xs) h = ground (arith, h x, count_same p q xs h)

some_counted :
    (status : NodeStatus) (nodes : List NodeResult)
    → ltb 0 (count (λ s. node_status_eq s status) (map (λ (n : NodeResult). n.status) nodes))
      ≡ any (λ (n : NodeResult). node_status_eq n.status status) nodes
some_counted status [] = refl
some_counted status (n ∷ nodes) = ground (arith, some_counted status nodes)

running_exclusive :
    (s : NodeStatus)
    → node_status_eq s running ≡ (not (node_status_eq s halted) && not (node_status_eq s crashed))
running_exclusive running = refl
running_exclusive halted = refl
running_exclusive crashed = refl

all_running :
    (nodes : List NodeResult)
    → let statuses = map (λ (n : NodeResult). n.status) nodes in
      (count (λ s. node_status_eq s halted) statuses == 0
        && count (λ s. node_status_eq s crashed) statuses == 0)
      ≡ all (λ (n : NodeResult). node_status_eq n.status running) nodes
all_running [] = refl
all_running (n ∷ nodes) = ground (arith, running_exclusive n.status, all_running nodes)

summarize_campaign-IsSummary :
    {Chance : Type 0} (config : RandomFaultConfig Chance) (results : List RunResult)
    → length results ≡ config.trials
    → IsSummary config results
        (summarize_campaign config.trials config.node_count (map summarize_trial results))
unfolding summarize_campaign summarize_trial
summarize_campaign-IsSummary config results h = record {
  trials = refl;
  halts =
      count-map _ summarize_trial results
      ∙ count_same _ (ends_in halted) results (λ r. some_counted halted r.nodes);
  crashes =
      count-map _ summarize_trial results
      ∙ count_same _ (ends_in crashed) results (λ r. some_counted crashed r.nodes);
  calm =
      count-map _ summarize_trial results
      ∙ count_same _ _ results (λ r. all_running r.nodes)
      ∙ sym (
          count-map (all (λ (n : NodeResult). node_status_eq n.status running))
            (λ (r : RunResult). r.nodes) results);
  violated = count-map _ summarize_trial results;
  committed = ap sum (map-map _ summarize_trial results);
  counted =
      summarize_campaign-AreCounted config.trials config.node_count (map summarize_trial results)
        (length-map summarize_trial results ∙ h);
  node_runs = refl;
}

module _ {Chance : Type 0} (hashing : Hashing) (draws : RandomFaultConfig Chance → ℕ → Draws)
    (payload_factory : PayloadFactory) (config : RandomFaultConfig Chance)
    (positive : 0 < config.node_count) where
  run_random_trial_returns :
      (seed : ℕ)
      → (result : RunResult) × (run_random_trial hashing draws payload_factory config seed
          ≡ some result)
  unfolding run_random_trial
  run_random_trial_returns seed =
      let drawn = draws config seed in
      let (result, e, ids) =
        run_returns hashing
          (record {
            node_count = config.node_count;
            timing = default_timing;
            payload_factory = payload_factory;
            network_fault_model = random_network_fault_model drawn.rolls;
            node_fault_model =
                random_node_fault_model drawn.crashes config.node_count config.rounds;
          })
          config.rounds positive (omega arith) in
      (result, e)

  -- The runs of the seeds, one after the other.
  run_trials_returns :
      (seeds : List ℕ)
      → (results : List RunResult) × (map
            (run_random_trial hashing draws payload_factory config)
            seeds
          ≡ map some results)
        × (run_trials hashing draws payload_factory config seeds
            ≡ some (map summarize_trial results))
        × (length results ≡ length seeds)
  unfolding run_trials
  run_trials_returns [] = ([], refl, refl, refl)
  run_trials_returns (seed ∷ seeds) =
      let (result, e) = run_random_trial_returns seed in
      let (results, runs, f, count) = run_trials_returns seeds in
      (result ∷ results, cc (e, runs), rw (e, f) refl, ap suc count)

  -- With at least one node a campaign returns a summary, whatever the random source draws: as many
  -- runs as were asked for come to a result, by the seeds in their order, and the summary counts
  -- the runs with a halted node, with a crashed node, with neither, and with a safety violation,
  -- and adds up all committed rounds and all nodes.
  pub run_campaign_returns :
      (trial_seed : ℕ → ℕ)
      → (results : List RunResult) × (summary : CampaignSummary) × (map
            (run_random_trial hashing draws payload_factory config)
            (map trial_seed (range config.trials))
          ≡ map some results)
        × (run_campaign hashing draws payload_factory config trial_seed ≡ some summary)
        × IsSummary config results summary
  unfolding run_campaign
  run_campaign_returns trial_seed =
      let seeds = map trial_seed (range config.trials) in
      let (results, runs, e, count) = run_trials_returns seeds in
      (
        results,
        summarize_campaign config.trials config.node_count (map summarize_trial results),
        runs,
        rw e refl,
        summarize_campaign-IsSummary config results (
            count
            ∙ length-map trial_seed (range config.trials)
            ∙ length-range_from 0 config.trials),
      )
