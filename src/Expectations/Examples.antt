-- ===== src/Expectations/Examples.antt =====
-- Instances of the theorems on expectations, at two nodes of which one has halted.
use syncons.Base.{ℕ, ◌≡◌, ◌↔◌, refl, none, some, List, [], ◌∷◌, arith, pos}
use syncons.Protocol.{CommittedRoundRecord, running, halted}
use syncons.Cluster.Rounds.{RunResult}
use syncons.Expectations.{
  ScenarioExpectation, Failure, check, relaxed, evaluate_expectation_for_round_budget,
}
use syncons.Expectations.Relaxed.{IsRelaxed, evaluate_expectation_for_round_budget_relaxed}
use syncons.Expectations.Verdicts.{expectation_of, check_iff}

abbrev entry : ℕ → CommittedRoundRecord
entry round = record {
  round = pos round;
  membership_epoch = 0;
  commit_set = 3;
  proposals = (0, "a") ∷ (1, "b") ∷ [];
  commit_time_ns = none;
  app_delivery_time_ns = none;
}

abbrev result : RunResult
result = record {
  node_count = 2;
  rounds = 5;
  simulated_time_ns = 20_000;
  control_plane_events = [];
  nodes =
      record {
        node_id = 0;
        status = running;
        halted_round = none;
        committed_rounds = entry 0 ∷ entry 1 ∷ [];
      }
      ∷ record {
        node_id = 1;
        status = halted;
        halted_round = some 2;
        committed_rounds = entry 0 ∷ [];
      }
      ∷ [];
}

abbrev expected : ScenarioExpectation
expected = record {
  statuses = running ∷ halted ∷ [];
  committed_rounds = (pos 0 ∷ []) ∷ (pos 0 ∷ []) ∷ [];
  halted_rounds = none ∷ some 2 ∷ [];
}

check_iff_example : (check expected result ≡ []) ↔ (expectation_of result ≡ expected)
check_iff_example = check_iff expected result

evaluate_expectation_for_round_budget_relaxed_example :
    (failures : List Failure) × (evaluate_expectation_for_round_budget result expected 5 3
      ≡ some (failures, some relaxed))
    × ((failures ≡ []) ↔ IsRelaxed expected result)
evaluate_expectation_for_round_budget_relaxed_example =
    evaluate_expectation_for_round_budget_relaxed expected result 5 3 (omega arith) refl
