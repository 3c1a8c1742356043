-- ===== src/Scenarios/Examples.antt =====
-- An expectation without a gap, and a longer run that meets it; and tests on the built-in
-- scenarios.
use syncons.Base.{ℕ, ◌≡◌, refl, true, false, none, some, [], ◌∷◌, arith, all, pos}
use syncons.Protocol.{CommittedRoundRecord, running}
use syncons.Cluster.Rounds.{RunResult}
use syncons.Expectations.{ScenarioExpectation, relaxed, evaluate_expectation_for_round_budget}
use syncons.Scenarios.{asymmetric_loss, controlled_rejoin, online_rejoin, perfect, groups_cover}
use syncons.Scenarios.Gaps.{is_contiguous, evaluate_contiguous}

abbrev entry : ℕ → CommittedRoundRecord
entry round = record {
  round = pos round;
  membership_epoch = 0;
  commit_set = 1;
  proposals = (0, "a") ∷ [];
  commit_time_ns = none;
  app_delivery_time_ns = none;
}

abbrev result : RunResult
result = record {
  node_count = 1;
  rounds = 5;
  simulated_time_ns = 20_000;
  control_plane_events = [];
  nodes =
      record {
        node_id = 0;
        status = running;
        halted_round = none;
        committed_rounds = entry 0 ∷ entry 1 ∷ [];
      }
      ∷ [];
}

abbrev expected : ScenarioExpectation
expected = record {
  statuses = running ∷ [];
  committed_rounds = (pos 0 ∷ []) ∷ [];
  halted_rounds = none ∷ [];
}

longer_run_meets :
    evaluate_expectation_for_round_budget result expected 5 3 ≡ some ([], some relaxed)
unfolding evaluate_expectation_for_round_budget
longer_run_meets = refl

evaluate_contiguous_example : all is_contiguous expected.committed_rounds ≡ true
evaluate_contiguous_example =
    evaluate_contiguous expected result 5 3 (omega arith) refl longer_run_meets

groups_cover_all : groups_cover ≡ true
groups_cover_all = refl

perfect_contiguous : all is_contiguous perfect.expectation.committed_rounds ≡ true
perfect_contiguous = refl

asymmetric_loss_gap : all is_contiguous asymmetric_loss.expectation.committed_rounds ≡ false
asymmetric_loss_gap = refl

controlled_rejoin_gap : all is_contiguous controlled_rejoin.expectation.committed_rounds ≡ false
controlled_rejoin_gap = refl

online_rejoin_gap : all is_contiguous online_rejoin.expectation.committed_rounds ≡ false
online_rejoin_gap = refl
