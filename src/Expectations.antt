-- ===== src/Expectations.antt =====
-- ScenarioExpectation of sim/protocol/types.py, and how sim/runtime/cli.py evaluates it. The
-- messages of the failures are kept as their contents; statuses are constructors, so that a
-- misspelt one cannot be expected.
pub mod Reports
pub mod Equality
pub mod Verdicts
pub mod Relaxed
mod Examples
use syncons.Base.{
  ℕ, zero, suc, ◌+◌, Bool, true, false, not, ◌&&◌, ◌||◌, Option, none, some, List, [], ◌∷◌, ◌++◌,
  map, ℤ, int_eq, if◌then◌else◌, ltb, ◌==◌, length, is_some, option_eq,
}
use syncons.Protocol.{NodeStatus, running, NetworkFaultModel, NodeFaultModel}
use syncons.Protocol.Equality.{node_status_eq}
use syncons.Control.{◌>>=◌}
use syncons.Cluster.Rounds.{NodeResult, RunResult}
use syncons.Campaign.{rounds_eq, rounds_of, first_rounds}

pub record ScenarioExpectation : Type 0 where
  pub statuses : List NodeStatus
  pub committed_rounds : List (List ℤ)
  pub halted_rounds : List (Option ℕ)

-- Without the description, which is printed only.
pub record ScenarioSpec : Type 0 where
  pub network_fault_model : NetworkFaultModel
  pub node_fault_model : NodeFaultModel
  pub rounds : ℕ
  pub expectation : ScenarioExpectation

-- The messages, those of `check` first.
pub data Failure : Type 0 where
  status_mismatch : List NodeStatus → List NodeStatus → Failure
  commit_mismatch : List (List ℤ) → List (List ℤ) → Failure
  halted_round_mismatch : List (Option ℕ) → List (Option ℕ) → Failure
  commit_prefix_mismatch : ℕ → List ℤ → List ℤ → Failure
  non_contiguous : ℕ → List ℤ → Failure
  unexpected_extra_commits : ℕ → List ℤ → List ℤ → Failure

-- `==` of tuples.
abbrev pub list_eq {ℓ} : {A : Type ℓ} → (A → A → Bool) → List A → List A → Bool
list_eq eq [] [] = true
list_eq eq (a ∷ as') (b ∷ bs) = eq a b && list_eq eq as' bs
list_eq eq _ _ = false

abbrev pub halts_eq : Option ℕ → Option ℕ → Bool
halts_eq a b = option_eq ◌==◌ a b

abbrev pub actual_statuses : RunResult → List NodeStatus
actual_statuses result = map (λ node. node.status) result.nodes

abbrev pub actual_commits : RunResult → List (List ℤ)
actual_commits result = map (λ node. rounds_of node.committed_rounds) result.nodes

abbrev pub actual_halts : RunResult → List (Option ℕ)
actual_halts result = map (λ node. node.halted_round) result.nodes

-- `failures.append(failure)` unless the test holds.
abbrev pub unless : Bool → Failure → List Failure → List Failure
unless test failure failures = if not test then failures ++ failure ∷ [] else failures

abbrev pub check_statuses : ScenarioExpectation → RunResult → List Failure → List Failure
check_statuses expectation result =
    unless (list_eq node_status_eq (actual_statuses result) expectation.statuses)
      (status_mismatch expectation.statuses (actual_statuses result))

abbrev pub check_commits : ScenarioExpectation → RunResult → List Failure → List Failure
check_commits expectation result =
    unless (list_eq rounds_eq (actual_commits result) expectation.committed_rounds)
      (commit_mismatch expectation.committed_rounds (actual_commits result))

abbrev pub check_halts : ScenarioExpectation → RunResult → List Failure → List Failure
check_halts expectation result =
    unless (list_eq halts_eq (actual_halts result) expectation.halted_rounds)
      (halted_round_mismatch expectation.halted_rounds (actual_halts result))

-- `ScenarioExpectation.check`
unfoldable pub check : ScenarioExpectation → RunResult → List Failure
check expectation result =
    check_halts expectation result
      (check_commits expectation result (check_statuses expectation result []))

-- `actual[: len(expected)]`
abbrev pub take_as : List ℤ → List ℤ → List ℤ
take_as [] actual = []
take_as (e ∷ expected) [] = []
take_as (e ∷ expected) (a ∷ actual) = a ∷ take_as expected actual

-- The body of the last loop.
unfoldable pub check_node :
    ℕ → List ℤ → List ℤ → NodeStatus → Option ℕ → List Failure → List Failure
check_node node_id expected actual status halted_round failures =
    if not (rounds_eq (take_as expected actual) expected)
    then failures ++ commit_prefix_mismatch node_id expected actual ∷ []
    else if not (rounds_eq actual (first_rounds (length actual)))
    then failures ++ non_contiguous node_id actual ∷ []
    else if not (node_status_eq status running) || is_some halted_round
    then unless (rounds_eq actual expected) (unexpected_extra_commits node_id expected actual)
        failures
    else failures

-- The loop over `zip(…, strict=True)`: `none` is the ValueError of lists that differ in length.
unfoldable pub check_each :
    ℕ
    → List (List ℤ)
    → List (List ℤ)
    → List NodeStatus
    → List (Option ℕ)
    → List Failure
    → Option (List Failure)
unfolding check_node
check_each node_id [] [] [] [] failures = some failures
check_each node_id (e ∷ expected) (a ∷ actual) (s ∷ statuses) (h ∷ halts) failures =
    check_each (suc node_id) expected actual statuses halts (check_node node_id e a s h failures)
check_each node_id _ _ _ _ failures = none

-- The second component of the result.
pub data Note : Type 0 where
  skipped : Note
  relaxed : Note

-- What follows the two early returns.
unfoldable pub evaluate_longer :
    RunResult → ScenarioExpectation → Option (List Failure × Option Note)
unfolding check_each
evaluate_longer result expectation = do
  failures ←
      check_each 0 expectation.committed_rounds (actual_commits result) (actual_statuses result)
        (actual_halts result)
        (check_halts expectation result (check_statuses expectation result []))
  some (failures, some relaxed)

unfoldable pub evaluate_expectation_for_round_budget :
    RunResult → ScenarioExpectation → ℕ → ℕ → Option (List Failure × Option Note)
unfolding evaluate_longer check
evaluate_expectation_for_round_budget result expectation run_rounds reference_rounds =
    if run_rounds == reference_rounds
    then some (check expectation result, none)
    else if ltb run_rounds reference_rounds
    then some ([], some skipped)
    else evaluate_longer result expectation
