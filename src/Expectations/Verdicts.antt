-- ===== src/Expectations/Verdicts.antt =====
-- When an evaluation of an expectation in sim/runtime/cli.py has no failure, and when it raises.
use syncons.Base.{
  ℕ, suc, ◌<◌, ◌≡◌, ◌≢◌, ◌↔◌, ◌∙◌, refl, ap, sym, subst, Bool, true, false, ◌&&◌, ◌||◌, Option,
  none, some, List, [], ◌∷◌, ◌++◌, map, arith, ◌==◌, &&_elim, length, ℤ, is_none,
}
use syncons.Protocol.{running}
use syncons.Protocol.Equality.{node_status_eq}
use syncons.Cluster.Rounds.{NodeResult, RunResult}
use syncons.Campaign.{rounds_eq, rounds_of, first_rounds}
use syncons.Expectations.{
  ScenarioExpectation, Failure, commit_prefix_mismatch, non_contiguous, unexpected_extra_commits,
  list_eq, halts_eq, actual_statuses, actual_commits, actual_halts, unless, check_statuses,
  check_commits, check_halts, check, take_as, check_node, check_each, relaxed, evaluate_longer,
  evaluate_expectation_for_round_budget,
}
use syncons.Expectations.Equality.{
  list_eq_refl, list_eq_sound, node_status_eq_refl, node_status_eq_sound, rounds_eq_refl,
  rounds_eq_sound, halts_eq_refl, halts_eq_sound,
}

abbrev is_empty : List Failure → Bool
is_empty failures = length failures == 0

empty_iff : (failures : List Failure) → (failures ≡ []) ↔ (is_empty failures ≡ true)
empty_iff [] = (λ e. refl, λ h. refl)
empty_iff (f ∷ failures) =
    (λ e. ap (λ (fs : List Failure). length fs == 0) e, λ h. absurd (ground arith))

is_empty-snoc : (failures : List Failure) (f : Failure) → is_empty (failures ++ f ∷ []) ≡ false
is_empty-snoc [] f = refl
is_empty-snoc (g ∷ failures) f = ground arith

is_empty-unless :
    (test : Bool) (f : Failure) (failures : List Failure)
    → is_empty (unless test f failures) ≡ (is_empty failures && test)
is_empty-unless true f failures = ground arith
is_empty-unless false f failures = is_empty-snoc failures f ∙ ground arith

-- What a run did, as an expectation.
abbrev pub expectation_of : RunResult → ScenarioExpectation
expectation_of result = record {
  statuses = actual_statuses result;
  committed_rounds = actual_commits result;
  halted_rounds = actual_halts result;
}

all_equal : ScenarioExpectation → RunResult → Bool
all_equal e result =
    list_eq node_status_eq (actual_statuses result) e.statuses
    && (list_eq rounds_eq (actual_commits result) e.committed_rounds
        && list_eq halts_eq (actual_halts result) e.halted_rounds)

is_empty-check :
    (e : ScenarioExpectation) (result : RunResult) → is_empty (check e result) ≡ all_equal e result
unfolding check all_equal
is_empty-check e result = ground (
  arith,
  is_empty-unless _ _ (check_commits e result (check_statuses e result [])),
  is_empty-unless _ _ (check_statuses e result []),
  is_empty-unless _ _ [],
)

-- A check has no failure exactly if the expectation is what the run did: the statuses, the
-- committed rounds and the halted rounds of all nodes.
pub check_iff :
    (e : ScenarioExpectation) (result : RunResult)
    → (check e result ≡ []) ↔ (expectation_of result ≡ e)
unfolding all_equal
check_iff e result = (
  λ h.
      let (same_statuses, rest) =
        &&_elim (list_eq node_status_eq (actual_statuses result) e.statuses) _
          (sym (is_empty-check e result) ∙ (empty_iff (check e result)).0 h) in
      let (same_rounds, same_halts) =
        &&_elim (list_eq rounds_eq (actual_commits result) e.committed_rounds) _ rest in
      cc (
        list_eq_sound node_status_eq node_status_eq_sound (actual_statuses result) e.statuses
            same_statuses,
        list_eq_sound rounds_eq rounds_eq_sound (actual_commits result) e.committed_rounds
            same_rounds,
        list_eq_sound halts_eq halts_eq_sound (actual_halts result) e.halted_rounds same_halts,
      ),
  λ h.
      subst (λ f. check f result ≡ []) h
        ((empty_iff (check (expectation_of result) result)).1 (
          is_empty-check (expectation_of result) result
          ∙ rw
              (
                list_eq_refl node_status_eq node_status_eq_refl (actual_statuses result),
                list_eq_refl rounds_eq rounds_eq_refl (actual_commits result),
                list_eq_refl halts_eq halts_eq_refl (actual_halts result),
              )
              refl)),
)

-- The rounds that a node has committed extend the expected ones without a gap from zero on, and do
-- so by nothing if the node has stopped.
abbrev pub extends : List ℤ → NodeResult → Bool
extends expected node =
    let actual = rounds_of node.committed_rounds in
    rounds_eq (take_as expected actual) expected
    && (rounds_eq actual (first_rounds (length actual))
        && ((node_status_eq node.status running && is_none node.halted_round)
            || rounds_eq actual expected))

abbrev pub all_extend : List (List ℤ) → List NodeResult → Bool
all_extend [] [] = true
all_extend (expected ∷ es) (node ∷ nodes) = extends expected node && all_extend es nodes
all_extend _ _ = false

is_empty-check_node :
    (i : ℕ) (expected : List ℤ) (node : NodeResult) (failures : List Failure)
    → is_empty (
        check_node i expected
          (rounds_of node.committed_rounds)
          node.status
          node.halted_round
          failures)
      ≡ (is_empty failures && extends expected node)
unfolding check_node
is_empty-check_node i expected node failures =
    let actual = rounds_of node.committed_rounds in
    ground (
      arith,
      is_empty-snoc failures (commit_prefix_mismatch i expected actual),
      is_empty-snoc failures (non_contiguous i actual),
      is_empty-unless (rounds_eq actual expected) (unexpected_extra_commits i expected actual)
          failures,
    )

abbrev check_all : ℕ → List (List ℤ) → List NodeResult → List Failure → Option (List Failure)
check_all i expected nodes failures =
    check_each i expected (map (λ node. rounds_of node.committed_rounds) nodes)
      (map (λ node. node.status) nodes) (map (λ node. node.halted_round) nodes) failures

check_all_returns :
    (i : ℕ) (expected : List (List ℤ)) (nodes : List NodeResult) (failures : List Failure)
    → length expected ≡ length nodes
    → (found : List Failure) × (check_all i expected nodes failures ≡ some found)
      × (is_empty found ≡ (is_empty failures && all_extend expected nodes))
unfolding check_each
check_all_returns i [] [] failures h = (failures, refl, ground arith)
check_all_returns i [] (node ∷ nodes) failures h = absurd (omega (arith, h))
check_all_returns i (e ∷ expected) [] failures h = absurd (omega (arith, h))
check_all_returns i (e ∷ expected) (node ∷ nodes) failures h =
    let next =
      check_node i e (rounds_of node.committed_rounds) node.status node.halted_round failures in
    let (found, made, clean) = check_all_returns (suc i) expected nodes next (omega (arith, h)) in
    (found, made, clean ∙ rw (is_empty-check_node i e node failures) (ground arith))

check_all_raises :
    (i : ℕ) (expected : List (List ℤ)) (nodes : List NodeResult) (failures : List Failure)
    → length expected ≢ length nodes
    → check_all i expected nodes failures ≡ none
unfolding check_each
check_all_raises i [] [] failures h = absurd (h refl)
check_all_raises i [] (node ∷ nodes) failures h = refl
check_all_raises i (e ∷ expected) [] failures h = refl
check_all_raises i (e ∷ expected) (node ∷ nodes) failures h =
    check_all_raises (suc i) expected nodes _ (λ k. h (ap suc k))

-- What a run beyond the reference has to do for its evaluation to be clean.
abbrev pub all_relaxed : ScenarioExpectation → RunResult → Bool
all_relaxed e result =
    list_eq node_status_eq (actual_statuses result) e.statuses
    && (list_eq halts_eq (actual_halts result) e.halted_rounds
        && all_extend e.committed_rounds result.nodes)

module _ (e : ScenarioExpectation) (result : RunResult) (run_rounds reference_rounds : ℕ) where
  longer :
      reference_rounds < run_rounds
      → evaluate_expectation_for_round_budget result e run_rounds reference_rounds
        ≡ evaluate_longer result e
  unfolding evaluate_expectation_for_round_budget
  longer h = ground arith

  -- With more rounds than the reference, and committed rounds expected of as many nodes as there
  -- are, the evaluation returns, and has no failure exactly if the tests hold of all nodes.
  pub evaluate_expectation_for_round_budget-all_relaxed :
      reference_rounds < run_rounds
      → length e.committed_rounds ≡ length result.nodes
      → (failures : List Failure) × (evaluate_expectation_for_round_budget result e run_rounds
            reference_rounds
          ≡ some (failures, some relaxed))
        × ((failures ≡ []) ↔ (all_relaxed e result ≡ true))
  unfolding evaluate_longer
  evaluate_expectation_for_round_budget-all_relaxed h k =
      let before = check_halts e result (check_statuses e result []) in
      let (found, made, clean) = check_all_returns 0 e.committed_rounds result.nodes before k in
      let described : is_empty found ≡ all_relaxed e result =
        clean
        ∙ ground
            (arith, is_empty-unless _ _ (check_statuses e result []), is_empty-unless _ _ []) in
      (
        found,
        longer h ∙ rw (made, evaluate_longer) refl,
        (
          λ none_found. sym described ∙ (empty_iff found).0 none_found,
          λ holds. (empty_iff found).1 (described ∙ holds),
        ),
      )

  -- With more rounds than the reference, and committed rounds expected of more or fewer nodes than
  -- there are, the evaluation raises the ValueError of `zip`.
  pub evaluate_expectation_for_round_budget_raises :
      reference_rounds < run_rounds
      → length e.committed_rounds ≢ length result.nodes
      → evaluate_expectation_for_round_budget result e run_rounds reference_rounds ≡ none
  unfolding evaluate_longer
  evaluate_expectation_for_round_budget_raises h k =
      longer h
      ∙ rw
          (
            check_all_raises 0 e.committed_rounds result.nodes
                (check_halts e result (check_statuses e result [])) k,
            evaluate_longer,
          )
          refl
