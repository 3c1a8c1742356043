-- ===== src/Scenarios/Gaps.antt =====
-- What sim/runtime/cli.py makes of expectations with a gap, as some of sim/scenarios/builtin.py have.
use mathlib.Core.Option.{some-injective}
use syncons.Protocol.Equality.{node_status_eq}
use syncons.Base.{
  ℕ, suc, ◌<◌, ◌≡◌, ◌∙◌, refl, ap, sym, Bool, true, Option, some, List, [], ◌∷◌, map, arith, all,
  length, ℤ, pos, int_eq, &&_elim, range_from,
}
use syncons.Campaign.{rounds_eq, rounds_of, first_rounds}
use syncons.Campaign.Values.{int_eq_sound}
use syncons.Cluster.Rounds.{NodeResult, RunResult}
use syncons.Expectations.{
  ScenarioExpectation, Failure, Note, relaxed, list_eq, halts_eq, actual_statuses, actual_halts,
  take_as, evaluate_expectation_for_round_budget,
}
use syncons.Expectations.Verdicts.{
  extends, all_extend, evaluate_expectation_for_round_budget-all_relaxed,
}

-- The rounds 0, 1, 2, … without a gap.
abbrev pub is_contiguous : List ℤ → Bool
is_contiguous rounds = rounds_eq rounds (first_rounds (length rounds))

prefix_contiguous :
    (i : ℕ) (expected actual : List ℤ)
    → rounds_eq (take_as expected actual) expected ≡ true
    → rounds_eq actual (map pos (range_from i (length actual))) ≡ true
    → rounds_eq expected (map pos (range_from i (length expected))) ≡ true
prefix_contiguous i [] actual h k = refl
prefix_contiguous i (e ∷ expected) [] h k = absurd (ground arith)
prefix_contiguous i (e ∷ expected) (a ∷ actual) h k =
    let (same, taken) = &&_elim (int_eq a e) (rounds_eq (take_as expected actual) expected) h in
    let (first, rest) =
      &&_elim (int_eq a (pos i)) (rounds_eq actual (map pos (range_from (suc i) (length actual))))
        k in
    rw (ap (λ z. int_eq z (pos i)) (sym (int_eq_sound a e same)) ∙ first)
      (prefix_contiguous (suc i) expected actual taken rest)

extends-contiguous :
    (expected : List ℤ) (node : NodeResult)
    → extends expected node ≡ true
    → is_contiguous expected ≡ true
extends-contiguous expected node h =
    let actual = rounds_of node.committed_rounds in
    let (taken, rest) = &&_elim (rounds_eq (take_as expected actual) expected) _ h in
    prefix_contiguous 0 expected actual taken
      (&&_elim (rounds_eq actual (first_rounds (length actual))) _ rest).0

all_extend-contiguous :
    (expected : List (List ℤ)) (nodes : List NodeResult)
    → all_extend expected nodes ≡ true
    → all is_contiguous expected ≡ true
all_extend-contiguous [] nodes h = refl
all_extend-contiguous (e ∷ expected) [] h = absurd (ground arith)
all_extend-contiguous (e ∷ expected) (node ∷ nodes) h =
    let (first, rest) = &&_elim (extends e node) (all_extend expected nodes) h in
    rw (extends-contiguous e node first) (all_extend-contiguous expected nodes rest)

-- Where an evaluation with more rounds than the reference has no failure, the rounds that the
-- expectation gives for each node have no gap. So an expectation with a gap, such as that of a run
-- through a rejoin, fails under any longer run of as many nodes.
pub evaluate_contiguous :
    (e : ScenarioExpectation) (result : RunResult) (run_rounds reference_rounds : ℕ)
    → reference_rounds < run_rounds
    → length e.committed_rounds ≡ length result.nodes
    → evaluate_expectation_for_round_budget result e run_rounds reference_rounds
      ≡ some ([], some relaxed)
    → all is_contiguous e.committed_rounds ≡ true
evaluate_contiguous e result run_rounds reference_rounds h k clean =
    let (failures, made, described) =
      evaluate_expectation_for_round_budget-all_relaxed e result run_rounds reference_rounds h k in
    let none_found : failures ≡ [] =
      ap (λ (p : List Failure × Option Note). p.0) (some-injective _ _ (sym made ∙ clean)) in
    let met = described.0 none_found in
    all_extend-contiguous e.committed_rounds result.nodes
      (&&_elim (list_eq halts_eq (actual_halts result) e.halted_rounds) _
        (&&_elim (list_eq node_status_eq (actual_statuses result) e.statuses) _ met).1).1
