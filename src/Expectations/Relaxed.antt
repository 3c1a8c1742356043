-- ===== src/Expectations/Relaxed.antt =====
-- What a run beyond the reference has to do for its evaluation in sim/runtime/cli.py to be clean,
-- said without the slices and tests of the code.
use syncons.Base.{
  ℕ, ◌<◌, ◌≡◌, refl, sym, ap, subst, ◌∙◌, ◌↔◌, ◌⊎◌, inl, inr, Bool, true, false, ◌&&◌, ◌||◌, Option,
  none, some, List, [], ◌∷◌, ◌++◌, map, arith, Bool-cases, &&_elim, is_none, length, range, ℤ, pos,
  int_eq,
}
use syncons.Protocol.{running}
use syncons.Protocol.Equality.{node_status_eq}
use syncons.Cluster.Rounds.{NodeResult, RunResult}
use syncons.Campaign.{rounds_eq, rounds_of, first_rounds}
use syncons.Campaign.Values.{int_eq_refl, int_eq_sound}
use syncons.Expectations.{
  ScenarioExpectation, Failure, list_eq, halts_eq, actual_statuses, actual_halts, take_as, relaxed,
  evaluate_expectation_for_round_budget,
}
use syncons.Expectations.Equality.{
  list_eq_refl, list_eq_sound, node_status_eq_refl, node_status_eq_sound, rounds_eq_refl,
  rounds_eq_sound, halts_eq_refl, halts_eq_sound,
}
use syncons.Expectations.Verdicts.{
  extends, all_extend, all_relaxed, evaluate_expectation_for_round_budget-all_relaxed,
}

-- The rounds of the node are the expected ones and then others, in all 0, 1, 2, … without a gap;
-- and there are no others if the node has stopped.
pub record Extends (expected : List ℤ) (node : NodeResult) : Type 0 where
  pub begins : (more : List ℤ) × (rounds_of node.committed_rounds ≡ expected ++ more)
  pub without_gap :
      rounds_of node.committed_rounds ≡ map pos (range (length (rounds_of node.committed_rounds)))
  pub stops :
      ((node.status ≡ running) × (node.halted_round ≡ none))
      ⊎ (rounds_of node.committed_rounds ≡ expected)

-- Node by node.
pub data AllExtend : List (List ℤ) → List NodeResult → Type 0 where
  no_more : AllExtend [] []
  one_more :
      {expected : List ℤ} {node : NodeResult} {es : List (List ℤ)} {nodes : List NodeResult}
      → Extends expected node
      → AllExtend es nodes
      → AllExtend (expected ∷ es) (node ∷ nodes)

-- What a run beyond the reference has to do.
pub record IsRelaxed (e : ScenarioExpectation) (result : RunResult) : Type 0 where
  pub statuses : map (λ (n : NodeResult). n.status) result.nodes ≡ e.statuses
  pub halts : map (λ (n : NodeResult). n.halted_round) result.nodes ≡ e.halted_rounds
  pub rounds : AllExtend e.committed_rounds result.nodes

take_as_sound :
    (expected actual : List ℤ)
    → rounds_eq (take_as expected actual) expected ≡ true
    → (more : List ℤ) × (actual ≡ expected ++ more)
take_as_sound [] actual h = (actual, refl)
take_as_sound (e ∷ expected) [] h = absurd (ground arith)
take_as_sound (e ∷ expected) (a ∷ actual) h =
    let (same, rest) = &&_elim (int_eq a e) (rounds_eq (take_as expected actual) expected) h in
    let (more, made) = take_as_sound expected actual rest in
    (more, cc (int_eq_sound a e same, made))

take_as-append :
    (expected more : List ℤ) → rounds_eq (take_as expected (expected ++ more)) expected ≡ true
take_as-append [] more = refl
take_as-append (e ∷ expected) more = rw (int_eq_refl e) (take_as-append expected more)

is_none_sound {ℓ} : {A : Type ℓ} (o : Option A) → is_none o ≡ true → o ≡ none
is_none_sound none h = refl
is_none_sound (some a) h = absurd (ground arith)

or_true : (b : Bool) → (b || true) ≡ true
or_true true = refl
or_true false = refl

extends-Extends :
    (expected : List ℤ) (node : NodeResult) → extends expected node ≡ true → Extends expected node
extends-Extends expected node h =
    let actual = rounds_of node.committed_rounds in
    let (taken, rest) = &&_elim (rounds_eq (take_as expected actual) expected) _ h in
    let (gapless, stop) = &&_elim (rounds_eq actual (first_rounds (length actual))) _ rest in
    record {
      begins = take_as_sound expected actual taken;
      without_gap = rounds_eq_sound actual (first_rounds (length actual)) gapless;
      stops = elim (Bool-cases (node_status_eq node.status running && is_none node.halted_round)) [
        | inl runs ↦
            let (up, unhalted) =
              &&_elim (node_status_eq node.status running) (is_none node.halted_round) runs in
            inl (
              node_status_eq_sound node.status running up,
              is_none_sound node.halted_round unhalted,
            )
        | inr stopped ↦ inr (
            rounds_eq_sound actual expected
              (ap (λ b. b || rounds_eq actual expected) (sym stopped) ∙ stop))
      ];
    }

Extends-extends :
    (expected : List ℤ) (node : NodeResult) → Extends expected node → extends expected node ≡ true
Extends-extends expected node x =
    let actual = rounds_of node.committed_rounds in
    let (more, made) = x.begins in
    let taken : rounds_eq (take_as expected actual) expected ≡ true =
      subst (λ a. rounds_eq (take_as expected a) expected ≡ true) (sym made)
        (take_as-append expected more) in
    let gapless : rounds_eq actual (first_rounds (length actual)) ≡ true =
      subst (λ a. rounds_eq actual a ≡ true) x.without_gap (rounds_eq_refl actual) in
    rw (taken, gapless)
      (elim (x.stops) [
        | inl (up, unhalted) ↦ rw (up, unhalted) refl
        | inr same ↦ rw (ap (λ a. rounds_eq a expected) same ∙ rounds_eq_refl expected) (or_true _)
      ])

all_extend-AllExtend :
    (es : List (List ℤ)) (nodes : List NodeResult) → all_extend es nodes ≡ true → AllExtend es nodes
all_extend-AllExtend [] [] h = no_more
all_extend-AllExtend [] (node ∷ nodes) h = absurd (ground arith)
all_extend-AllExtend (e ∷ es) [] h = absurd (ground arith)
all_extend-AllExtend (e ∷ es) (node ∷ nodes) h =
    let (first, rest) = &&_elim (extends e node) (all_extend es nodes) h in
    one_more (extends-Extends e node first) (all_extend-AllExtend es nodes rest)

AllExtend-all_extend :
    (es : List (List ℤ)) (nodes : List NodeResult) → AllExtend es nodes → all_extend es nodes ≡ true
AllExtend-all_extend [] [] no_more = refl
AllExtend-all_extend [] (node ∷ nodes) x = elim x [ ]
AllExtend-all_extend (e ∷ es) [] x = elim x [ ]
AllExtend-all_extend (e ∷ es) (node ∷ nodes) (one_more first rest) =
    rw (Extends-extends e node first) (AllExtend-all_extend es nodes rest)

all_relaxed_iff :
    (e : ScenarioExpectation) (result : RunResult)
    → (all_relaxed e result ≡ true) ↔ IsRelaxed e result
all_relaxed_iff e result = (
  λ h.
      let (up, rest) = &&_elim (list_eq node_status_eq (actual_statuses result) e.statuses) _ h in
      let (halts, extend) =
        &&_elim (list_eq halts_eq (actual_halts result) e.halted_rounds) _ rest in
      record {
        statuses = list_eq_sound node_status_eq node_status_eq_sound _ _ up;
        halts = list_eq_sound halts_eq halts_eq_sound _ _ halts;
        rounds = all_extend-AllExtend e.committed_rounds result.nodes extend;
      },
  λ (x : IsRelaxed e result).
      rw
        (
          subst (λ s. list_eq node_status_eq (actual_statuses result) s ≡ true) x.statuses
              (list_eq_refl node_status_eq node_status_eq_refl (actual_statuses result)),
          subst (λ s. list_eq halts_eq (actual_halts result) s ≡ true) x.halts
              (list_eq_refl halts_eq halts_eq_refl (actual_halts result)),
        )
        (AllExtend-all_extend e.committed_rounds result.nodes x.rounds),
)

-- With more rounds than the reference, and committed rounds expected of as many nodes as there
-- are, the evaluation returns. It has no failure exactly if all statuses and halted rounds are
-- the expected ones, and the committed rounds of each node are those expected of it and then
-- others, 0, 1, 2, … without a gap, with no others unless the node runs and never halted.
pub evaluate_expectation_for_round_budget_relaxed :
    (e : ScenarioExpectation) (result : RunResult) (run_rounds reference_rounds : ℕ)
    → reference_rounds < run_rounds
    → length e.committed_rounds ≡ length result.nodes
    → (failures : List Failure) × (evaluate_expectation_for_round_budget result e run_rounds
          reference_rounds
        ≡ some (failures, some relaxed))
      × ((failures ≡ []) ↔ IsRelaxed e result)
evaluate_expectation_for_round_budget_relaxed e result run_rounds reference_rounds h k =
    let (failures, made, clean) =
      evaluate_expectation_for_round_budget-all_relaxed e result run_rounds reference_rounds h k in
    let (there, back) = all_relaxed_iff e result in
    (failures, made, (λ none_found. there (clean.0 none_found), λ x. clean.1 (back x)))
