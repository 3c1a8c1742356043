-- ===== src/Node/Boundary/Outcomes.antt =====
-- Every way in which `_evaluate_round_boundary` of sim/protocol/node.py can end, and what two
-- nodes that both commit have in common.
use syncons.Base.{
  ℕ, ◌<◌, ◌≡◌, refl, inl, inr, true, false, Option, none, some, arith, lookup_or, has_key,
  is_negative, Bool-cases,
}
use syncons.Bitmap.{has_bit, is_subset}
use syncons.Bitmap.Laws.{is_subset_sound, is_subset_complete}
use syncons.Protocol.{
  RoundStage, HaltReason, no_agreed_row, commit_set_not_valid, no_sound_set,
  local_node_excluded_from_sound_set, sound_set_not_subset_of_previous_set,
}
use syncons.Node.{Node, emit_control_plane_event}
use syncons.Node.Config.Stages.{SameStages}
use syncons.Node.Digest.{Hashing}
use syncons.Node.Rows.{observation_rows, agreed_row, sound_set, commit_set}
use syncons.Node.Rows.Agreement.{
  IsSound, commit_set-agreed_row, commit_set_missing, sound_set-IsSound, sound_set-total,
}
use syncons.Node.Boundary.{
  skip_stage, Judgement, enter_halt_state, halted_node, missing_reason, commit_stage,
  judge_sound_set, judge_sets, judge_stage, evaluate_round_boundary,
}

-- The members of the first bitmap are members of the second.
abbrev pub Within : ℕ → ℕ → Type 0
Within a b = (m : ℕ) → has_bit a m ≡ true → has_bit b m ≡ true

-- What each reason to halt says of the stage. Two of the five never apply.
abbrev pub Explains : Node → RoundStage → HaltReason → Type 0
Explains node stage no_agreed_row = agreed_row node stage ≡ none
Explains node stage commit_set_not_valid =
    (row : ℕ) × (agreed_row node stage ≡ some row)
    × (¬ ((m : ℕ) → has_bit row m ≡ true → m < node.node_count → has_key m stage.proposals ≡ true))
Explains node stage sound_set_not_subset_of_previous_set =
    (sound : ℕ) × (sound_set node stage ≡ some sound) × (¬ Within sound node.current_sound_set)
Explains node stage no_sound_set = ⊥
Explains node stage local_node_excluded_from_sound_set = ⊥

module _ (hashing : Hashing) where
  -- The specification of a judgement: the stage is no stage yet, or it commits its agreed row
  -- under a sound set inside the one before, or the node halts for a reason that holds.
  pub data Outcome (node : Node) (stage : RoundStage) (j : Judgement) : Type 0 where
    skipped : is_negative stage.round_id ≡ true → j ≡ skip_stage node → Outcome node stage j
    commits :
        (row sound : ℕ)
        → is_negative stage.round_id ≡ false
        → commit_set node stage ≡ some row
        → IsSound node stage row sound
        → Within sound node.current_sound_set
        → j ≡ commit_stage hashing node stage row sound
        → Outcome node stage j
    halts :
        (reason : HaltReason)
        → is_negative stage.round_id ≡ false
        → Explains node stage reason
        → j
          ≡ enter_halt_state node stage
              (observation_rows node stage)
              (lookup_or node.node_id 0 stage.rows)
              reason
        → Outcome node stage j

  judge_sound_set-Outcome :
      (node : Node) (stage : RoundStage) (row sound : ℕ)
      → is_negative stage.round_id ≡ false
      → commit_set node stage ≡ some row
      → sound_set node stage ≡ some sound
      → Outcome node stage (judge_sound_set hashing node stage row sound)
  unfolding judge_sound_set
  judge_sound_set-Outcome node stage row sound n c s =
      let is_sound =
        sound_set-IsSound node stage row sound (commit_set-agreed_row node stage row c) s in
      rw (is_sound.local, judge_sound_set)
        (elim (Bool-cases (is_subset sound node.current_sound_set)) [
          | inl e ↦ rw e (
              commits row sound n c is_sound
                (λ m h. is_subset_sound sound node.current_sound_set m e h) refl)
          | inr e ↦ rw e (
              halts sound_set_not_subset_of_previous_set n
                (sound, s, λ w. cc (is_subset_complete sound node.current_sound_set w)) refl)
        ])

  judge_sets-Outcome :
      (node : Node) (stage : RoundStage) (a c s : Option ℕ)
      → is_negative stage.round_id ≡ false
      → agreed_row node stage ≡ a
      → commit_set node stage ≡ c
      → sound_set node stage ≡ s
      → Outcome node stage (judge_sets hashing node stage a c s)
  unfolding judge_sets missing_reason
  judge_sets-Outcome node stage none c s n ea ec es = halts no_agreed_row n ea refl
  judge_sets-Outcome node stage (some a) none s n ea ec es =
      halts commit_set_not_valid n (a, ea, commit_set_missing node stage a ea ec) refl
  judge_sets-Outcome node stage (some a) (some c) none n ea ec es =
      cc ((sound_set-total node stage a ea).1)
  judge_sets-Outcome node stage (some a) (some c) (some s) n ea ec es =
      judge_sound_set-Outcome node stage c s n ec es

  -- The judgement of any stage by any node ends in one of these ways.
  pub judge_stage-Outcome :
      (node : Node) (stage : RoundStage) → Outcome node stage (judge_stage hashing node stage)
  unfolding judge_stage
  judge_stage-Outcome node stage = elim (Bool-cases (is_negative stage.round_id)) [
    | inl e ↦ rw e (skipped e refl)
    | inr e ↦ rw e (
        judge_sets-Outcome node stage (agreed_row node stage) (commit_set node stage)
          (sound_set node stage) e refl refl refl)
  ]

  -- A judgement leaves the identity and the stages of the node alone.
  pub Outcome-SameStages :
      {node : Node} {stage : RoundStage} (j : Judgement)
      → Outcome node stage j
      → SameStages node j.node
  unfolding skip_stage commit_stage enter_halt_state halted_node emit_control_plane_event
  Outcome-SameStages j (skipped n made) = rw made (ground arith)
  Outcome-SameStages j (commits row sound n cs is_sound within made) = rw made (ground arith)
  Outcome-SameStages j (halts reason n why made) = rw made (ground arith)

  -- What holds of a judgement holds of the method, given the stage.
  pub evaluate-Outcome :
      (node : Node) (stage : RoundStage)
      → Outcome node stage (evaluate_round_boundary hashing node (some stage))
  unfolding evaluate_round_boundary
  evaluate-Outcome node stage = judge_stage-Outcome node stage
