-- ===== src/Node/Boundary.antt =====
-- The judgement of a stage at a round boundary: `_evaluate_round_boundary` of
-- sim/protocol/node.py, with the halt state that it enters.
pub mod Outcomes
pub mod Judged
pub mod Agreement
mod Examples
use syncons.Base.{
  ℕ, ℤ, pos, negsuc, ◌^◌, bit_and, Bool, true, false, not, Option, none, some, List, [], ◌∷◌, Dict,
  String, if◌then◌else◌, lookup_or, tabulate, leb, ltb, lookup, is_none, is_negative, ◌||◌,
}
use syncons.Bitmap.{has_bit, is_subset, bitmap_members}
use syncons.Protocol.{
  RoundStage, CommittedRound, HaltRecord, HaltReason, no_agreed_row, commit_set_not_valid,
  no_sound_set, local_node_excluded_from_sound_set, sound_set_not_subset_of_previous_set,
  StatusReason, halt, NodeStatus, halted, Event, node_halted,
}
use syncons.Protocol.Records.{digest_projection}
use syncons.Node.{Node, emit_control_plane_event}
use syncons.Node.Rows.{quorum, observation_rows, agreed_row, sound_set, commit_set}
use syncons.Node.Digest.{Hashing, extend_log_digest}

-- `_committed_frontier`: `none` below zero.
pub committed_frontier : Node → Option ℤ
committed_frontier node =
    if is_negative node.committed_frontier then none else some node.committed_frontier

-- `dict(sorted(rows.items()))` by insertion.
pub sort_insert : ℕ × ℕ → Dict ℕ → Dict ℕ
sort_insert e [] = e ∷ []
sort_insert e (f ∷ d) = if leb e.0 f.0 then e ∷ f ∷ d else f ∷ sort_insert e d

pub sorted_items : Dict ℕ → Dict ℕ
sorted_items [] = []
sorted_items (e ∷ d) = sort_insert e (sorted_items d)

unfoldable pub build_halt_record : Node → RoundStage → Dict ℕ → ℕ → HaltReason → HaltRecord
build_halt_record node stage rows local_row halt_reason = record {
  failed_round = stage.round_id;
  membership_epoch = stage.membership_epoch;
  installed_membership_epoch = stage.membership_epoch;
  run_id = node.run_id;
  installed_membership = stage.installed_membership;
  quorum = quorum node;
  observation_rows = sorted_items rows;
  self_row = local_row;
  committed_frontier = committed_frontier node;
  sound_set_lineage = node.last_committed_sound_set;
  log_digest = node.commit_digest;
  halt_reason = halt_reason;
}

-- The strings of the first component.
pub data Decision : Type 0 where
  skip continue halt_decision : Decision

pub record Judgement : Type 0 where
  pub decision : Decision
  pub sound_set : Option ℕ
  pub new_commits : List CommittedRound
  pub node : Node

-- The result for a stage that is none yet.
unfoldable pub skip_stage : Node → Judgement
skip_stage node = record { decision = skip; sound_set = none; new_commits = []; node = node }

-- The node after `_enter_halt_state`.
unfoldable pub halted_node : Node → RoundStage → Dict ℕ → ℕ → HaltReason → Node
unfolding build_halt_record emit_control_plane_event
halted_node node stage rows local_row halt_reason =
    let details = build_halt_record node stage rows local_row halt_reason in
    emit_control_plane_event (node_halted node.node_id details) (record node {
      status = halted;
      halted_round = some node.current_round;
      status_reason = some (halt halt_reason);
      halt_details = some details;
    })

unfoldable pub enter_halt_state : Node → RoundStage → Dict ℕ → ℕ → HaltReason → Judgement
enter_halt_state node stage rows local_row halt_reason = record {
  decision = halt_decision;
  sound_set = none;
  new_commits = [];
  node = halted_node node stage rows local_row halt_reason;
}

-- `stage.proposals[member]`; `_commit_set` has seen that every member has one, so there is no
-- KeyError.
pub committed_proposals : Node → RoundStage → ℕ → Dict String
committed_proposals node stage commit_set =
    tabulate (λ member. lookup_or member "" stage.proposals)
      (bitmap_members commit_set node.node_count)

unfoldable pub committed_round : Node → RoundStage → ℕ → CommittedRound
committed_round node stage commit_set = record {
  round = stage.round_id;
  membership_epoch = stage.membership_epoch;
  commit_set = commit_set;
  proposals = committed_proposals node stage commit_set;
}

-- The reason of the first guard.
pub missing_reason : Option ℕ → Option ℕ → HaltReason
missing_reason agreed commits =
    if is_none agreed
    then no_agreed_row
    else if is_none commits
    then commit_set_not_valid
    else no_sound_set

module _ (hashing : Hashing) where
  -- The state and the result of a boundary that commits.
  unfoldable pub commit_stage : Node → RoundStage → ℕ → ℕ → Judgement
  unfolding committed_round extend_log_digest
  commit_stage node stage commit_set sound_set =
      let committed = committed_round node stage commit_set in
      record {
        decision = continue;
        sound_set = some sound_set;
        new_commits = committed ∷ [];
        node = record node {
          committed_frontier = committed.round;
          last_committed_sound_set = some sound_set;
          commit_digest =
              extend_log_digest hashing node.commit_digest (digest_projection committed);
        };
      }

  -- The guards on the sound set, once there are a commit set and a sound set.
  pub judge_sound_set : Node → RoundStage → ℕ → ℕ → Judgement
  judge_sound_set node stage commit_set sound_set =
      let rows = observation_rows node stage in
      let local_row = lookup_or node.node_id 0 stage.rows in
      if not (has_bit sound_set node.node_id)
      then enter_halt_state node stage rows local_row local_node_excluded_from_sound_set
      else if not (is_subset sound_set node.current_sound_set)
      then enter_halt_state node stage rows local_row sound_set_not_subset_of_previous_set
      else commit_stage node stage commit_set sound_set

  -- From the three sets that the method computes first.
  pub judge_sets : Node → RoundStage → Option ℕ → Option ℕ → Option ℕ → Judgement
  unfolding judge_sound_set
  judge_sets node stage (some agreed) (some commits) (some sound) =
      judge_sound_set node stage commits sound
  judge_sets node stage agreed commits sound =
      enter_halt_state node stage (observation_rows node stage)
        (lookup_or node.node_id 0 stage.rows) (missing_reason agreed commits)

  pub judge_stage : Node → RoundStage → Judgement
  unfolding skip_stage judge_sets
  judge_stage node stage =
      if is_negative stage.round_id
      then skip_stage node
      else judge_sets node stage (agreed_row node stage) (commit_set node stage)
          (sound_set node stage)

  -- Without a stage the method judges `commit_stage`.
  unfoldable pub evaluate_round_boundary : Node → Option RoundStage → Judgement
  unfolding judge_stage
  evaluate_round_boundary node none = judge_stage node node.commit_stage
  evaluate_round_boundary node (some stage) = judge_stage node stage
