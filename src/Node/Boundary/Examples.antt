-- ===== src/Node/Boundary/Examples.antt =====
-- Runs of the boundary, and instances of its laws, on the stages of `Samples`.
use syncons.Base.{pos, ◌≡◌, refl, [], ◌∷◌}
use syncons.Bitmap.{has_bit, bitmap_members, is_subset}
use syncons.Protocol.{CommittedRound}
use syncons.Node.{new_node}
use syncons.Node.Samples.{
  tally, node_at, reports, full_stage, partial_stage, full-Reports, partial-Reports, proposal,
  full-Proposes,
}
use syncons.Node.Rows.{
  quorum, observation_rows, row_is_valid, witness_count, agreed_row, matching_members, sound_set,
  commit_set,
}
use syncons.Node.Boundary.{judge_stage, commit_stage, committed_proposals}
use syncons.Node.Boundary.Judged.{Judged, judge_stage-Judged}
use syncons.Node.Boundary.Agreement.{committed_unique}

abbrev round_zero : CommittedRound
round_zero = record {
  round = pos 0;
  membership_epoch = 0;
  commit_set = 7;
  proposals = (0, "cmd") ∷ (1, "cmd") ∷ (2, "cmd") ∷ [];
}

committed_by_0 : (judge_stage tally (node_at 0) full_stage).new_commits ≡ round_zero ∷ []
unfolding judge_stage commit_stage committed_proposals agreed_row sound_set commit_set
    matching_members observation_rows bitmap_members has_bit is_subset row_is_valid witness_count
    quorum new_node
committed_by_0 = refl

committed_by_1 : (judge_stage tally (node_at 1) partial_stage).new_commits ≡ round_zero ∷ []
unfolding judge_stage commit_stage committed_proposals agreed_row sound_set commit_set
    matching_members observation_rows bitmap_members has_bit is_subset row_is_valid witness_count
    quorum new_node
committed_by_1 = refl

judge_stage-Judged_example :
    Judged tally (node_at 2) full_stage (judge_stage tally (node_at 2) full_stage)
judge_stage-Judged_example = judge_stage-Judged tally (node_at 2) full_stage

committed_unique_example : round_zero ≡ round_zero
unfolding new_node
committed_unique_example =
    committed_unique tally (node_at 0) (node_at 1) full_stage partial_stage reports proposal
      round_zero round_zero refl refl refl full-Reports partial-Reports full-Proposes full-Proposes
      committed_by_0 committed_by_1
