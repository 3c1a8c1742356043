-- ===== src/Node/Rows/Examples.antt =====
-- Runs of the rules on rows, and instances of their laws: three nodes, where node 2 has missed
-- node 1 in round zero.
use syncons.Base.{◌≡◌, refl, some, none}
use syncons.Bitmap.{has_bit, bitmap_members}
use syncons.Node.{new_node}
use syncons.Node.Samples.{
  node_at, reports, full_stage, partial_stage, full-Reports, partial-Reports,
}
use syncons.Node.Rows.{
  quorum, observation_rows, row_is_valid, witness_count, agreed_row, matching_members, sound_set,
}
use syncons.Node.Rows.Agreement.{IsSound, agreed_row_unique, sound_set-IsSound}

agreed_full : agreed_row (node_at 0) full_stage ≡ some 7
unfolding agreed_row observation_rows bitmap_members has_bit row_is_valid witness_count quorum
    new_node
agreed_full = refl

agreed_partial : agreed_row (node_at 1) partial_stage ≡ some 7
unfolding agreed_row observation_rows bitmap_members has_bit row_is_valid witness_count quorum
    new_node
agreed_partial = refl

-- Node 2, who missed node 1, is alone with its row.
agreed_lonely : agreed_row (node_at 2) full_stage ≡ none
unfolding agreed_row observation_rows bitmap_members has_bit row_is_valid witness_count quorum
    new_node
agreed_lonely = refl

sound_full : sound_set (node_at 0) full_stage ≡ some 3
unfolding sound_set matching_members agreed_row observation_rows bitmap_members has_bit row_is_valid
    witness_count quorum new_node
sound_full = refl

agreed_row_unique_example : full_stage.row ≡ partial_stage.row
unfolding new_node
agreed_row_unique_example =
    agreed_row_unique (node_at 0) (node_at 1) full_stage partial_stage reports 7 7 refl full-Reports
      partial-Reports agreed_full agreed_partial

sound_set-IsSound_example : IsSound (node_at 0) full_stage 7 3
sound_set-IsSound_example = sound_set-IsSound (node_at 0) full_stage 7 3 agreed_full sound_full
