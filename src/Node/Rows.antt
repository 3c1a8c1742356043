-- ===== src/Node/Rows.antt =====
-- The rules of sim/protocol/node.py that read a stage's rows: quorum, agreed row, sound set and
-- commit set.
pub mod Witnesses
pub mod Agreement
mod Examples
use syncons.Base.{
  ℕ, ◌+◌, ◌/◌, ◌^◌, max, bit_or, Bool, true, false, not, Option, none, some, List, [], ◌∷◌, Dict,
  ltb, ◌==◌, if◌then◌else◌, all, any, count, lookup, lookup_or, has_key, tabulate,
}
use syncons.Bitmap.{has_bit, bitmap_members}
use syncons.Protocol.{RoundStage}
use syncons.Node.{Node}

-- The quorum is counted over the physical cluster, whatever the installed membership.
unfoldable pub quorum : Node → ℕ
quorum node = max 1 (node.node_count / 2 + 1)

unfoldable pub observation_rows : Node → RoundStage → Dict ℕ
observation_rows node stage =
    tabulate (λ member. lookup_or member 0 stage.rows)
      (bitmap_members stage.installed_membership node.node_count)

unfoldable pub row_is_valid : ℕ → ℕ → Bool
row_is_valid src row = if row == 0 then true else has_bit row src

-- `rows[member] == row`; the keys of `rows` are the members, so there is no KeyError.
abbrev pub has_row : Dict ℕ → ℕ → ℕ → Bool
has_row rows row member = elim (lookup member rows) [ none ↦ false | some r ↦ r == row ]

unfoldable pub witness_count : Node → RoundStage → ℕ → ℕ
witness_count node stage row =
    count (has_row (observation_rows node stage) row)
      (bitmap_members stage.installed_membership node.node_count)

unfoldable pub agreed_row : Node → RoundStage → Option ℕ
agreed_row node stage =
    let rows = observation_rows node stage in
    let local_row = lookup_or node.node_id 0 rows in
    if not (all (λ (e : ℕ × ℕ). row_is_valid e.0 e.1) rows)
    then none
    else if local_row == 0
    then none
    else if ltb (witness_count node stage local_row) (quorum node)
    then none
    else some local_row

-- The loop of `_sound_set`, from the bitmap collected so far.
unfoldable pub matching_members : ℕ → ℕ → Dict ℕ → ℕ
matching_members agreed core [] = core
matching_members agreed core (e ∷ rows) =
    matching_members agreed (if e.1 == agreed then bit_or core (2 ^ e.0) else core) rows

unfoldable pub sound_set : Node → RoundStage → Option ℕ
sound_set node stage = elim (agreed_row node stage) [
  | none ↦ none
  | some agreed ↦ some (matching_members agreed 0 (observation_rows node stage))
]

unfoldable pub commit_set : Node → RoundStage → Option ℕ
commit_set node stage = elim (agreed_row node stage) [
  | none ↦ none
  | some agreed ↦
      if any (λ member. not (has_key member stage.proposals))
        (bitmap_members agreed node.node_count)
      then none
      else some agreed
]
