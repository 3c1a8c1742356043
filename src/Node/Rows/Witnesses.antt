-- ===== src/Node/Rows/Witnesses.antt =====
-- What an agreed row rests on: valid rows, a local row, and a quorum of witnesses.
use syncons.Base.{
  ℕ, ◌≤◌, ◌^◌, bit_or, ◌≡◌, ◌≢◌, ap, Bool, true, ◌&&◌, ◌||◌, none, some, List, [], ◌∷◌, Dict, arith,
  ltb, ◌==◌, if◌then◌else◌, all, any, count, lookup, lookup_or, tabulate, elem, range,
  lookup-tabulate, count-filter,
}
use syncons.Bitmap.{has_bit, bitmap_members}
use syncons.Bitmap.Laws.{has_bit-or, has_bit-two_pow, has_bit-zero}
use syncons.Bitmap.Sets.{elem-bitmap_members}
use syncons.Protocol.{RoundStage}
use syncons.Node.{Node}
use syncons.Node.Rows.{
  quorum, observation_rows, row_is_valid, has_row, witness_count, agreed_row, matching_members,
  sound_set,
}

-- The row that a stage holds for a member, zero if none has come.
abbrev pub row_of : RoundStage → ℕ → ℕ
row_of stage member = lookup_or member 0 stage.rows

-- A member that the matrix of the stage has a row for.
abbrev pub observed : Node → RoundStage → ℕ → Bool
observed node stage member = has_bit stage.installed_membership member && ltb member node.node_count

pub lookup-observation_rows :
    (node : Node) (stage : RoundStage) (m : ℕ)
    → lookup m (observation_rows node stage)
      ≡ (if observed node stage m then some (row_of stage m) else none)
unfolding observation_rows
lookup-observation_rows node stage m = ground (
  arith,
  lookup-tabulate m (row_of stage) (bitmap_members stage.installed_membership node.node_count),
  elem-bitmap_members stage.installed_membership node.node_count m,
)

pub record IsAgreed (node : Node) (stage : RoundStage) (row : ℕ) : Type 0 where
  pub valid : all (λ (e : ℕ × ℕ). row_is_valid e.0 e.1) (observation_rows node stage) ≡ true
  pub local_row : lookup_or node.node_id 0 (observation_rows node stage) ≡ row
  pub nonzero : row ≢ 0
  pub witnessed : quorum node ≤ witness_count node stage row

-- `_agreed_row` returns a row exactly when the rule holds of it.
pub agreed_row-IsAgreed :
    (node : Node) (stage : RoundStage) (row : ℕ)
    → agreed_row node stage ≡ some row
    → IsAgreed node stage row
unfolding agreed_row
agreed_row-IsAgreed node stage row e = record {
  valid = ground arith;
  local_row = ground arith;
  nonzero = ground arith;
  witnessed = ground arith;
}

pub IsAgreed-agreed_row :
    (node : Node) (stage : RoundStage) (row : ℕ)
    → IsAgreed node stage row
    → agreed_row node stage ≡ some row
unfolding agreed_row
IsAgreed-agreed_row node stage row a = ground (arith, a.nonzero)

-- The local node is a member, and its own row is the agreed one.
pub IsAgreed-local :
    (node : Node) (stage : RoundStage) (row : ℕ)
    → IsAgreed node stage row
    → (observed node stage node.node_id ≡ true) × (row_of stage node.node_id ≡ row)
IsAgreed-local node stage row a =
    ground (arith, a.local_row, a.nonzero, lookup-observation_rows node stage node.node_id)

pub has_row-observed :
    (node : Node) (stage : RoundStage) (row m : ℕ)
    → has_row (observation_rows node stage) row m ≡ (observed node stage m && row_of stage m == row)
has_row-observed node stage row m = ground (arith, lookup-observation_rows node stage m)

-- The members that vote for a row, as a test on every id of the cluster.
abbrev pub votes : Node → RoundStage → ℕ → ℕ → Bool
votes node stage row m =
    has_bit stage.installed_membership m && has_row (observation_rows node stage) row m

pub witness_count-votes :
    (node : Node) (stage : RoundStage) (row : ℕ)
    → witness_count node stage row ≡ count (votes node stage row) (range node.node_count)
unfolding witness_count bitmap_members
witness_count-votes node stage row =
    count-filter (has_row (observation_rows node stage) row) (has_bit stage.installed_membership)
      (range node.node_count)

pub votes-row_of :
    (node : Node) (stage : RoundStage) (row m : ℕ)
    → votes node stage row m ≡ true
    → (observed node stage m ≡ true) × (row_of stage m ≡ row)
votes-row_of node stage row m h = ground (arith, has_row-observed node stage row m)

all_valid :
    (m : ℕ) (rows : Dict ℕ) {row : ℕ}
    → all (λ (e : ℕ × ℕ). row_is_valid e.0 e.1) rows ≡ true
    → lookup m rows ≡ some row
    → row_is_valid m row ≡ true
all_valid m [] h e = cc
all_valid m (x ∷ rows) {row} h e = ground (arith, all_valid m rows {row = row}, ap row_is_valid)

-- Every member that has sent a row names itself in it.
pub IsAgreed-self_included :
    (node : Node) (stage : RoundStage) (row m : ℕ)
    → IsAgreed node stage row
    → observed node stage m ≡ true
    → row_of stage m ≢ 0
    → has_bit (row_of stage m) m ≡ true
unfolding row_is_valid
IsAgreed-self_included node stage row m a h n = ground (
  arith,
  n,
  a.valid,
  lookup-observation_rows node stage m,
  all_valid m (observation_rows node stage) {row = row_of stage m},
)

matching_members-has_bit :
    (agreed core : ℕ) (rows : Dict ℕ) (m : ℕ)
    → has_bit (matching_members agreed core rows) m
      ≡ (has_bit core m || any (λ (e : ℕ × ℕ). m == e.0 && e.1 == agreed) rows)
unfolding matching_members
matching_members-has_bit agreed core [] m = ground arith
matching_members-has_bit agreed core (e ∷ rows) m = ground (
  arith,
  matching_members-has_bit agreed core rows m,
  matching_members-has_bit agreed (bit_or core (2 ^ e.0)) rows m,
  has_bit-or core (2 ^ e.0) m,
  has_bit-two_pow e.0 m,
)

any-tabulate :
    (agreed m : ℕ) (f : ℕ → ℕ) (ks : List ℕ)
    → any (λ (e : ℕ × ℕ). m == e.0 && e.1 == agreed) (tabulate f ks) ≡ (elem m ks && f m == agreed)
any-tabulate agreed m f [] = ground arith
any-tabulate agreed m f (k ∷ ks) = ground (arith, any-tabulate agreed m f ks, ap f)

-- The sound set holds the members of the stage whose row is the agreed one, and no other.
pub sound_set-has_bit :
    (node : Node) (stage : RoundStage) (sound row m : ℕ)
    → sound_set node stage ≡ some sound
    → agreed_row node stage ≡ some row
    → has_bit sound m ≡ (observed node stage m && row_of stage m == row)
unfolding sound_set observation_rows
sound_set-has_bit node stage sound row m s a =
    let ms = bitmap_members stage.installed_membership node.node_count in
    ground (
      arith,
      matching_members-has_bit row 0 (observation_rows node stage) m,
      has_bit-zero m,
      any-tabulate row m (row_of stage) ms,
      elem-bitmap_members stage.installed_membership node.node_count m,
    )
