-- ===== src/Node/Rows/Agreement.antt =====
-- The safety of the rules of sim/protocol/node.py on rows: quorums meet, so two nodes cannot
-- agree on different rows for one round; and how sound set, commit set and agreed row relate.
use syncons.Base.{
  ℕ, ◌≤◌, ◌<◌, ◌≡◌, refl, ◌⊎◌, ap, true, ◌&&◌, none, some, arith, count, has_key, range,
  count_inter, count_pos, length-range_from, any-not, not-any, count-ext,
}
use syncons.Bitmap.{has_bit, bitmap_members}
use syncons.Bitmap.Sets.{elem-bitmap_members}
use syncons.Protocol.{RoundStage}
use syncons.Node.{Node}
use syncons.Node.Rows.{
  quorum, witness_count, observation_rows, matching_members, agreed_row, sound_set, commit_set,
}
use syncons.Node.Rows.Witnesses.{
  row_of, votes, has_row-observed, agreed_row-IsAgreed, IsAgreed-local, IsAgreed-self_included,
  witness_count-votes, votes-row_of, sound_set-has_bit,
}

-- Every row that the stage holds is the one its sender reported, or has not come.
abbrev pub Reports : RoundStage → (ℕ → ℕ) → Type 0
Reports stage report = (m : ℕ) → (row_of stage m ≡ 0) ⊎ (row_of stage m ≡ report m)

-- Two quorums of one cluster have a member in common.
pub quorums_meet :
    (p q : Node) (sp sq : RoundStage) (a b : ℕ)
    → p.node_count ≡ q.node_count
    → quorum p ≤ witness_count p sp a
    → quorum q ≤ witness_count q sq b
    → (m : ℕ) × (row_of sp m ≡ a) × (row_of sq m ≡ b)
unfolding quorum
quorums_meet p q sp sq a b n wp wq =
    let (m, both) = count_pos (λ x. votes p sp a x && votes q sq b x) (range p.node_count) shared in
    (m, ground (arith, votes-row_of p sp a m), ground (arith, votes-row_of q sq b m))
  where
    shared : 0 < count (λ x. votes p sp a x && votes q sq b x) (range p.node_count)
    shared = omega (
      arith,
      witness_count-votes p sp a,
      witness_count-votes q sq b,
      ap (λ k. count (votes q sq b) (range k)) n,
      count_inter (votes p sp a) (votes q sq b) (range p.node_count),
      length-range_from 0 p.node_count,
      n,
    )

-- Nodes that see no contradictory rows agree: whatever their memberships are, if both of them
-- find an agreed row in rows that their senders reported alike, it is the same row.
pub agreed_row_unique :
    (p q : Node) (sp sq : RoundStage) (report : ℕ → ℕ) (a b : ℕ)
    → p.node_count ≡ q.node_count
    → Reports sp report
    → Reports sq report
    → agreed_row p sp ≡ some a
    → agreed_row q sq ≡ some b
    → a ≡ b
agreed_row_unique p q sp sq report a b n rp rq ea eb =
    let ia = agreed_row-IsAgreed p sp a ea in
    let ib = agreed_row-IsAgreed q sq b eb in
    let (m, ha, hb) = quorums_meet p q sp sq a b n ia.witnessed ib.witnessed in
    ground (arith, rp m, rq m, ia.nonzero, ib.nonzero)

-- A commit set is the agreed row.
pub commit_set-agreed_row :
    (node : Node) (stage : RoundStage) (commits : ℕ)
    → commit_set node stage ≡ some commits
    → agreed_row node stage ≡ some commits
unfolding commit_set
commit_set-agreed_row node stage commits e = ground arith

-- Every member of a commit set that belongs to the cluster has a proposal in the stage.
pub commit_set-proposals :
    (node : Node) (stage : RoundStage) (commits m : ℕ)
    → commit_set node stage ≡ some commits
    → has_bit commits m ≡ true
    → m < node.node_count
    → has_key m stage.proposals ≡ true
unfolding commit_set
commit_set-proposals node stage commits m e b h = ground (
  arith,
  elem-bitmap_members commits node.node_count m,
  any-not (λ k. has_key k stage.proposals) m (bitmap_members commits node.node_count),
)

-- What a sound set is: it holds the node, lies inside the agreed row and the stage's membership,
-- and has a quorum.
pub record IsSound (node : Node) (stage : RoundStage) (row sound : ℕ) : Type 0 where
  pub local : has_bit sound node.node_id ≡ true
  pub in_row : (m : ℕ) → has_bit sound m ≡ true → has_bit row m ≡ true
  pub in_membership : (m : ℕ) → has_bit sound m ≡ true → has_bit stage.installed_membership m ≡ true
  pub is_quorum : quorum node ≤ count (has_bit sound) (range node.node_count)

sound_set-votes :
    (node : Node) (stage : RoundStage) (row sound m : ℕ)
    → agreed_row node stage ≡ some row
    → sound_set node stage ≡ some sound
    → votes node stage row m ≡ has_bit sound m
sound_set-votes node stage row sound m a s =
    ground (arith, has_row-observed node stage row m, sound_set-has_bit node stage sound row m s a)

-- A sound set that the rules derive is a quorum that holds the local node and lies inside the
-- agreed row and the membership of the stage.
pub sound_set-IsSound :
    (node : Node) (stage : RoundStage) (row sound : ℕ)
    → agreed_row node stage ≡ some row
    → sound_set node stage ≡ some sound
    → IsSound node stage row sound
sound_set-IsSound node stage row sound a s =
    let agreed = agreed_row-IsAgreed node stage row a in
    let holds = λ (m : ℕ). sound_set-has_bit node stage sound row m s a in
    record {
      local = ground (arith, IsAgreed-local node stage row agreed, holds node.node_id);
      in_row = λ m h. ground (
        arith,
        holds m,
        agreed.nonzero,
        IsAgreed-self_included node stage row m agreed,
        ap (λ r. has_bit r m),
      );
      in_membership = λ m h. ground (arith, holds m);
      is_quorum = omega (
        arith,
        agreed.witnessed,
        witness_count-votes node stage row,
        count-ext (votes node stage row) (has_bit sound) (range node.node_count)
            (λ m. sound_set-votes node stage row sound m a s),
      );
    }

-- The three sets exist together: where there is an agreed row there is a sound set, so a missing
-- sound set is never the reason to halt.
pub sound_set-total :
    (node : Node) (stage : RoundStage) (row : ℕ)
    → agreed_row node stage ≡ some row
    → (sound : ℕ) × (sound_set node stage ≡ some sound)
unfolding sound_set
sound_set-total node stage row a =
    (matching_members row 0 (observation_rows node stage), rw (a, sound_set) refl)

-- Without a commit set there is no agreed row, or one of its members has no proposal.
pub commit_set_missing :
    (node : Node) (stage : RoundStage) (row : ℕ)
    → agreed_row node stage ≡ some row
    → commit_set node stage ≡ none
    → ¬ ((m : ℕ) → has_bit row m ≡ true → m < node.node_count → has_key m stage.proposals ≡ true)
unfolding commit_set
commit_set_missing node stage row a e h = ground (
  arith,
  not-any (λ k. has_key k stage.proposals) (bitmap_members row node.node_count)
      (λ m i.
        h m (ground (arith, elem-bitmap_members row node.node_count m))
          (ground (arith, elem-bitmap_members row node.node_count m))),
)
