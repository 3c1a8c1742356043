-- ===== src/Node/Boundary/Agreement.antt =====
-- Two nodes that commit a round of one stage number commit the same value: the agreement of
-- sim/protocol/node.py at the level of `CommittedRound`.
use syncons.Base.{
  ℕ, ◌≡◌, refl, ap, Bool, true, false, some, List, [], ◌∷◌, String, arith, lookup, lookup_or,
  has_key, tabulate, elem, ==_refl, ◌==◌, ◌||◌, Option-cases, inl, inr,
}
use syncons.Bitmap.{bitmap_members}
use syncons.Bitmap.Sets.{elem-bitmap_members}
use syncons.Protocol.{RoundStage, CommittedRound}
use syncons.Node.{Node}
use syncons.Node.Digest.{Hashing}
use syncons.Node.Rows.{commit_set}
use syncons.Node.Rows.Agreement.{
  Reports, agreed_row_unique, commit_set-agreed_row, commit_set-proposals,
}
use syncons.Node.Boundary.{
  skip_stage, Judgement, judge_stage, committed_round, committed_proposals, commit_stage,
  enter_halt_state,
}
use syncons.Node.Boundary.Outcomes.{Outcome, skipped, commits, halts, judge_stage-Outcome}

-- Every proposal that the stage holds is the one that its author made.
abbrev pub Proposes : RoundStage → (ℕ → String) → Type 0
Proposes stage proposal = (m : ℕ) (v : String) → lookup m stage.proposals ≡ some v → v ≡ proposal m

proposal_of :
    (stage : RoundStage) (proposal : ℕ → String) (m : ℕ)
    → Proposes stage proposal
    → has_key m stage.proposals ≡ true
    → lookup_or m "" stage.proposals ≡ proposal m
proposal_of stage proposal m p h = elim (Option-cases (lookup m stage.proposals)) [
  | inl e ↦ ground arith
  | inr (v, e) ↦ rw (e, lookup_or) (p m v e)
]

tabulate-ext :
    (f g : ℕ → String) (ks : List ℕ)
    → ((k : ℕ) → elem k ks ≡ true → f k ≡ g k)
    → tabulate f ks ≡ tabulate g ks
tabulate-ext f g [] h = refl
tabulate-ext f g (k ∷ ks) h =
    cc (h k (rw (==_refl k)), tabulate-ext f g ks (λ j i. h j (rw i (or_true (j == k)))))
  where
    or_true : (b : Bool) → (b || true) ≡ true
    or_true true = refl
    or_true false = refl

-- The committed proposals are those that the members of the commit set made.
committed_proposals-tabulate :
    (node : Node) (stage : RoundStage) (row : ℕ) (proposal : ℕ → String)
    → commit_set node stage ≡ some row
    → Proposes stage proposal
    → committed_proposals node stage row ≡ tabulate proposal (bitmap_members row node.node_count)
unfolding committed_proposals
committed_proposals-tabulate node stage row proposal c p =
    tabulate-ext (λ member. lookup_or member "" stage.proposals) proposal
      (bitmap_members row node.node_count)
      λ k i.
        let inside = elem-bitmap_members row node.node_count k in
        proposal_of stage proposal k p (
          commit_set-proposals node stage row k c (ground (arith, inside)) (ground (arith, inside)))

module _ (hashing : Hashing) where
  Outcome-commit_set :
      (node : Node) (stage : RoundStage) (j : Judgement) (c : CommittedRound)
      → Outcome hashing node stage j
      → j.new_commits ≡ c ∷ []
      → (row : ℕ) × (commit_set node stage ≡ some row) × (c ≡ committed_round node stage row)
  unfolding skip_stage commit_stage enter_halt_state
  Outcome-commit_set node stage j c (skipped n made) e =
      cc (ap (λ (j : Judgement). j.new_commits) made)
  Outcome-commit_set node stage j c (commits row sound n cs is_sound within made) e =
      (row, cs, cc (ap (λ (j : Judgement). j.new_commits) made))
  Outcome-commit_set node stage j c (halts reason n why made) e =
      cc (ap (λ (j : Judgement). j.new_commits) made)

  -- A boundary that commits a round has a commit set, and the round is that of the stage.
  pub committed-commit_set :
      (node : Node) (stage : RoundStage) (c : CommittedRound)
      → (judge_stage hashing node stage).new_commits ≡ c ∷ []
      → (row : ℕ) × (commit_set node stage ≡ some row) × (c ≡ committed_round node stage row)
  committed-commit_set node stage c e =
      Outcome-commit_set node stage (judge_stage hashing node stage) c
        (judge_stage-Outcome hashing node stage) e

  -- Two nodes of one cluster that judge a stage of the same round and epoch, and that have seen
  -- rows and proposals only as their senders sent them, commit the same round: the same commit
  -- set with the same proposals, whatever else they missed and whatever memberships they have
  -- installed.
  pub committed_unique :
      (p q : Node) (sp sq : RoundStage) (report : ℕ → ℕ) (proposal : ℕ → String)
      (c d : CommittedRound)
      → p.node_count ≡ q.node_count
      → sp.round_id ≡ sq.round_id
      → sp.membership_epoch ≡ sq.membership_epoch
      → Reports sp report
      → Reports sq report
      → Proposes sp proposal
      → Proposes sq proposal
      → (judge_stage hashing p sp).new_commits ≡ c ∷ []
      → (judge_stage hashing q sq).new_commits ≡ d ∷ []
      → c ≡ d
  unfolding committed_round
  committed_unique p q sp sq report proposal c d n r ep rp rq pp pq ec ed =
      let (a, ca, fc) = committed-commit_set p sp c ec in
      let (b, cb, fd) = committed-commit_set q sq d ed in
      let same =
        agreed_row_unique p q sp sq report a b n rp rq (commit_set-agreed_row p sp a ca)
          (commit_set-agreed_row q sq b cb) in
      cc (
        fc,
        fd,
        same,
        committed_proposals-tabulate p sp a proposal ca pp,
        committed_proposals-tabulate q sq b proposal cb pq,
      )
