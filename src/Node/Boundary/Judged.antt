-- ===== src/Node/Boundary/Judged.antt =====
-- What the end of a round that is judged leaves: `_evaluate_round_boundary` of
-- sim/protocol/node.py, described by the node and the log it leaves and not by its own steps.
use syncons.Base.{
  ℕ, String, ◌≡◌, refl, sym, subst, inl, inr, true, false, ◌&&◌, none, some, [], ◌∷◌, arith, ltb,
  if◌then◌else◌, Bool-cases, Option-cases, Dict, lookup, lookup_or, has_key, lookup-tabulate,
  is_negative,
}
use syncons.Bitmap.{has_bit, bitmap_members}
use syncons.Bitmap.Sets.{elem-bitmap_members}
use syncons.Protocol.{halted, RoundStage, CommittedRound, HaltReason, halt, HaltRecord}
use syncons.Protocol.Records.{digest_projection}
use syncons.Node.{Node, emit_control_plane_event}
use syncons.Node.Digest.{Hashing, extend_log_digest}
use syncons.Node.Rows.{commit_set}
use syncons.Node.Rows.Agreement.{IsSound, commit_set-proposals}
use syncons.Node.Boundary.{
  build_halt_record, skip, continue, halt_decision, Judgement, skip_stage, halted_node,
  enter_halt_state, committed_proposals, committed_round, commit_stage, judge_stage,
}
use syncons.Node.Boundary.Outcomes.{
  Outcome, skipped, commits, halts, Within, Explains, judge_stage-Outcome,
}

-- The committed round of a stage: its agreed row, with the proposals that the stage holds of all
-- members of the row, and of no one else.
pub record IsCommitOf (node : Node) (stage : RoundStage) (c : CommittedRound) : Type 0 where
  pub round : c.round ≡ stage.round_id
  pub epoch : c.membership_epoch ≡ stage.membership_epoch
  pub agreed : commit_set node stage ≡ some c.commit_set
  pub proposals :
      (m : ℕ)
      → lookup m c.proposals ≡ (
          if has_bit c.commit_set m && ltb m node.node_count
          then lookup m stage.proposals
          else none)

-- A node that has halted: what it knows of its log and its stages is as before, and the record of
-- the halt names the round that failed and the reason.
pub record IsHalted (stage : RoundStage) (reason : HaltReason) (before after : Node) : Type 0 where
  pub status : after.status ≡ halted
  pub halted_round : after.halted_round ≡ some before.current_round
  pub because : after.status_reason ≡ some (halt reason)
  pub details :
      (d : HaltRecord) × (after.halt_details ≡ some d)
      × (d.halt_reason ≡ reason)
      × (d.failed_round ≡ stage.round_id)
      × (d.log_digest ≡ before.commit_digest)
  pub frontier : after.committed_frontier ≡ before.committed_frontier
  pub digest : after.commit_digest ≡ before.commit_digest
  pub last : after.last_committed_sound_set ≡ before.last_committed_sound_set
  pub current : after.current_stage ≡ before.current_stage
  pub previous : after.previous_stage ≡ before.previous_stage

-- How a judgement can end.
pub data Judged (hashing : Hashing) (node : Node) (stage : RoundStage) (j : Judgement)
    : Type 0 where
  passed :
      is_negative stage.round_id ≡ true
      → j ≡ record { decision = skip; sound_set = none; new_commits = []; node = node }
      → Judged hashing node stage j
  committed_one :
      (c : CommittedRound) (sound : ℕ)
      → is_negative stage.round_id ≡ false
      → IsCommitOf node stage c
      → IsSound node stage c.commit_set sound
      → Within sound node.current_sound_set
      → j ≡ record {
        decision = continue;
        sound_set = some sound;
        new_commits = c ∷ [];
        node = record node {
          committed_frontier = c.round;
          last_committed_sound_set = some sound;
          commit_digest = extend_log_digest hashing node.commit_digest (digest_projection c);
        };
      }
      → Judged hashing node stage j
  stopped :
      (reason : HaltReason)
      → is_negative stage.round_id ≡ false
      → Explains node stage reason
      → j.decision ≡ halt_decision
      → j.sound_set ≡ none
      → j.new_commits ≡ []
      → IsHalted stage reason node j.node
      → Judged hashing node stage j

lookup_or-lookup :
    (m : ℕ) (d : Dict String) → has_key m d ≡ true → some (lookup_or m "" d) ≡ lookup m d
lookup_or-lookup m d h = elim (Option-cases (lookup m d)) [
  | inl absent ↦ absurd (ground (arith, absent, h))
  | inr (v, present) ↦ ground (arith, present, h)
]

committed_round-IsCommitOf :
    (node : Node) (stage : RoundStage) (row : ℕ)
    → commit_set node stage ≡ some row
    → IsCommitOf node stage (committed_round node stage row)
unfolding committed_round committed_proposals
committed_round-IsCommitOf node stage row e = record {
  round = refl;
  epoch = refl;
  agreed = e;
  proposals = λ m.
      rw
        (
          lookup-tabulate m (λ member. lookup_or member "" stage.proposals)
              (bitmap_members row node.node_count),
          elem-bitmap_members row node.node_count m,
        )
        (elim (Bool-cases (has_bit row m && ltb m node.node_count)) [
          | inl inside ↦ rw inside (
              lookup_or-lookup m stage.proposals
                (commit_set-proposals node stage row m e (ground arith) (ground arith)))
          | inr outside ↦ rw outside refl
        ]);
}

enter_halt_state-IsHalted :
    (node : Node) (stage : RoundStage) (rows : Dict ℕ) (row : ℕ) (reason : HaltReason)
    → IsHalted stage reason node (enter_halt_state node stage rows row reason).node
unfolding enter_halt_state halted_node build_halt_record emit_control_plane_event
enter_halt_state-IsHalted node stage rows row reason = record {
  status = refl;
  halted_round = refl;
  because = refl;
  details = (_, refl, refl, refl, refl);
  frontier = refl;
  digest = refl;
  last = refl;
  current = refl;
  previous = refl;
}

module _ (hashing : Hashing) where
  Outcome-Judged :
      (node : Node) (stage : RoundStage) (j : Judgement)
      → Outcome hashing node stage j
      → Judged hashing node stage j
  unfolding skip_stage commit_stage enter_halt_state
  Outcome-Judged node stage j (skipped n made) = passed n made
  Outcome-Judged node stage j (commits row sound n cs is_sound within made) =
      committed_one (committed_round node stage row) sound n
        (committed_round-IsCommitOf node stage row cs) is_sound within made
  Outcome-Judged node stage j (halts reason n why made) =
      stopped reason n why (rw made refl) (rw made refl) (rw made refl) (
        subst (λ (k : Judgement). IsHalted stage reason node k.node) (sym made)
          (enter_halt_state-IsHalted node stage _ _ reason))

  -- A judgement skips a stage with a negative round and changes nothing; or it commits the one
  -- round of the stage, its agreed row with the proposals of the members, moves frontier, digest
  -- and last sound set to it and leaves the rest of the node, under a sound set that holds the
  -- node, lies in row and membership, has a quorum and lies inside the one before; or it halts
  -- the node for a reason that holds of the stage, commits nothing, leaves log and stages and
  -- records the failed round. Two of the five reasons never apply.
  pub judge_stage-Judged :
      (node : Node) (stage : RoundStage)
      → Judged hashing node stage (judge_stage hashing node stage)
  judge_stage-Judged node stage =
      Outcome-Judged node stage (judge_stage hashing node stage)
        (judge_stage-Outcome hashing node stage)
