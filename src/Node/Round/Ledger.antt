-- ===== src/Node/Round/Ledger.antt =====
-- The log of a node of sim/protocol/node.py over a round: what is committed, how frontier and
-- digest follow, and how the sound set shrinks.
use syncons.Base.{
  ℕ, ◌≡◌, refl, sym, ap, ◌∙◌, ◌≢◌, ◌⊎◌, inl, inr, not, Option, none, some, List, [], ◌∷◌, ◌++◌, map,
  append-nil, Bool-cases, if_cases,
}
use syncons.Protocol.{running, NodeRoundResult, CommittedRound, CommittedRoundRecord}
use syncons.Protocol.Records.{digest_projection, from_committed_round}
use syncons.Node.{Node, emit_control_plane_event}
use syncons.Node.Digest.{Hashing, digest_for_committed_rounds, digest-append, extend_log_digest}
use syncons.Node.Boundary.{
  skip_stage, Judgement, evaluate_round_boundary, commit_stage, committed_round, enter_halt_state,
  halted_node,
}
use syncons.Node.Boundary.Outcomes.{Outcome, skipped, commits, halts, Within, evaluate-Outcome}
use syncons.Node.Round.{
  no_result, participates, adopt_sound_set, turn_stages, finish_round, crashed_now, run_round,
  configure, advance_round,
}
use syncons.Node.Round.Advance.{entered, played, participates_state}

-- A committed history, extended by what a round commits, with the times of the runtime.
abbrev pub extended :
    List CommittedRoundRecord
    → Option ℕ
    → Option ℕ
    → List CommittedRound
    → List CommittedRoundRecord
extended history t u new_commits = history ++ map (λ c. from_committed_round c t u) new_commits

-- At most one round is committed, the one of the stage before last, and the frontier is at it.
abbrev pub Commits : Node → Node × NodeRoundResult → Type 0
Commits before (after, result) =
    ((result.new_commits ≡ []) × (after.committed_frontier ≡ before.committed_frontier))
    ⊎ ((c : CommittedRound) × (result.new_commits ≡ c ∷ [])
        × (c.round ≡ before.previous_stage.round_id)
        × (after.committed_frontier ≡ c.round)
        × (after.last_committed_sound_set ≡ some after.current_sound_set))

pub record Progresses (before : Node) (p : Node × NodeRoundResult) : Type 0 where
  pub one_commit : Commits before p
  pub shrinks : Within p.0.current_sound_set before.current_sound_set
  pub silent : p.0.status ≢ running → (p.1.outbound ≡ none) × (p.1.new_commits ≡ [])

idle-Progresses : (node : Node) → Progresses node (node, no_result)
unfolding no_result
idle-Progresses node = record {
  one_commit = inl (refl, refl);
  shrinks = λ m h. h;
  silent = λ _. (refl, refl);
}

module _ (hashing : Hashing) where
  played-Progresses :
      (r : ℕ) (node : Node) (j : Judgement)
      → node.status ≡ running
      → Outcome hashing (record node { previous_stage = node.current_stage }) node.previous_stage j
      → Progresses node (played r j)
  unfolding played finish_round skip_stage commit_stage committed_round enter_halt_state halted_node
      emit_control_plane_event adopt_sound_set turn_stages
  played-Progresses r node j run (skipped n made) = rw made (record {
    one_commit = inl (refl, refl);
    shrinks = λ m h. h;
    silent = λ stopped. absurd (stopped run);
  })
  played-Progresses r node j run (commits row sound n cs is_sound within made) = rw made (record {
    one_commit = inr (_, refl, refl, refl, refl);
    shrinks = within;
    silent = λ stopped. absurd (stopped run);
  })
  played-Progresses r node j run (halts reason n why made) = rw made (record {
    one_commit = inl (refl, refl);
    shrinks = λ m h. h;
    silent = λ stopped. (refl, refl);
  })

  -- From the node that a round starts from, once its due configuration steps are done, the round
  -- commits at most the round of the previous stage, moves the frontier to it, does not let the
  -- sound set grow beyond the one of that node, and sends and commits nothing where it leaves the
  -- node not running.
  pub advance_round-Progresses :
      (r : ℕ) (node : Node) → Progresses (entered hashing r node) (advance_round hashing r node)
  unfolding advance_round run_round played
  advance_round-Progresses r node =
      let started = record node { current_round = r } in
      let configured = configure hashing r started in
      let shifted = record configured { previous_stage = configured.current_stage } in
      elim (Bool-cases (crashed_now r started)) [
        | inl e ↦ rw e (idle-Progresses started)
        | inr e ↦ rw e (
            if_cases (Progresses configured) (not (participates configured))
              (λ _. idle-Progresses configured)
              (λ h.
                played-Progresses r configured
                  (evaluate_round_boundary hashing shifted (some configured.previous_stage))
                  ((participates_state configured h).0)
                  (evaluate-Outcome hashing shifted configured.previous_stage)))
      ]

  -- The digest that a history is expected to have.
  abbrev pub Digests : List CommittedRoundRecord → Node → Type 0
  Digests history node = node.commit_digest ≡ digest_for_committed_rounds hashing history

  played-digest :
      (r : ℕ) (node : Node) (j : Judgement) (history : List CommittedRoundRecord) (t u : Option ℕ)
      → Digests history node
      → Outcome hashing (record node { previous_stage = node.current_stage }) node.previous_stage j
      → Digests (extended history t u (played r j).1.new_commits) (played r j).0
  unfolding played finish_round skip_stage commit_stage committed_round enter_halt_state halted_node
      emit_control_plane_event adopt_sound_set turn_stages from_committed_round
  played-digest r node j history t u d (skipped n made) = rw made (rw (append-nil history) d)
  played-digest r node j history t u d (commits row sound n cs is_sound within made) =
      let c =
        committed_round (record node { previous_stage = node.current_stage }) node.previous_stage
          row in
      rw made (
        ap (λ x. extend_log_digest hashing x (digest_projection c)) d
        ∙ sym (digest-append hashing history (from_committed_round c t u)))
  played-digest r node j history t u d (halts reason n why made) =
      rw made (rw (append-nil history) d)

  -- The digest of a node is that of its committed history: if it is so where a round starts, it is
  -- so after the round, of the history with the new commits at its end, whatever their times.
  pub advance_round-digest :
      (r : ℕ) (node : Node) (history : List CommittedRoundRecord) (t u : Option ℕ)
      → Digests history (entered hashing r node)
      → let (after, result) = advance_round hashing r node in
        Digests (extended history t u result.new_commits) after
  unfolding advance_round run_round played
  advance_round-digest r node history t u =
      let started = record node { current_round = r } in
      let configured = configure hashing r started in
      let shifted = record configured { previous_stage = configured.current_stage } in
      elim (Bool-cases (crashed_now r started)) [
        | inl e ↦ rw e (λ d. rw (append-nil history) d)
        | inr e ↦ rw e (λ d.
            if_cases
              (λ (p : Node × NodeRoundResult). Digests (extended history t u p.1.new_commits) p.0)
              (not (participates configured)) (λ _. rw (append-nil history) d)
              (λ _.
                played-digest r configured
                  (evaluate_round_boundary hashing shifted (some configured.previous_stage)) history
                  t u d (evaluate-Outcome hashing shifted configured.previous_stage)))
      ]
