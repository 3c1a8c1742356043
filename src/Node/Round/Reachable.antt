-- ===== src/Node/Round/Reachable.antt =====
-- The states that a node of sim/protocol/node.py can be brought into by the calls of the
-- runtime, and the two reasons for which such a node can halt.
use syncons.Base.{
  ℕ, ◌≡◌, refl, ◌≢◌, inl, inr, true, not, Option, none, some, String, has_key, if_cases,
}
use syncons.Bitmap.{has_bit}
use syncons.Bitmap.Laws.{has_bit-zero}
use syncons.Protocol.Equality.{node_status_eq}
use syncons.Protocol.{
  running, RoundStage, Packet, NodeRoundResult, PayloadFactory, StatusReason, halt, no_agreed_row,
  commit_set_not_valid, no_sound_set, local_node_excluded_from_sound_set,
  sound_set_not_subset_of_previous_set, ControlPlaneUpdate,
}
use syncons.Node.{Node, new_node, pull_control_plane_events, emit_control_plane_event}
use syncons.Node.Digest.{Hashing}
use syncons.Node.Rows.{agreed_row}
use syncons.Node.Rows.Witnesses.{row_of, IsAgreed-local, agreed_row-IsAgreed}
use syncons.Node.Boundary.{
  skip_stage, Judgement, evaluate_round_boundary, commit_stage, enter_halt_state, halted_node,
}
use syncons.Node.Boundary.Outcomes.{Outcome, skipped, commits, halts, evaluate-Outcome}
use syncons.Node.Config.{push_control_plane_update}
use syncons.Node.Config.Reasons.{configure_reason}
use syncons.Node.Round.{
  receive, accepts, crash, turn_stages, adopt_sound_set, run_round, configure, advance_round,
  crashed_now, participates,
}
use syncons.Node.Round.Consistency.{
  IsBacked, IsConsistent, receive-IsConsistent, crash-IsConsistent, configure-IsConsistent,
  run_round-node, run_round-IsConsistent,
}

-- The reasons to halt that do occur.
abbrev pub IsExpected : Option StatusReason → Type 0
IsExpected (some (halt commit_set_not_valid)) = ⊥
IsExpected (some (halt no_sound_set)) = ⊥
IsExpected (some (halt local_node_excluded_from_sound_set)) = ⊥
IsExpected _ = Unit

-- What the runtime does with a node. Packets come from other nodes, as `default_destinations`
-- has it.
pub data NodeStep (hashing : Hashing) (before after : Node) : Type 0 where
  advances : (r : ℕ) → after ≡ (advance_round hashing r before).0 → NodeStep hashing before after
  receives :
      (packet : Packet)
      → packet.src_id ≢ before.node_id
      → after ≡ receive packet before
      → NodeStep hashing before after
  crashes : (r : ℕ) → after ≡ crash r before → NodeStep hashing before after
  is_pushed :
      (update : ControlPlaneUpdate)
      → after ≡ push_control_plane_update update before
      → NodeStep hashing before after
  is_pulled : after ≡ (pull_control_plane_events before).1 → NodeStep hashing before after

pub data Reachable (hashing : Hashing) : Node → Type 0 where
  starts :
      (digest : String) (node_id node_count : ℕ) (payload_factory : PayloadFactory)
      → Reachable hashing (new_node digest node_id node_count payload_factory)
  steps :
      {before after : Node}
      → Reachable hashing before
      → NodeStep hashing before after
      → Reachable hashing after

-- The invariant of a node.
pub record IsHealthy (node : Node) : Type 0 where
  pub consistent : IsConsistent node
  pub expected : IsExpected node.status_reason

adopt_reason :
    (r : ℕ) (sound : Option ℕ) (node : Node)
    → (turn_stages r (adopt_sound_set sound node)).status_reason ≡ node.status_reason
unfolding turn_stages adopt_sound_set
adopt_reason r none node = refl
adopt_reason r (some sound) node = refl

-- The row that a node agrees on is its own, and whoever is in it has made a proposal.
backed_row :
    (node : Node) (stage : RoundStage) (row m : ℕ)
    → IsBacked stage
    → row_of stage node.node_id ≡ stage.row
    → agreed_row node stage ≡ some row
    → has_bit row m ≡ true
    → has_key m stage.proposals ≡ true
backed_row node stage row m b own a h =
    let (_, local) = IsAgreed-local node stage row (agreed_row-IsAgreed node stage row a) in
    let same : row ≡ stage.row = cc (local, own) in b m (rw same at h)

pub new_node-IsHealthy :
    (digest : String) (node_id node_count : ℕ) (payload_factory : PayloadFactory)
    → IsHealthy (new_node digest node_id node_count payload_factory)
unfolding new_node
new_node-IsHealthy digest node_id node_count payload_factory = record {
  consistent = record {
    current = λ m h. cc (has_bit-zero m);
    previous = λ m h. cc (has_bit-zero m);
    own_row = refl;
  };
  expected = tt;
}

module _ (hashing : Hashing) where
  judgement_reason :
      (node : Node) (stage : RoundStage) (j : Judgement)
      → IsBacked stage
      → row_of stage node.node_id ≡ stage.row
      → IsExpected node.status_reason
      → Outcome hashing node stage j
      → IsExpected j.node.status_reason
  unfolding skip_stage commit_stage enter_halt_state halted_node emit_control_plane_event
  judgement_reason node stage j b own x (skipped n made) = rw made x
  judgement_reason node stage j b own x (commits row sound n cs is_sound within made) = rw made x
  judgement_reason node stage j b own x (halts no_agreed_row n why made) = rw made tt
  judgement_reason node stage j b own x (halts commit_set_not_valid n (row, a, missing) made) =
      absurd (missing (λ m h lt. backed_row node stage row m b own a h))
  judgement_reason node stage j b own x (halts sound_set_not_subset_of_previous_set n why made) =
      rw made tt
  judgement_reason node stage j b own x (halts no_sound_set n why made) = absurd why
  judgement_reason node stage j b own x (halts local_node_excluded_from_sound_set n why made) =
      absurd why

  run_round-IsHealthy :
      (r : ℕ) (node : Node) → IsHealthy node → IsHealthy (run_round hashing r node).0
  run_round-IsHealthy r node v =
      let shifted = record node { previous_stage = node.current_stage } in
      let j = evaluate_round_boundary hashing shifted (some node.previous_stage) in
      record {
        consistent = run_round-IsConsistent hashing r node v.consistent;
        expected =
            rw (run_round-node hashing r node, adopt_reason r j.sound_set j.node)
              (judgement_reason shifted node.previous_stage j v.consistent.previous
                v.consistent.own_row v.expected
                (evaluate-Outcome hashing shifted node.previous_stage));
      }

  configure-IsHealthy :
      (r : ℕ) (node : Node) → IsHealthy node → IsHealthy (configure hashing r node)
  unfolding configure
  configure-IsHealthy r node v = record {
    consistent = configure-IsConsistent hashing r node v.consistent;
    expected = elim (configure_reason hashing r node) [
      | inl (_, e) ↦ rw e v.expected
      | inr (_, e) ↦ rw e tt
    ];
  }

  advance_round-IsHealthy :
      (r : ℕ) (node : Node) → IsHealthy node → IsHealthy (advance_round hashing r node).0
  unfolding advance_round
  advance_round-IsHealthy r node v =
      let started = record node { current_round = r } in
      let configured = configure hashing r started in
      let w : IsHealthy started = record {
        consistent = record {
          current = v.consistent.current;
          previous = v.consistent.previous;
          own_row = v.consistent.own_row;
        };
        expected = v.expected;
      } in
      let p : IsHealthy configured = configure-IsHealthy r started w in
      if_cases (λ (o : Node × NodeRoundResult). IsHealthy o.0) (crashed_now r started) (λ _. w)
        (λ _.
          if_cases (λ (o : Node × NodeRoundResult). IsHealthy o.0) (not (participates configured))
            (λ _. p) (λ _. run_round-IsHealthy r configured p))

  receive-IsHealthy :
      (packet : Packet) (node : Node)
      → packet.src_id ≢ node.node_id
      → IsHealthy node
      → IsHealthy (receive packet node)
  unfolding receive
  receive-IsHealthy packet node other v = record {
    consistent = receive-IsConsistent packet node other v.consistent;
    expected =
        if_cases (λ (n : Node). IsExpected n.status_reason) (accepts packet node) (λ _. v.expected)
          (λ _. v.expected);
  }

  crash-IsHealthy : (r : ℕ) (node : Node) → IsHealthy node → IsHealthy (crash r node)
  unfolding crash emit_control_plane_event
  crash-IsHealthy r node v = record {
    consistent = crash-IsConsistent r node v.consistent;
    expected =
        if_cases (λ (n : Node). IsExpected n.status_reason) (node_status_eq node.status running)
          (λ _. tt) (λ _. v.expected);
  }

  -- Every call of the runtime keeps the invariant of a node: whoever is heard in one of its
  -- stages has a proposal there, its own row is filed, and its reason to halt is an expected one.
  pub NodeStep-IsHealthy :
      (before after : Node) → NodeStep hashing before after → IsHealthy before → IsHealthy after
  unfolding push_control_plane_update pull_control_plane_events
  NodeStep-IsHealthy before after (advances r e) v = rw e (advance_round-IsHealthy r before v)
  NodeStep-IsHealthy before after (receives packet other e) v =
      rw e (receive-IsHealthy packet before other v)
  NodeStep-IsHealthy before after (crashes r e) v = rw e (crash-IsHealthy r before v)
  NodeStep-IsHealthy before after (is_pushed update e) v = rw e (record {
    consistent = record {
      current = v.consistent.current;
      previous = v.consistent.previous;
      own_row = v.consistent.own_row;
    };
    expected = v.expected;
  })
  NodeStep-IsHealthy before after (is_pulled e) v = rw e (record {
    consistent = record {
      current = v.consistent.current;
      previous = v.consistent.previous;
      own_row = v.consistent.own_row;
    };
    expected = v.expected;
  })

  Reachable-IsHealthy : {node : Node} → Reachable hashing node → IsHealthy node
  Reachable-IsHealthy (starts digest node_id node_count payload_factory) =
      new_node-IsHealthy digest node_id node_count payload_factory
  Reachable-IsHealthy (steps {before = b} {after = a} r s) =
      NodeStep-IsHealthy b a s (Reachable-IsHealthy r)

  -- A node that the runtime drives from its start halts for two reasons at most: there was no
  -- agreed row, or the sound set left the one before. The other three never occur.
  pub Reachable-IsExpected : (node : Node) → Reachable hashing node → IsExpected node.status_reason
  Reachable-IsExpected node r = (Reachable-IsHealthy r).expected
