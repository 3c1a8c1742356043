-- ===== src/Node/Round/Consistency.antt =====
-- The invariant that ties a stage's row to its proposals, through every operation of the node.
use syncons.Base.{
  ℕ, ◌^◌, ◌≡◌, refl, ◌≢◌, true, not, Option, none, some, arith, has_key, lookup-insert, if_cases,
}
use syncons.Bitmap.{has_bit}
use syncons.Bitmap.Laws.{has_bit-zero, has_bit-or, has_bit-two_pow}
use syncons.Protocol.{RoundStage, Packet, NodeRoundResult}
use syncons.Node.{Node}
use syncons.Node.Digest.{Hashing}
use syncons.Node.Rows.Witnesses.{row_of}
use syncons.Node.Boundary.{evaluate_round_boundary}
use syncons.Node.Boundary.Outcomes.{Outcome-SameStages, evaluate-Outcome}
use syncons.Node.Config.Stages.{IsBlank, KeepsOrResets, kept, opened, configure-Keeps}
use syncons.Node.Round.{
  receive, accepts, crash, turn_stages, adopt_sound_set, finish_round, run_round, configure,
  advance_round, new_current_stage, crashed_now, participates,
}

-- Whoever is heard in a stage has a proposal there.
abbrev pub IsBacked : RoundStage → Type 0
IsBacked stage = (m : ℕ) → has_bit stage.row m ≡ true → has_key m stage.proposals ≡ true

pub record IsConsistent (node : Node) : Type 0 where
  pub current : IsBacked node.current_stage
  pub previous : IsBacked node.previous_stage
  pub own_row : row_of node.previous_stage node.node_id ≡ node.previous_stage.row

-- A packet from another node keeps the invariant.
pub receive-IsConsistent :
    (packet : Packet) (node : Node)
    → packet.src_id ≢ node.node_id
    → IsConsistent node
    → IsConsistent (receive packet node)
unfolding receive
receive-IsConsistent packet node other c =
    if_cases IsConsistent (accepts packet node)
      (λ _. record {
        current = λ m. ground (
          arith,
          c.current m,
          has_bit-or node.current_stage.row (2 ^ packet.src_id) m,
          has_bit-two_pow packet.src_id m,
          lookup-insert m packet.src_id packet.payload node.current_stage.proposals,
        );
        previous = c.previous;
        own_row = ground (
          arith,
          other,
          c.own_row,
          lookup-insert node.node_id packet.src_id packet.row node.previous_stage.rows,
        );
      })
      (λ _. c)

pub crash-IsConsistent :
    (round_id : ℕ) (node : Node) → IsConsistent node → IsConsistent (crash round_id node)
unfolding crash
crash-IsConsistent round_id node c = ground (arith, c.own_row, c.current, c.previous)

turn_stages-IsConsistent :
    (r : ℕ) (node : Node) → IsBacked node.previous_stage → IsConsistent (turn_stages r node)
unfolding turn_stages new_current_stage
turn_stages-IsConsistent r node b = record {
  current = λ m. ground (arith, has_bit-two_pow node.node_id m);
  previous = b;
  own_row = ground (
    arith,
    lookup-insert node.node_id node.node_id node.previous_stage.row node.previous_stage.rows,
  );
}

IsBlank-IsBacked : {stage : RoundStage} → IsBlank stage → IsBacked stage
IsBlank-IsBacked b m h = ground (arith, b.no_row, has_bit-zero m)

KeepsOrResets-IsConsistent :
    {before after : Node} → KeepsOrResets before after → IsConsistent before → IsConsistent after
KeepsOrResets-IsConsistent (kept s _) c = record {
  current = rw s.same_current c.current;
  previous = rw s.same_previous c.previous;
  own_row = ground (arith, s.same_previous, s.same_id, c.own_row);
}
KeepsOrResets-IsConsistent (opened i n r u p) c = record {
  current = IsBlank-IsBacked u;
  previous = IsBlank-IsBacked p;
  own_row = ground (arith, p.no_row, p.no_rows);
}

adopt_sound_set-previous :
    (sound : Option ℕ) (node : Node)
    → (adopt_sound_set sound node).previous_stage ≡ node.previous_stage
unfolding adopt_sound_set
adopt_sound_set-previous none node = refl
adopt_sound_set-previous (some sound) node = refl

module _ (hashing : Hashing) where
  pub run_round-node :
      (r : ℕ) (node : Node)
      → let judgement =
          evaluate_round_boundary hashing
            (record node { previous_stage = node.current_stage })
            (some node.previous_stage) in
        (run_round hashing r node).0
        ≡ turn_stages r (adopt_sound_set judgement.sound_set judgement.node)
  unfolding run_round finish_round
  run_round-node r node = ground arith

  pub run_round-IsConsistent :
      (r : ℕ) (node : Node) → IsConsistent node → IsConsistent (run_round hashing r node).0
  run_round-IsConsistent r node c =
      let shifted = record node { previous_stage = node.current_stage } in
      let j = evaluate_round_boundary hashing shifted (some node.previous_stage) in
      let same =
        Outcome-SameStages hashing j (evaluate-Outcome hashing shifted node.previous_stage) in
      rw (run_round-node r node) (
        turn_stages-IsConsistent r (adopt_sound_set j.sound_set j.node)
          (rw (adopt_sound_set-previous j.sound_set j.node, same.same_previous) c.current))

  pub configure-IsConsistent :
      (r : ℕ) (node : Node) → IsConsistent node → IsConsistent (configure hashing r node)
  unfolding configure
  configure-IsConsistent r node c = KeepsOrResets-IsConsistent (configure-Keeps hashing r node) c

  -- A round keeps the invariant, whatever it does.
  pub advance_round-IsConsistent :
      (r : ℕ) (node : Node) → IsConsistent node → IsConsistent (advance_round hashing r node).0
  unfolding advance_round
  advance_round-IsConsistent r node c =
      let started = record node { current_round = r } in
      let configured = configure hashing r started in
      let p : IsConsistent configured =
        configure-IsConsistent r started (ground (arith, c.current, c.previous, c.own_row)) in
      if_cases (λ (o : Node × NodeRoundResult). IsConsistent o.0) (crashed_now r started)
        (λ _. ground (arith, c.current, c.previous, c.own_row))
        (λ _.
          if_cases (λ (o : Node × NodeRoundResult). IsConsistent o.0)
            (not (participates configured)) (λ _. p) (λ _. run_round-IsConsistent r configured p))
