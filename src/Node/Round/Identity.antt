-- ===== src/Node/Round/Identity.antt =====
-- A round of sim/protocol/node.py leaves a node who it is, and what it emits is about itself.
use syncons.Base.{ℕ, not, Option, none, some, arith, lookup_or, all-snoc, if_cases}
use syncons.Protocol.{node_crashed, node_halted, Packet, NodeRoundResult, RoundStage, running}
use syncons.Protocol.Equality.{node_status_eq}
use syncons.Node.{Node, emit_control_plane_event}
use syncons.Node.Digest.{Hashing}
use syncons.Node.Identity.{IsMember, is_own}
use syncons.Node.Config.Identity.{configured-IsMember}
use syncons.Node.Boundary.{
  Judgement, skip_stage, commit_stage, enter_halt_state, halted_node, build_halt_record,
  evaluate_round_boundary,
}
use syncons.Node.Boundary.Outcomes.{Outcome, skipped, commits, halts, evaluate-Outcome}
use syncons.Node.Rows.{observation_rows}
use syncons.Node.Round.{
  receive, accepts, crash, configure, advance_round, crashed_now, participates, adopt_sound_set,
  turn_stages,
}
use syncons.Node.Round.Consistency.{run_round-node}

module _ (node_id n : ℕ) where
  pub crash-IsMember :
      (r : ℕ) (node : Node) → IsMember node_id n node → IsMember node_id n (crash r node)
  unfolding crash emit_control_plane_event
  crash-IsMember r node v =
      if_cases (IsMember node_id n) (node_status_eq node.status running)
        (λ _. (
          v.0,
          v.1,
          all-snoc (is_own node_id) node.control_plane_event_outbox (node_crashed node.node_id)
              (ground arith) v.2,
        ))
        (λ _. v)

  pub receive-IsMember :
      (packet : Packet) (node : Node)
      → IsMember node_id n node
      → IsMember node_id n (receive packet node)
  unfolding receive
  receive-IsMember packet node v =
      if_cases (IsMember node_id n) (accepts packet node) (λ _. v) (λ _. v)

  adopt-IsMember :
      (r : ℕ) (sound : Option ℕ) (node : Node)
      → IsMember node_id n node
      → IsMember node_id n (turn_stages r (adopt_sound_set sound node))
  unfolding turn_stages adopt_sound_set
  adopt-IsMember r none node v = v
  adopt-IsMember r (some sound) node v = v

module _ (hashing : Hashing) (node_id n : ℕ) where
  judged-IsMember :
      (node : Node) (stage : RoundStage) (j : Judgement)
      → IsMember node_id n node
      → Outcome hashing node stage j
      → IsMember node_id n j.node
  unfolding skip_stage commit_stage enter_halt_state halted_node emit_control_plane_event
  judged-IsMember node stage j v (skipped m made) = rw made v
  judged-IsMember node stage j v (commits row sound m cs is_sound within made) = rw made v
  judged-IsMember node stage j v (halts reason m why made) = rw made (
    v.0,
    v.1,
    all-snoc (is_own node_id) node.control_plane_event_outbox
        (node_halted node.node_id (
          build_halt_record node stage (observation_rows node stage)
            (lookup_or node.node_id 0 stage.rows) reason))
        (ground arith) v.2,
  )

  configure-IsMember :
      (r : ℕ) (node : Node)
      → IsMember node_id n node
      → IsMember node_id n (configure hashing r node)
  unfolding configure
  configure-IsMember r node v = configured-IsMember hashing node_id n r node v

  -- A round leaves a node who it is, and what it emits is about itself.
  pub advance_round-IsMember :
      (r : ℕ) (node : Node)
      → IsMember node_id n node
      → IsMember node_id n (advance_round hashing r node).0
  unfolding advance_round
  advance_round-IsMember r node v =
      let started = record node { current_round = r } in
      let configured = configure hashing r started in
      let shifted = record configured { previous_stage = configured.current_stage } in
      let j = evaluate_round_boundary hashing shifted (some configured.previous_stage) in
      let w = configure-IsMember r started v in
      if_cases (λ (o : Node × NodeRoundResult). IsMember node_id n o.0) (crashed_now r started)
        (λ _. v)
        (λ _.
          if_cases (λ (o : Node × NodeRoundResult). IsMember node_id n o.0)
            (not (participates configured)) (λ _. w)
            (λ _. rw (run_round-node hashing r configured) (
              adopt-IsMember node_id n r j.sound_set j.node (
                judged-IsMember shifted configured.previous_stage j w
                  (evaluate-Outcome hashing shifted configured.previous_stage)))))
