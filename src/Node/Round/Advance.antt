-- ===== src/Node/Round/Advance.antt =====
-- What a round of sim/protocol/node.py sends, commits and keeps.
use mathlib.Core.Option.{some-injective}
use syncons.Base.{
  ℕ, ◌≡◌, refl, subst, inl, inr, false, not, ◌&&◌, some, arith, ltb, ◌==◌, if◌then◌else◌,
  Bool-cases, if_cases, elem, ==_refl,
}
use syncons.Protocol.{running, active, OutboundPacket, NodeRoundResult, RoundStage}
use syncons.Node.{Node}
use syncons.Node.Round.Packets.{elem-default_destinations}
use syncons.Bitmap.{has_bit}
use syncons.Node.Digest.{Hashing}
use syncons.Node.Boundary.{
  skip_stage, Judgement, evaluate_round_boundary, commit_stage, enter_halt_state,
}
use syncons.Node.Boundary.Outcomes.{Outcome, skipped, commits, halts, evaluate-Outcome}
use syncons.Node.Round.{
  no_result, participates, outbound_packet, default_destinations, adopt_sound_set, turn_stages,
  finish_round, crashed_now, run_round, configure, advance_round,
}

-- The node that a round starts from: configured, unless it crashed in this very round.
abbrev pub entered : Hashing → ℕ → Node → Node
entered hashing r node =
    let started = record node { current_round = r } in
    if crashed_now r started then started else configure hashing r started

-- What a node that sends has become, and what it sends: `row` is the observation of the stage that
-- it gathered packets in, and it sends to every other installed member.
pub record Speaks (r row : ℕ) (after : Node) (o : OutboundPacket) : Type 0 where
  pub is_running : after.status ≡ running
  pub is_active : after.membership_state ≡ active
  pub round : o.packet.round_id ≡ r
  pub source : o.packet.src_id ≡ after.node_id
  pub run : o.packet.run_id ≡ after.run_id
  pub observation : o.packet.row ≡ row
  pub kept : after.previous_stage.row ≡ row
  pub proposal : o.packet.payload ≡ after.payload_factory after.node_id r
  pub to : o.destinations ≡ default_destinations after
  pub others :
      (m : ℕ)
      → elem m o.destinations ≡ (
          not (m == after.node_id)
          && (has_bit after.installed_membership m && ltb m after.node_count))

outbound_packet-Speaks :
    (r : ℕ) (node : Node)
    → node.status ≡ running
    → node.membership_state ≡ active
    → let after = turn_stages r node in
      Speaks r node.previous_stage.row after (outbound_packet r after)
unfolding outbound_packet turn_stages
outbound_packet-Speaks r node run act = record {
  is_running = run;
  is_active = act;
  round = refl;
  source = refl;
  run = refl;
  observation = refl;
  kept = refl;
  proposal = ground (arith, ==_refl node.node_id);
  to = refl;
  others = elem-default_destinations node;
}

pub participates_state :
    (node : Node)
    → not (participates node) ≡ false
    → (node.status ≡ running) × (node.membership_state ≡ active)
unfolding participates
participates_state node h = ground arith

-- The end of a round, from its judgement.
unfoldable pub played : ℕ → Judgement → Node × NodeRoundResult
played r j = finish_round r j (turn_stages r (adopt_sound_set j.sound_set j.node))

module _ (hashing : Hashing) where
  played-Speaks :
      (r : ℕ) (node : Node) (stage : RoundStage) (j : Judgement) (o : OutboundPacket)
      → Outcome hashing node stage j
      → node.status ≡ running
      → node.membership_state ≡ active
      → (played r j).1.outbound ≡ some o
      → Speaks r node.previous_stage.row (played r j).0 o
  unfolding played finish_round skip_stage commit_stage enter_halt_state adopt_sound_set
  played-Speaks r node stage j o (skipped n made) run act = rw made (λ e.
      subst (Speaks r node.previous_stage.row (turn_stages r node)) (some-injective _ _ e)
        (outbound_packet-Speaks r node run act))
  played-Speaks r node stage j o (commits row sound n cs is_sound within made) run act =
      let after = adopt_sound_set (some sound) (commit_stage hashing node stage row sound).node in
      rw made (λ e.
        subst (Speaks r node.previous_stage.row (turn_stages r after)) (some-injective _ _ e)
          (outbound_packet-Speaks r after run act))
  played-Speaks r node stage j o (halts reason n why made) run act = rw made (λ e. cc)

  -- A node that sends in a round runs and is active at its end. It sends in its own name and run
  -- the row of the stage it was gathering packets in when the round started, its configuration
  -- steps done, which is now its previous stage, with the proposal that its payload factory makes
  -- for this round; and just the other installed members are the destinations.
  pub advance_round-Speaks :
      (r : ℕ) (node : Node) (o : OutboundPacket)
      → (advance_round hashing r node).1.outbound ≡ some o
      → Speaks r (entered hashing r node).current_stage.row (advance_round hashing r node).0 o
  unfolding advance_round run_round no_result played
  advance_round-Speaks r node o =
      let started = record node { current_round = r } in
      let configured = configure hashing r started in
      let shifted = record configured { previous_stage = configured.current_stage } in
      let P : Node × NodeRoundResult → Type 0 =
        λ p. p.1.outbound ≡ some o → Speaks r configured.current_stage.row p.0 o in
      elim (Bool-cases (crashed_now r started)) [
        | inl crash ↦ rw crash (λ e. cc)
        | inr sound ↦ rw sound (
            if_cases P (not (participates configured)) (λ _ e. cc)
              (λ h.
                let (run, act) = participates_state configured h in
                played-Speaks r shifted configured.previous_stage
                  (evaluate_round_boundary hashing shifted (some configured.previous_stage)) o
                  (evaluate-Outcome hashing shifted configured.previous_stage) run act))
      ]
