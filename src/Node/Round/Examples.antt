-- ===== src/Node/Round/Examples.antt =====
-- Runs of a round, and instances of its laws.
use syncons.Base.{◌≡◌, ◌≢◌, refl, ◌⊎◌, none, some, [], ◌∷◌, arith}
use syncons.Bitmap.{has_bit, bitmap_members}
use syncons.Protocol.{Packet, OutboundPacket}
use syncons.Node.{Node, new_node}
use syncons.Node.Digest.{digest_for_committed_rounds}
use syncons.Node.Samples.{tally, node_at, full_stage, payload}
use syncons.Node.Config.{activate_pending_config_if_due, pull_control_plane_update}
use syncons.Node.Boundary.{evaluate_round_boundary, skip_stage}
use syncons.Node.Round.{receive, advance_round, configure, crashed_now, run_round, turn_stages}
use syncons.Node.Round.Packets.{IsCurrent, IsRecorded, receive_lem}
use syncons.Node.Round.Advance.{entered, Speaks, advance_round-Speaks}
use syncons.Node.Round.Ledger.{
  Progresses, Digests, extended, advance_round-Progresses, advance_round-digest,
}
use syncons.Node.Round.Reachable.{
  NodeStep, advances, receives, Reachable, starts, steps, IsHealthy, IsExpected, new_node-IsHealthy,
  NodeStep-IsHealthy, Reachable-IsExpected,
}

abbrev first : Node
first = (advance_round tally 0 (node_at 0)).0

abbrev hello : Packet
hello = record { round_id = 0; src_id = 1; run_id = 0; row = 0; payload = "cmd" }

first_id : first.node_id ≡ 0
unfolding advance_round run_round evaluate_round_boundary skip_stage pull_control_plane_update
    activate_pending_config_if_due has_bit bitmap_members turn_stages new_node
first_id = refl

first_step : NodeStep tally (node_at 0) first
first_step = advances 0 refl

hello_step : NodeStep tally first (receive hello first)
hello_step = receives hello one_is_not_zero refl
  where
    one_is_not_zero : hello.src_id ≢ first.node_id
    one_is_not_zero = omega (arith, first_id)

reached : Reachable tally (receive hello first)
unfolding new_node
reached = steps (steps (starts "" 0 3 payload) first_step) hello_step

abbrev first_outbound : OutboundPacket
first_outbound = record {
  packet = record { round_id = 0; src_id = 0; run_id = 0; row = 0; payload = "cmd" };
  destinations = 1 ∷ 2 ∷ [];
}

first_packet : (advance_round tally 0 (node_at 0)).1.outbound ≡ some first_outbound
unfolding advance_round run_round evaluate_round_boundary skip_stage pull_control_plane_update
    activate_pending_config_if_due has_bit bitmap_members turn_stages new_node
first_packet = refl

advance_round-Speaks_example :
    Speaks 0
      (entered tally 0 (node_at 0)).current_stage.row
      (advance_round tally 0 (node_at 0)).0
      first_outbound
advance_round-Speaks_example = advance_round-Speaks tally 0 (node_at 0) first_outbound first_packet

-- Node 0 at the boundary that judges the full stage.
abbrev judging : Node
unfolding new_node
judging = record (node_at 0) { previous_stage = full_stage; current_round = 1 }

advance_round-Progresses_example :
    Progresses (entered tally 2 judging) (advance_round tally 2 judging)
advance_round-Progresses_example = advance_round-Progresses tally 2 judging

entered_digest : Digests tally [] (entered tally 2 judging)
unfolding configure crashed_now pull_control_plane_update activate_pending_config_if_due
    digest_for_committed_rounds new_node
entered_digest = refl

advance_round-digest_example :
    let (after, result) = advance_round tally 2 judging in
    Digests tally (extended [] (some 8_000) none result.new_commits) after
advance_round-digest_example =
    advance_round-digest tally 2 judging [] (some 8_000) none entered_digest

receive_lem_example :
    (IsCurrent hello judging × IsRecorded hello judging (receive hello judging))
    ⊎ ((¬ IsCurrent hello judging) × (receive hello judging ≡ judging))
receive_lem_example = receive_lem hello judging

IsHealthy-node_at : IsHealthy (node_at 0)
unfolding new_node
IsHealthy-node_at = new_node-IsHealthy "" 0 3 payload

NodeStep-IsHealthy_example : IsHealthy first
NodeStep-IsHealthy_example = NodeStep-IsHealthy tally (node_at 0) first first_step IsHealthy-node_at

Reachable-IsExpected_example : IsExpected (receive hello first).status_reason
Reachable-IsExpected_example = Reachable-IsExpected tally (receive hello first) reached
