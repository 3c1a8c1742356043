-- ===== src/Node/Round.antt =====
-- One round of a node: `advance_round`, `receive` and `crash` of sim/protocol/node.py.
pub mod Advance
pub mod Ledger
pub mod Packets
pub mod Consistency
pub mod Reachable
pub mod Identity
mod Examples
use syncons.Base.{
  ℕ, ℤ, pos, ◌^◌, bit_or, Bool, true, false, not, ◌&&◌, ◌||◌, Option, none, some, List, [], ◌∷◌,
  String, if◌then◌else◌, ltb, ◌==◌, option_eq, filter, insert, lookup_or,
}
use syncons.Bitmap.{has_bit, bitmap_members}
use syncons.Protocol.{
  NodeStatus, running, halted, crashed, MembershipState, active, Packet, OutboundPacket, RoundStage,
  NodeRoundResult, CommittedRound, StatusReason, crash_fault, node_crashed,
}
use syncons.Protocol.Equality.{node_status_eq, membership_eq}
use syncons.Node.{Node, emit_control_plane_event}
use syncons.Node.Boundary.{Decision, halt_decision, Judgement, evaluate_round_boundary}
use syncons.Node.Config.{activate_pending_config_if_due, pull_control_plane_update}
use syncons.Node.Digest.{Hashing}

pub new_current_stage : ℕ → Node → RoundStage
new_current_stage round_id node = record {
  round_id = pos round_id;
  membership_epoch = node.installed_membership_epoch;
  installed_membership = node.installed_membership;
  row = 2 ^ node.node_id;
  proposals = (node.node_id, node.payload_factory node.node_id round_id) ∷ [];
  rows = [];
}

-- The whole installed membership but the node itself.
unfoldable pub default_destinations : Node → List ℕ
default_destinations node =
    filter (λ member. not (member == node.node_id))
      (bitmap_members node.installed_membership node.node_count)

pub no_result : NodeRoundResult
no_result = record { outbound = none; new_commits = [] }

-- Step 2 of `advance_round`: whether the node takes part.
pub participates : Node → Bool
participates node =
    node_status_eq node.status running
    && (membership_eq node.membership_state active && has_bit node.current_sound_set node.node_id)

-- The packet of step 5.
pub outbound_packet : ℕ → Node → OutboundPacket
unfolding default_destinations
outbound_packet new_round node = record {
  packet = record {
    round_id = new_round;
    src_id = node.node_id;
    run_id = node.run_id;
    row = node.previous_stage.row;
    payload = lookup_or node.node_id "" node.current_stage.proposals;
  };
  destinations = default_destinations node;
}

-- The sound set that a boundary hands on.
pub adopt_sound_set : Option ℕ → Node → Node
adopt_sound_set none node = node
adopt_sound_set (some sound_set) node = record node { current_sound_set = sound_set }

-- The self row goes into the matrix of the stage that has just ended, and a new stage opens.
pub turn_stages : ℕ → Node → Node
unfolding new_current_stage
turn_stages new_round node = record node {
  previous_stage = record (node.previous_stage) {
    rows = insert node.node_id node.previous_stage.row node.previous_stage.rows;
  };
  current_stage = new_current_stage new_round node;
}

pub is_halt : Decision → Bool
is_halt halt_decision = true
is_halt _ = false

-- Steps 4 and 5.
pub finish_round : ℕ → Judgement → Node → Node × NodeRoundResult
unfolding is_halt outbound_packet
finish_round new_round judgement node =
    if is_halt judgement.decision
    then (node, record { outbound = none; new_commits = judgement.new_commits })
    else (
      node,
      record {
        outbound = some (outbound_packet new_round node);
        new_commits = judgement.new_commits;
      },
    )

-- The node whose status and halted round say that it crashed in this very round.
pub crashed_now : ℕ → Node → Bool
crashed_now new_round node =
    node_status_eq node.status crashed && option_eq ◌==◌ node.halted_round (some new_round)

module _ (hashing : Hashing) where
  -- Steps 3 to 5, for a node that takes part.
  pub run_round : ℕ → Node → Node × NodeRoundResult
  unfolding adopt_sound_set turn_stages finish_round
  run_round new_round node =
      let judged_stage = node.previous_stage in
      let shifted = record node { previous_stage = node.current_stage } in
      let judgement = evaluate_round_boundary hashing shifted (some judged_stage) in
      finish_round new_round judgement
        (turn_stages new_round (adopt_sound_set judgement.sound_set judgement.node))

  -- Steps 1 and 2 decide which configuration the round is run under, and whether.
  pub configure : ℕ → Node → Node
  configure new_round node =
      pull_control_plane_update hashing (activate_pending_config_if_due new_round node)

  pub advance_round : ℕ → Node → Node × NodeRoundResult
  unfolding run_round configure no_result crashed_now participates
  advance_round new_round node =
      let started = record node { current_round = new_round } in
      let configured = configure new_round started in
      if crashed_now new_round started
      then (started, no_result)
      else if not (participates configured)
      then (configured, no_result)
      else run_round new_round configured

-- The guards of `receive`, in its order.
pub accepts : Packet → Node → Bool
accepts packet node =
    node_status_eq node.status running
    && (membership_eq node.membership_state active
        && (has_bit node.current_sound_set packet.src_id
            && (packet.run_id == node.run_id && packet.round_id == node.current_round)))

-- A packet of another round changes nothing: the test at the end of the method only returns.
pub receive : Packet → Node → Node
unfolding accepts
receive packet node =
    if accepts packet node
    then record node {
      current_stage = record (node.current_stage) {
        row = bit_or node.current_stage.row (2 ^ packet.src_id);
        proposals = insert packet.src_id packet.payload node.current_stage.proposals;
      };
      previous_stage = record (node.previous_stage) {
        rows = insert packet.src_id packet.row node.previous_stage.rows;
      };
    }
    else node

pub crash : ℕ → Node → Node
unfolding emit_control_plane_event
crash round_id node =
    if node_status_eq node.status running
    then emit_control_plane_event (node_crashed node.node_id) (record node {
      status = crashed;
      status_reason = some crash_fault;
      halted_round = some round_id;
    })
    else node
