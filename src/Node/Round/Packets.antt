-- ===== src/Node/Round/Packets.antt =====
-- What `receive` and `default_destinations` of sim/protocol/node.py do with packets.
use syncons.Base.{
  ℕ, ◌^◌, bit_or, ◌≡◌, refl, ◌⊎◌, inl, inr, true, not, ◌&&◌, ◌||◌, some, arith, ltb, ◌==◌, lookup,
  elem, insert, lookup-insert, elem-filter, Bool-cases, if◌then◌else◌,
}
use syncons.Bitmap.{has_bit, bitmap_members}
use syncons.Bitmap.Laws.{has_bit-or, has_bit-two_pow}
use syncons.Bitmap.Sets.{elem-bitmap_members}
use syncons.Protocol.{running, active, Packet}
use syncons.Node.{Node}
use syncons.Node.Round.{accepts, receive, default_destinations}

-- The conditions under which a packet counts.
pub record IsCurrent (packet : Packet) (node : Node) : Type 0 where
  pub is_running : node.status ≡ running
  pub is_active : node.membership_state ≡ active
  pub trusted : has_bit node.current_sound_set packet.src_id ≡ true
  pub same_run : packet.run_id ≡ node.run_id
  pub same_round : packet.round_id ≡ node.current_round

accepts-IsCurrent :
    (packet : Packet) (node : Node) → accepts packet node ≡ true → IsCurrent packet node
unfolding accepts
accepts-IsCurrent packet node h = ground arith

IsCurrent-accepts :
    (packet : Packet) (node : Node) → IsCurrent packet node → accepts packet node ≡ true
unfolding accepts
IsCurrent-accepts packet node c = ground arith

-- What a packet that counts leaves behind: its sender is heard in the current stage, with its
-- proposal, and its row is evidence in the stage before. Nothing else moves.
pub record IsRecorded (packet : Packet) (before after : Node) : Type 0 where
  pub heard :
      (m : ℕ)
      → has_bit after.current_stage.row m
        ≡ (has_bit before.current_stage.row m || m == packet.src_id)
  pub proposed :
      (m : ℕ)
      → lookup m after.current_stage.proposals ≡ (
          if m == packet.src_id
          then some packet.payload
          else lookup m before.current_stage.proposals)
  pub witnessed :
      (m : ℕ)
      → lookup m after.previous_stage.rows
        ≡ (if m == packet.src_id then some packet.row else lookup m before.previous_stage.rows)
  pub rest : after ≡ record before {
    current_stage = record (before.current_stage) {
      row = after.current_stage.row;
      proposals = after.current_stage.proposals;
    };
    previous_stage = record (before.previous_stage) { rows = after.previous_stage.rows };
  }

-- A packet of this round, this run, and a sender in the sound set is recorded by a running,
-- active node: in row and proposals of the current stage and in the rows of the previous one, and
-- all else stays as it was; any other packet changes nothing.
pub receive_lem :
    (packet : Packet) (node : Node)
    → (IsCurrent packet node × IsRecorded packet node (receive packet node))
      ⊎ ((¬ IsCurrent packet node) × (receive packet node ≡ node))
unfolding receive
receive_lem packet node = elim (Bool-cases (accepts packet node)) [
  | inl e ↦ rw e (inl (accepts-IsCurrent packet node e, recorded))
  | inr e ↦ rw e (inr (λ c. cc (IsCurrent-accepts packet node c), refl))
]
  where
    after : Node
    after = record node {
      current_stage = record (node.current_stage) {
        row = bit_or node.current_stage.row (2 ^ packet.src_id);
        proposals = insert packet.src_id packet.payload node.current_stage.proposals;
      };
      previous_stage = record (node.previous_stage) {
        rows = insert packet.src_id packet.row node.previous_stage.rows;
      };
    }

    recorded : IsRecorded packet node after
    recorded = record {
      heard = λ m. ground (
        arith,
        has_bit-or node.current_stage.row (2 ^ packet.src_id) m,
        has_bit-two_pow packet.src_id m,
      );
      proposed = λ m. lookup-insert m packet.src_id packet.payload node.current_stage.proposals;
      witnessed = λ m. lookup-insert m packet.src_id packet.row node.previous_stage.rows;
      rest = refl;
    }

-- A node sends to every other installed member of the cluster, whatever its sound set is.
pub elem-default_destinations :
    (node : Node) (m : ℕ)
    → elem m (default_destinations node)
      ≡ (not (m == node.node_id) && (has_bit node.installed_membership m && ltb m node.node_count))
unfolding default_destinations
elem-default_destinations node m = ground (
  arith,
  elem-filter m (λ k. not (k == node.node_id))
      (bitmap_members node.installed_membership node.node_count),
  elem-bitmap_members node.installed_membership node.node_count m,
)
