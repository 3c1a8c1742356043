-- ===== src/Node/Identity.antt =====
-- Who a node of sim/protocol/node.py is, and in whose name its events go out.
use syncons.Base.{ℕ, ◌≡◌, true, arith, Bool, ◌==◌, all, all-snoc}
use syncons.Protocol.{Event, event_node}
use syncons.Node.{Node, emit_control_plane_event}

-- The event is about this node.
abbrev pub is_own : ℕ → Event → Bool
is_own node_id event = event_node event == node_id

-- The node has this number in a cluster of this size, and all its events are about itself.
abbrev pub IsMember : ℕ → ℕ → Node → Type 0
IsMember node_id n node =
    (node.node_id ≡ node_id)
    × (node.node_count ≡ n)
    × (all (is_own node_id) node.control_plane_event_outbox ≡ true)

pub emit-IsMember :
    (node_id n : ℕ) (event : Event) (node : Node)
    → event_node event ≡ node.node_id
    → IsMember node_id n node
    → IsMember node_id n (emit_control_plane_event event node)
unfolding emit_control_plane_event
emit-IsMember node_id n event node e (i, c, own) =
    (i, c, all-snoc (is_own node_id) node.control_plane_event_outbox event (ground arith) own)
