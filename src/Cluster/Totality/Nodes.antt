-- ===== src/Cluster/Totality/Nodes.antt =====
-- The nodes of a round in sim/runtime/cluster.py raise nothing, and send to nodes of the cluster.
use syncons.Base.{
  ℕ, suc, ◌+◌, ◌*◌, ◌≤◌, ◌<◌, ◌≡◌, refl, ap, subst, true, not, Option, none, some, List, [], ◌∷◌,
  arith, ltb, ◌==◌, if_cases, all, all-filter, all-filter_same, all-and, length,
}
use syncons.Bitmap.{bitmap_members}
use syncons.Bitmap.Sets.{bitmap_members_below}
use syncons.Protocol.{Event, CommittedRound, OutboundPacket, SimulationTiming}
use syncons.Node.{Node, pull_control_plane_events}
use syncons.Node.Digest.{Hashing}
use syncons.Node.Identity.{IsMember, is_own}
use syncons.Node.Round.{advance_round, default_destinations}
use syncons.Node.Round.Advance.{advance_round-Speaks}
use syncons.Node.Round.Identity.{crash-IsMember, advance_round-IsMember}
use syncons.Control.{ControlPlane}
use syncons.Control.Events.{observe_event}
use syncons.Control.Validity.{IsValid, Returns}
use syncons.Control.Validity.Events.{observe_event-Returns}
use syncons.Control.Validity.Clock.{IsValid-initialise}
use syncons.Cluster.{Settings, Cluster, forward, submit_control_plane_event, submit_events}
use syncons.Cluster.Network.{Network, advance_network}
use syncons.Cluster.Rounds.{
  Progress, keep_commits, enqueue, faulted, turn_node, turn_nodes, close_round,
}
use syncons.Node.Round.Reachable.{steps, advances, crashes, is_pulled}
use syncons.Cluster.Totality.{IsPlaced, AreMembers, IsSound, Handles, Yields, bind-Yields}
use syncons.Cluster.Totality.Deliveries.{schedule_to-all_fit, InOrder, advance_network-Yields}

pub Returns-Yields : (n : ℕ) (o : Option ControlPlane) → Returns n o → Yields (IsValid n) o
Returns-Yields n none h = h
Returns-Yields n (some cp) h = h

submit_events-Yields :
    (n i : ℕ) (timing : SimulationTiming) (r start_ns : ℕ) (events : List Event) (cluster : Cluster)
    → i < n
    → all (is_own i) events ≡ true
    → Handles n cluster
    → Yields (Handles n) (submit_events timing r start_ns events cluster)
unfolding submit_events submit_control_plane_event forward
submit_events-Yields n i timing r start_ns [] cluster inside own v = v
submit_events-Yields n i timing r start_ns (event ∷ events) cluster inside own v =
    let forwarded = forward timing r start_ns event in
    bind-Yields (Handles n) (Handles n) (submit_control_plane_event forwarded cluster) _
      (bind-Yields (IsValid n) (Handles n) (observe_event forwarded cluster.control_plane) _
        (Returns-Yields n _
          (observe_event-Returns n forwarded cluster.control_plane (ground arith) v.0))
        (λ cp w. (w, v.1)))
      (λ submitted w.
        submit_events-Yields n i timing r start_ns events submitted inside (ground arith) w)

-- A node sends to other nodes of the cluster only.
enqueue-Handles :
    (hashing : Hashing) (i n r : ℕ) (node : Node) (cluster : Cluster) (o : Option OutboundPacket)
    → (advance_round hashing r node).1.outbound ≡ o
    → IsMember i n (advance_round hashing r node).0
    → Handles n cluster
    → Handles n (enqueue o cluster)
unfolding enqueue default_destinations
enqueue-Handles hashing i n r node cluster none e m v = v
enqueue-Handles hashing i n r node cluster (some o) e m v =
    let after = (advance_round hashing r node).0 in
    let members = bitmap_members after.installed_membership after.node_count in
    let below = λ (k : ℕ). ltb k n in
    let other = λ (k : ℕ). not (k == after.node_id) in
    let speaks = advance_round-Speaks hashing r node o e in
    (
      v.0,
      schedule_to-all_fit n o.packet o.destinations cluster.scheduled_deliveries
          (rw
            (
              speaks.to,
              speaks.source,
              all-and below other (default_destinations after),
              all-filter_same other members,
              all-filter below other members (
                  subst (λ k. all (λ m. ltb m k) members ≡ true) m.1
                    (bitmap_members_below after.installed_membership after.node_count)),
            )
            refl)
          v.1,
    )

keep_commits-Handles :
    (n : ℕ) (settings : Settings) (i start_ns : ℕ) (commits : List CommittedRound)
    (progress : Progress)
    → Handles n progress.cluster
    → Handles n (keep_commits settings i start_ns commits progress).cluster
unfolding keep_commits
keep_commits-Handles n settings i start_ns commits progress v =
    if_cases (λ (p : Progress). Handles n p.cluster) (length commits == 0) (λ _. v) (λ _. v)

-- A turn of the loop over the nodes, at the node with this number.
abbrev IsTurned : Hashing → ℕ → ℕ → Node × Progress → Type 0
IsTurned hashing i n (node, progress) = IsPlaced hashing i n node × Handles n progress.cluster

-- The loop over the nodes from this number on.
abbrev pub AreTurned : Hashing → ℕ → ℕ → ℕ → List Node × Progress → Type 0
AreTurned hashing i n count (nodes, progress) =
    AreMembers hashing i n nodes × (length nodes ≡ count) × Handles n progress.cluster

pub close_round-Yields :
    (hashing : Hashing) (settings : Settings) (n r : ℕ) (nodes : List Node) (progress : Progress)
    → AreTurned hashing 0 n n (nodes, progress)
    → Yields (IsSound hashing n) (close_round settings r nodes progress)
unfolding close_round
close_round-Yields hashing settings n r nodes progress (m, count, v) =
    let network : Network = record {
      nodes = nodes;
      scheduled = progress.cluster.scheduled_deliveries;
    } in
    bind-Yields (InOrder hashing n) (IsSound hashing n)
      (advance_network settings.network_fault_model r network) _
      (advance_network-Yields hashing n settings.network_fault_model r network
        (record { members = m; count = count; in_range = v.1 }))
      (λ after w.
        (IsValid-initialise n progress.cluster.control_plane v.0, (w.members, w.count, w.in_range)))

module _ (hashing : Hashing) (settings : Settings) where
  faulted-IsPlaced :
      (i n r : ℕ) (node : Node)
      → IsPlaced hashing i n node
      → IsPlaced hashing i n (faulted settings r node)
  unfolding faulted
  faulted-IsPlaced i n r node v =
      if_cases (IsPlaced hashing i n) (not (settings.node_fault_model node.node_id r))
        (λ _. (crash-IsMember i n r node v.0, steps v.1 (crashes r refl))) (λ _. v)

  advanced-IsPlaced :
      (i n r : ℕ) (node : Node)
      → IsPlaced hashing i n node
      → IsPlaced hashing i n (advance_round hashing r node).0
  advanced-IsPlaced i n r node v =
      (advance_round-IsMember hashing i n r node v.0, steps v.1 (advances r refl))

  turn_node-Yields :
      (i n r : ℕ) (node : Node) (progress : Progress)
      → i < n
      → IsPlaced hashing i n node
      → Handles n progress.cluster
      → Yields (IsTurned hashing i n) (turn_node hashing settings r node progress)
  unfolding turn_node pull_control_plane_events
  turn_node-Yields i n r node progress inside m v =
      let start_ns = r * settings.timing.round_length_ns in
      let begun = faulted settings r node in
      let advanced = (advance_round hashing r begun).0 in
      let result = (advance_round hashing r begun).1 in
      let w = advanced-IsPlaced i n r begun (faulted-IsPlaced i n r node m) in
      let kept = keep_commits settings advanced.node_id start_ns result.new_commits progress in
      bind-Yields (Handles n) (IsTurned hashing i n)
        (submit_events settings.timing r start_ns advanced.control_plane_event_outbox kept.cluster)
        _
        (submit_events-Yields n i settings.timing r start_ns advanced.control_plane_event_outbox
          kept.cluster inside w.0.2
          (keep_commits-Handles n settings advanced.node_id start_ns result.new_commits progress v))
        (λ forwarded x. (
          ((w.0.0, w.0.1, refl), steps w.1 (is_pulled refl)),
          enqueue-Handles hashing i n r begun forwarded result.outbound refl w.0 x,
        ))

  pub turn_nodes-Yields :
      (i n r : ℕ) (nodes : List Node) (progress : Progress)
      → i + length nodes ≤ n
      → AreMembers hashing i n nodes
      → Handles n progress.cluster
      → Yields (AreTurned hashing i n (length nodes)) (turn_nodes hashing settings r nodes progress)
  unfolding turn_nodes
  turn_nodes-Yields i n r [] progress inside m v = (tt, refl, v)
  turn_nodes-Yields i n r (node ∷ nodes) progress inside m v =
      bind-Yields (IsTurned hashing i n) (AreTurned hashing i n (suc (length nodes)))
        (turn_node hashing settings r node progress) _
        (turn_node-Yields i n r node progress (omega arith) m.0 v)
        (λ turned w.
          bind-Yields (AreTurned hashing (suc i) n (length nodes))
            (AreTurned hashing i n (suc (length nodes)))
            (turn_nodes hashing settings r nodes turned.1) _
            (turn_nodes-Yields (suc i) n r nodes turned.1 (omega arith) m.1 w.1)
            (λ rest x. ((w.0, x.0), ap suc x.1, x.2)))
