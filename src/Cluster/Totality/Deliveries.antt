-- ===== src/Cluster/Totality/Deliveries.antt =====
-- `_advance_network` of sim/runtime/cluster.py raises nothing, and sends packets only to nodes of
-- the cluster, if the schedule did so before.
use syncons.Base.{
  ℕ, zero, suc, ◌+◌, ◌<◌, ◌≡◌, ◌≢◌, refl, true, false, Option, none, some, List, [], ◌∷◌, ◌++◌,
  Dict, arith, ltb, if_cases, all, all-append, all-snoc, length, lookup_or, erase, ◌∙◌, ap,
}
use syncons.Protocol.{Packet, Delivery, DeliveryCopy, NetworkFaultModel}
use syncons.Node.{Node}
use syncons.Node.Digest.{Hashing}
use syncons.Node.Round.Identity.{receive-IsMember}
use syncons.Node.Round.Reachable.{steps, receives}
use syncons.Cluster.{InFlight}
use syncons.Cluster.Network.{
  materialize_packet, materialize_copy, schedule_packet_delivery, schedule_to, Fanout, route,
  route_extra_rounds, route_copies, route_to, apply_fault, receive_at, Network, deliver_applied,
  deliver_fresh, deliver, advance_network,
}
use syncons.Cluster.Network.Passes.{sweep, receive_all, two_passes, advance_network-two_passes}
use syncons.Cluster.Totality.{
  AreMembers, is_peer, fits, all_fit, Yields, bind-Yields, all-lookup_or, all-insert, all-erase,
}

module _ (n : ℕ) where
  schedule-all_fit :
      (r : ℕ) (item : InFlight) (scheduled : Dict (List InFlight))
      → fits n item ≡ true
      → all_fit n scheduled ≡ true
      → all_fit n (schedule_packet_delivery r item scheduled) ≡ true
  unfolding schedule_packet_delivery
  schedule-all_fit r item scheduled h k =
      all-insert (all (fits n)) r (lookup_or r [] scheduled ++ item ∷ []) scheduled
        (all-snoc (fits n) (lookup_or r [] scheduled) item h
          (all-lookup_or (all (fits n)) r [] scheduled refl k))
        k

  pub schedule_to-all_fit :
      (packet : Packet) (destinations : List ℕ) (scheduled : Dict (List InFlight))
      → all (is_peer n packet.src_id) destinations ≡ true
      → all_fit n scheduled ≡ true
      → all_fit n (schedule_to packet destinations scheduled) ≡ true
  unfolding schedule_to
  schedule_to-all_fit packet [] scheduled h k = k
  schedule_to-all_fit packet (dst ∷ destinations) scheduled h k =
      schedule_to-all_fit packet destinations _ (ground arith) (
        schedule-all_fit packet.round_id
          (record { dst = dst; packet = packet; fault_applied = false }) scheduled (ground arith) k)

  -- All that a turn puts behind the list or schedules goes to nodes of the cluster.
  record Fits (f : Fanout) : Type 0 where
    now_fit : all (fits n) f.now ≡ true
    scheduled_fit : all_fit n f.scheduled ≡ true

  route-Fits :
      (r t : ℕ) (item : InFlight) (f : Fanout)
      → fits n item ≡ true
      → Fits f
      → Fits (route r t item f)
  unfolding route
  route-Fits r t item f h k =
      if_cases Fits (ltb r t)
        (λ _. record {
          now_fit = k.now_fit;
          scheduled_fit = schedule-all_fit t item f.scheduled h k.scheduled_fit;
        })
        (λ _. record {
          now_fit = all-snoc (fits n) f.now item h k.now_fit;
          scheduled_fit = k.scheduled_fit;
        })

  route_extra_rounds-Fits :
      (rounds : List ℕ) (item : InFlight) (f : Fanout)
      → fits n item ≡ true
      → Fits f
      → Fits (route_extra_rounds rounds item f)
  unfolding route_extra_rounds
  route_extra_rounds-Fits [] item f h k = k
  route_extra_rounds-Fits (t ∷ rounds) item f h k =
      route_extra_rounds-Fits rounds item _ h (record {
        now_fit = k.now_fit;
        scheduled_fit = schedule-all_fit t item f.scheduled h k.scheduled_fit;
      })

  route_copies-Fits :
      (r dst : ℕ) (packet : Packet) (copies : List DeliveryCopy) (f : Fanout)
      → is_peer n packet.src_id dst ≡ true
      → Fits f
      → Fits (route_copies r dst packet copies f)
  unfolding route_copies materialize_copy
  route_copies-Fits r dst packet [] f h k = k
  route_copies-Fits r dst packet (copy ∷ copies) f h k =
      route_copies-Fits r dst packet copies _ h (route-Fits r copy.deliver_round _ f h k)

  route_to-Fits :
      (r : ℕ) (item : InFlight) (delivery : Delivery) (target : Option ℕ) (f : Fanout)
      → fits n item ≡ true
      → Fits f
      → Fits (route_to r item delivery target f)
  unfolding route_to materialize_packet
  route_to-Fits r item delivery none f h k = k
  route_to-Fits r item delivery (some target) f h k =
      route_copies-Fits r item.dst item.packet delivery.extra_copies _ h
        (route_extra_rounds-Fits delivery.extra_deliver_rounds _ _ h (route-Fits r target _ f h k))

module _ (hashing : Hashing) (n : ℕ) where
  -- The nodes after a packet has been received.
  abbrev AreReceived : ℕ → ℕ → List Node → Type 0
  AreReceived first count received = AreMembers hashing first n received × (length received ≡ count)

  receive_at-Yields :
      (first dst : ℕ) (packet : Packet) (nodes : List Node)
      → dst < length nodes
      → packet.src_id ≢ first + dst
      → AreMembers hashing first n nodes
      → Yields (AreReceived first (length nodes)) (receive_at dst packet nodes)
  unfolding receive_at
  receive_at-Yields first dst packet [] h other v = absurd (omega arith)
  receive_at-Yields first zero packet (node ∷ nodes) h other v = (
    (
      (
        receive-IsMember first n packet node v.0.0,
        steps v.0.1 (receives packet (λ e. other (omega (arith, e, v.0.0.0))) refl),
      ),
      v.1,
    ),
    refl,
  )
  receive_at-Yields first (suc dst) packet (node ∷ nodes) h other v =
      bind-Yields (AreReceived (suc first) (length nodes)) _ (receive_at dst packet nodes) _
        (receive_at-Yields (suc first) dst packet nodes (omega arith)
          (λ e. other (omega (arith, e))) v.1)
        (λ received w. ((v.0, w.0), ap suc w.1))

  pub record InOrder (network : Network) : Type 0 where
    pub members : AreMembers hashing 0 n network.nodes
    pub count : length network.nodes ≡ n
    pub in_range : all_fit n network.scheduled ≡ true

  -- What a turn puts behind the list goes to nodes, and the rest is in order.
  abbrev IsTurned : List InFlight × Network → Type 0
  IsTurned (added, after) = (all (fits n) added ≡ true) × InOrder after

  sent_on : (item : InFlight) → item.packet.src_id ≡ 0 + item.dst → fits n item ≡ true → ⊥
  sent_on item e h = ground arith

  deliver_applied-Yields :
      (item : InFlight) (network : Network)
      → fits n item ≡ true
      → InOrder network
      → Yields IsTurned (deliver_applied item network)
  unfolding deliver_applied
  deliver_applied-Yields item network h v =
      bind-Yields (AreReceived 0 (length network.nodes)) _
        (receive_at item.dst item.packet network.nodes) _
        (receive_at-Yields 0 item.dst item.packet network.nodes (ground (arith, v.count))
          (λ e. sent_on item e h) v.members)
        (λ nodes w. (refl, record { members = w.0; count = w.1 ∙ v.count; in_range = v.in_range }))

  deliver-Yields :
      (model : NetworkFaultModel) (r : ℕ) (item : InFlight) (network : Network)
      → fits n item ≡ true
      → InOrder network
      → Yields IsTurned (deliver model r item network)
  unfolding deliver deliver_fresh apply_fault
  deliver-Yields model r item network h v =
      if_cases (Yields IsTurned) item.fault_applied (λ _. deliver_applied-Yields item network h v)
        (λ _.
          let f =
            route_to-Fits n r item (model item.packet item.dst)
              (model item.packet item.dst).deliver_round
              (record { now = []; scheduled = network.scheduled }) h
              (record { now_fit = refl; scheduled_fit = v.in_range }) in
          (f.now_fit, record { members = v.members; count = v.count; in_range = f.scheduled_fit }))

  sweep-Yields :
      (model : NetworkFaultModel) (r : ℕ) (xs late : List InFlight) (network : Network)
      → all (fits n) xs ≡ true
      → all (fits n) late ≡ true
      → InOrder network
      → Yields IsTurned (sweep model r xs network late)
  unfolding sweep
  sweep-Yields model r [] late network h k v = (k, v)
  sweep-Yields model r (x ∷ xs) late network h k v =
      bind-Yields IsTurned IsTurned (deliver model r x network) _
        (deliver-Yields model r x network (ground arith) v)
        (λ p w.
          sweep-Yields model r xs (late ++ p.0) p.1 (ground arith)
            (ground (arith, all-append (fits n) late p.0, w.0)) w.1)

  receive_all-Yields :
      (late : List InFlight) (network : Network)
      → all (fits n) late ≡ true
      → InOrder network
      → Yields InOrder (receive_all late network)
  unfolding receive_all
  receive_all-Yields [] network h v = v
  receive_all-Yields (x ∷ late) network h v =
      bind-Yields IsTurned InOrder (deliver_applied x network) _
        (deliver_applied-Yields x network (ground arith) v)
        (λ p w. receive_all-Yields late p.1 (ground arith) w.1)

  -- The network has advanced, and all is in order as before.
  pub advance_network-Yields :
      (model : NetworkFaultModel) (r : ℕ) (network : Network)
      → InOrder network
      → Yields InOrder (advance_network model r network)
  unfolding two_passes
  advance_network-Yields model r network v =
      let deliveries = lookup_or r [] network.scheduled in
      let popped = record network { scheduled = erase r network.scheduled } in
      rw (advance_network-two_passes model r network) (
        bind-Yields IsTurned InOrder (sweep model r deliveries popped []) _
          (sweep-Yields model r deliveries [] popped
            (all-lookup_or (all (fits n)) r [] network.scheduled refl v.in_range) refl
            (record {
              members = v.members;
              count = v.count;
              in_range = all-erase (all (fits n)) r network.scheduled v.in_range;
            }))
          (λ p w. receive_all-Yields p.0 p.1 w.0 w.1))
