-- ===== src/Cluster/Network.antt =====
-- Packets in flight in sim/runtime/cluster.py: `_schedule_packet_delivery` to `_advance_network`.
pub mod Routes
pub mod Passes
pub mod Alike
use syncons.Base.{
  ℕ, zero, suc, ◌+◌, Bool, true, false, Option, none, some, List, [], ◌∷◌, ◌++◌, Dict,
  if◌then◌else◌, ltb, length, lookup_or, insert, erase, String,
}
use syncons.Protocol.{Packet, OutboundPacket, Delivery, DeliveryCopy, NetworkFaultModel}
use syncons.Node.{Node}
use syncons.Node.Round.{receive}
use syncons.Cluster.{Cluster, InFlight}
use syncons.Control.{◌>>=◌}

unfoldable pub schedule_packet_delivery : ℕ → InFlight → Dict (List InFlight) → Dict (List InFlight)
schedule_packet_delivery deliver_round item scheduled =
    insert deliver_round (lookup_or deliver_round [] scheduled ++ item ∷ []) scheduled

-- `x if override is None else override`
abbrev pub overridden {ℓ} : {A : Type ℓ} → A → Option A → A
overridden x none = x
overridden x (some y) = y

-- `_materialize_packet` of a `Delivery`.
unfoldable pub materialize_packet : Packet → Delivery → Packet
materialize_packet packet delivery = record {
  round_id = overridden packet.round_id delivery.packet_round_override;
  src_id = packet.src_id;
  run_id = overridden packet.run_id delivery.run_id_override;
  row = overridden packet.row delivery.row_override;
  payload = overridden packet.payload delivery.payload_override;
}

-- `_materialize_packet` of a `DeliveryCopy`.
unfoldable pub materialize_copy : Packet → DeliveryCopy → Packet
materialize_copy packet copy = record {
  round_id = overridden packet.round_id copy.packet_round_override;
  src_id = packet.src_id;
  run_id = overridden packet.run_id copy.run_id_override;
  row = overridden packet.row copy.row_override;
  payload = overridden packet.payload copy.payload_override;
}

-- `_schedule_outbound_packet`
unfoldable pub schedule_to : Packet → List ℕ → Dict (List InFlight) → Dict (List InFlight)
unfolding schedule_packet_delivery
schedule_to packet [] scheduled = scheduled
schedule_to packet (dst ∷ destinations) scheduled = schedule_to packet destinations (
    schedule_packet_delivery packet.round_id
      (record { dst = dst; packet = packet; fault_applied = false }) scheduled)

abbrev pub schedule_outbound_packet : OutboundPacket → Dict (List InFlight) → Dict (List InFlight)
schedule_outbound_packet outbound scheduled =
    schedule_to outbound.packet outbound.destinations scheduled

-- What the body of the loop of `_advance_network` puts behind the deliveries of the round, and
-- what it schedules for other rounds.
pub record Fanout : Type 0 where
  pub now : List InFlight
  pub scheduled : Dict (List InFlight)

abbrev pub arrived : ℕ → Packet → InFlight
arrived dst packet = record { dst = dst; packet = packet; fault_applied = true }

-- `target_round > round_id` or not.
unfoldable pub route : ℕ → ℕ → InFlight → Fanout → Fanout
unfolding schedule_packet_delivery
route round_id target_round item fanout =
    if ltb round_id target_round
    then record fanout { scheduled = schedule_packet_delivery target_round item fanout.scheduled }
    else record fanout { now = fanout.now ++ item ∷ [] }

unfoldable pub route_extra_rounds : List ℕ → InFlight → Fanout → Fanout
unfolding schedule_packet_delivery
route_extra_rounds [] item fanout = fanout
route_extra_rounds (extra_round ∷ rounds) item fanout =
    route_extra_rounds rounds item
      (record fanout { scheduled = schedule_packet_delivery extra_round item fanout.scheduled })

unfoldable pub route_copies : ℕ → ℕ → Packet → List DeliveryCopy → Fanout → Fanout
unfolding route materialize_copy
route_copies round_id dst packet [] fanout = fanout
route_copies round_id dst packet (copy ∷ copies) fanout =
    route_copies round_id dst packet copies
      (route round_id copy.deliver_round (arrived dst (materialize_copy packet copy)) fanout)

-- The three loops, once the model has not dropped the packet.
unfoldable pub route_delivery : ℕ → InFlight → Delivery → ℕ → Fanout → Fanout
unfolding route route_extra_rounds route_copies materialize_packet
route_delivery round_id item delivery target_round fanout =
    let materialized = arrived item.dst (materialize_packet item.packet delivery) in
    route_copies round_id item.dst item.packet delivery.extra_copies (
      route_extra_rounds delivery.extra_deliver_rounds materialized
        (route round_id target_round materialized fanout))

-- `if delivery.deliver_round is None: continue`
unfoldable pub route_to : ℕ → InFlight → Delivery → Option ℕ → Fanout → Fanout
unfolding route_delivery
route_to round_id item delivery none fanout = fanout
route_to round_id item delivery (some target_round) fanout =
    route_delivery round_id item delivery target_round fanout

-- A packet to which the fault model has not been applied.
unfoldable pub apply_fault : NetworkFaultModel → ℕ → InFlight → Fanout → Fanout
unfolding route_to
apply_fault model round_id item fanout =
    let delivery = model item.packet item.dst in
    route_to round_id item delivery delivery.deliver_round fanout

-- `self.nodes[dst].receive(packet)`; `none` is the IndexError.
unfoldable pub receive_at : ℕ → Packet → List Node → Option (List Node)
receive_at dst packet [] = none
receive_at zero packet (node ∷ nodes) = some (receive packet node ∷ nodes)
receive_at (suc dst) packet (node ∷ nodes) = do
  received ← receive_at dst packet nodes
  some (node ∷ received)

-- The nodes and the schedule between two turns of the loop.
pub record Network : Type 0 where
  pub nodes : List Node
  pub scheduled : Dict (List InFlight)

-- A turn at a packet that has been through the fault model.
unfoldable pub deliver_applied : InFlight → Network → Option (List InFlight × Network)
unfolding receive_at
deliver_applied item network = do
  nodes ← receive_at item.dst item.packet network.nodes
  some ([], record network { nodes = nodes })

-- A turn at one that has not.
unfoldable pub deliver_fresh : NetworkFaultModel → ℕ → InFlight → Network → List InFlight × Network
unfolding apply_fault
deliver_fresh model round_id item network =
    let fanout =
      apply_fault model round_id item (record { now = []; scheduled = network.scheduled }) in
    (fanout.now, record network { scheduled = fanout.scheduled })

-- One turn: what goes behind the list, and the state after it.
unfoldable pub deliver :
    NetworkFaultModel → ℕ → InFlight → Network → Option (List InFlight × Network)
unfolding deliver_applied deliver_fresh
deliver model round_id item network =
    if item.fault_applied
    then deliver_applied item network
    else some (deliver_fresh model round_id item network)

-- `while idx < len(deliveries)`, over the deliveries from `idx` on. The outer `none` is no fuel,
-- the inner one the IndexError.
unfoldable pub drain : ℕ → NetworkFaultModel → ℕ → List InFlight → Network → Option (Option Network)
unfolding deliver
drain fuel model round_id [] network = some (some network)
drain zero model round_id (item ∷ deliveries) network = none
drain (suc fuel) model round_id (item ∷ deliveries) network =
    elim (deliver model round_id item network) [
      | none ↦ some none
      | some (added, after) ↦ drain fuel model round_id (deliveries ++ added) after
    ]

-- The turns that the loop makes: one for each delivery, and one for each of those that a delivery
-- to which the fault model has not been applied puts behind it.
unfoldable pub turns : NetworkFaultModel → ℕ → List InFlight → ℕ
unfolding deliver_fresh
turns model round_id [] = 0
turns model round_id (item ∷ deliveries) = suc (
    if item.fault_applied
    then turns model round_id deliveries
    else length (apply_fault model round_id item (record { now = []; scheduled = [] })).now
      + turns model round_id deliveries)

-- `_advance_network`; with fuel for every turn the outer `none` does not occur.
unfoldable pub advance_network : NetworkFaultModel → ℕ → Network → Option Network
advance_network model round_id network =
    let deliveries = lookup_or round_id [] network.scheduled in
    elim (drain (turns model round_id deliveries) model round_id deliveries
      (record network { scheduled = erase round_id network.scheduled })) [
        | none ↦ none
        | some drained ↦ drained
      ]
