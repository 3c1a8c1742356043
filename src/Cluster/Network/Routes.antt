-- ===== src/Cluster/Network/Routes.antt =====
-- What a delivery puts behind the list in `_advance_network` of sim/runtime/cluster.py.
use syncons.Base.{
  ℕ, ◌≡◌, ◌∙◌, refl, Bool, true, Option, none, some, List, [], ◌∷◌, arith, all, all-append, ap, sym,
}
use syncons.Protocol.{Packet, Delivery, DeliveryCopy, NetworkFaultModel}
use syncons.Cluster.{InFlight}
use syncons.Cluster.Network.{
  Fanout, Network, arrived, route, route_extra_rounds, route_copies, route_to, apply_fault,
  deliver_fresh,
}

abbrev pub is_applied : InFlight → Bool
is_applied item = item.fault_applied

route-now :
    (r t : ℕ) (item : InFlight) (f g : Fanout)
    → f.now ≡ g.now
    → (route r t item f).now ≡ (route r t item g).now
unfolding route
route-now r t item f g e = ground arith

route_extra_rounds-now :
    (rounds : List ℕ) (item : InFlight) (f : Fanout)
    → (route_extra_rounds rounds item f).now ≡ f.now
unfolding route_extra_rounds
route_extra_rounds-now [] item f = refl
route_extra_rounds-now (t ∷ rounds) item f = route_extra_rounds-now rounds item _

route_copies-now :
    (r dst : ℕ) (packet : Packet) (copies : List DeliveryCopy) (f g : Fanout)
    → f.now ≡ g.now
    → (route_copies r dst packet copies f).now ≡ (route_copies r dst packet copies g).now
unfolding route_copies
route_copies-now r dst packet [] f g e = e
route_copies-now r dst packet (copy ∷ copies) f g e =
    route_copies-now r dst packet copies _ _ (route-now r copy.deliver_round _ f g e)

route_to-now :
    (r : ℕ) (item : InFlight) (delivery : Delivery) (target : Option ℕ) (f g : Fanout)
    → f.now ≡ g.now
    → (route_to r item delivery target f).now ≡ (route_to r item delivery target g).now
unfolding route_to
route_to-now r item delivery none f g e = e
route_to-now r item delivery (some target) f g e =
    route_copies-now r item.dst item.packet delivery.extra_copies _ _ (
      route_extra_rounds-now delivery.extra_deliver_rounds _ _
      ∙ route-now r target _ f g e
      ∙ sym (route_extra_rounds-now delivery.extra_deliver_rounds _ _))

abbrev AllApplied : Fanout → Type 0
AllApplied f = all is_applied f.now ≡ true

route-AllApplied :
    (r t dst : ℕ) (packet : Packet) (f : Fanout)
    → AllApplied f
    → AllApplied (route r t (arrived dst packet) f)
unfolding route
route-AllApplied r t dst packet f h =
    ground (arith, all-append is_applied f.now (arrived dst packet ∷ []))

route_copies-AllApplied :
    (r dst : ℕ) (packet : Packet) (copies : List DeliveryCopy) (f : Fanout)
    → AllApplied f
    → AllApplied (route_copies r dst packet copies f)
unfolding route_copies
route_copies-AllApplied r dst packet [] f h = h
route_copies-AllApplied r dst packet (copy ∷ copies) f h =
    route_copies-AllApplied r dst packet copies _ (route-AllApplied r copy.deliver_round dst _ f h)

route_to-AllApplied :
    (r : ℕ) (item : InFlight) (delivery : Delivery) (target : Option ℕ) (f : Fanout)
    → AllApplied f
    → AllApplied (route_to r item delivery target f)
unfolding route_to
route_to-AllApplied r item delivery none f h = h
route_to-AllApplied r item delivery (some target) f h =
    route_copies-AllApplied r item.dst item.packet delivery.extra_copies _ (
      ap (all is_applied) (route_extra_rounds-now delivery.extra_deliver_rounds _ _)
      ∙ route-AllApplied r target item.dst _ f h)

-- What a turn at a fresh packet puts behind the list does not depend on the schedule.
pub deliver_fresh-now :
    (model : NetworkFaultModel) (r : ℕ) (item : InFlight) (network : Network)
    → (deliver_fresh model r item network).0
      ≡ (apply_fault model r item (record { now = []; scheduled = [] })).now
unfolding deliver_fresh apply_fault
deliver_fresh-now model r item network =
    route_to-now r item (model item.packet item.dst) (model item.packet item.dst).deliver_round
      (record { now = []; scheduled = network.scheduled }) (record { now = []; scheduled = [] })
      refl

pub deliver_fresh-AllApplied :
    (model : NetworkFaultModel) (r : ℕ) (item : InFlight) (network : Network)
    → all is_applied (deliver_fresh model r item network).0 ≡ true
unfolding deliver_fresh apply_fault
deliver_fresh-AllApplied model r item network =
    route_to-AllApplied r item (model item.packet item.dst)
      (model item.packet item.dst).deliver_round
      (record { now = []; scheduled = network.scheduled }) refl
