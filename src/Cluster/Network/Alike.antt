-- ===== src/Cluster/Network/Alike.antt =====
-- Fault models of sim/runtime/cluster.py that deliver the same packets in a round.
use syncons.Base.{
  ℕ, ◌≡◌, ◌∙◌, refl, ap, sym, subst, Option, none, some, List, [], ◌∷◌, ◌++◌, lookup_or, erase,
  Bool-cases, inl, inr,
}
use syncons.Protocol.{NetworkFaultModel}
use syncons.Node.{Node}
use syncons.Control.{◌>>=◌}
use syncons.Cluster.{InFlight}
use syncons.Cluster.Network.{
  apply_fault, receive_at, Network, deliver_applied, deliver_fresh, deliver, advance_network,
}
use syncons.Cluster.Network.Routes.{deliver_fresh-now}
use syncons.Cluster.Network.Passes.{sweep, receive_all, two_passes, advance_network-two_passes}

-- Both are there and related, or neither is there.
abbrev Both {ℓ} : {A : Type ℓ} → (A → A → Type 0) → Option A → Option A → Type 0
Both P none none = Unit {0}
Both P none (some b) = ⊥
Both P (some a) none = ⊥
Both P (some a) (some b) = P a b

bind-Both {ℓ ℓ'} :
    {A : Type ℓ} {B : Type ℓ'} (P : A → A → Type 0) (Q : B → B → Type 0)
    → (o o' : Option A) (f g : A → Option B) → Both P o o'
    → ((a b : A) → P a b → Both Q (f a) (g b))
    → Both Q (o >>= f) (o' >>= g)
bind-Both P Q none none f g h k = tt
bind-Both P Q none (some b) f g h k = absurd h
bind-Both P Q (some a) none f g h k = absurd h
bind-Both P Q (some a) (some b) f g h k = k a b h

abbrev SameNodes : Network → Network → Type 0
SameNodes a b = a.nodes ≡ b.nodes

abbrev SameTurn : List InFlight × Network → List InFlight × Network → Type 0
SameTurn (added, a) (added', b) = (added ≡ added') × SameNodes a b

-- The nodes, or none if there was an IndexError.
abbrev pub nodes_of : Option Network → Option (List Node)
nodes_of none = none
nodes_of (some network) = some network.nodes

deliver_applied-Both :
    (item : InFlight) (a b : Network)
    → SameNodes a b
    → Both SameTurn (deliver_applied item a) (deliver_applied item b)
unfolding deliver_applied
deliver_applied-Both item a b e =
    subst
      (λ nodes. Both SameTurn (deliver_applied item a) (
        receive_at item.dst item.packet nodes
        >>= (λ received. some ([], record b { nodes = received }))))
      e (found (receive_at item.dst item.packet a.nodes))
  where
    found :
        (o : Option (List Node))
        → Both SameTurn
            (o >>= (λ received. some ([], record a { nodes = received })))
            (o >>= (λ received. some ([], record b { nodes = received })))
    found none = tt
    found (some received) = (refl, refl)

-- What the model delivers of a packet in this very round.
abbrev pub delivered_now : NetworkFaultModel → ℕ → InFlight → List InFlight
delivered_now model r item = (apply_fault model r item (record { now = []; scheduled = [] })).now

module _ (model other : NetworkFaultModel) (r : ℕ)
    (same : (item : InFlight) → delivered_now model r item ≡ delivered_now other r item) where
  deliver-Both :
      (item : InFlight) (a b : Network)
      → SameNodes a b
      → Both SameTurn (deliver model r item a) (deliver other r item b)
  unfolding deliver deliver_fresh
  deliver-Both item a b e = elim (Bool-cases item.fault_applied) [
    | inl applied ↦ rw applied (deliver_applied-Both item a b e)
    | inr fresh ↦
        rw fresh
          (deliver_fresh-now model r item a ∙ same item ∙ sym (deliver_fresh-now other r item b), e)
  ]

  sweep-Both :
      (xs late late' : List InFlight) (a b : Network)
      → late ≡ late'
      → SameNodes a b
      → Both SameTurn (sweep model r xs a late) (sweep other r xs b late')
  unfolding sweep
  sweep-Both [] late late' a b h e = (h, e)
  sweep-Both (x ∷ xs) late late' a b h e =
      bind-Both SameTurn SameTurn (deliver model r x a) (deliver other r x b) _ _
        (deliver-Both x a b e)
        (λ p q w. sweep-Both xs (late ++ p.0) (late' ++ q.0) p.1 q.1 (cc (h, w.0)) w.1)

  receive_all-Both :
      (late : List InFlight) (a b : Network)
      → SameNodes a b
      → Both SameNodes (receive_all late a) (receive_all late b)
  unfolding receive_all
  receive_all-Both [] a b e = e
  receive_all-Both (x ∷ late) a b e =
      bind-Both SameTurn SameNodes (deliver_applied x a) (deliver_applied x b) _ _
        (deliver_applied-Both x a b e) (λ p q w. receive_all-Both late p.1 q.1 w.1)

  nodes_same : (o o' : Option Network) → Both SameNodes o o' → nodes_of o ≡ nodes_of o'
  nodes_same none none h = refl
  nodes_same none (some b) h = absurd h
  nodes_same (some a) none h = absurd h
  nodes_same (some a) (some b) h = ap some h

  -- Models that deliver the same in this very round leave the same nodes, whatever they schedule.
  pub advance_network_same :
      (network : Network)
      → nodes_of (advance_network model r network) ≡ nodes_of (advance_network other r network)
  unfolding two_passes
  advance_network_same network =
      let deliveries = lookup_or r [] network.scheduled in
      let popped = record network { scheduled = erase r network.scheduled } in
      rw (advance_network-two_passes model r network, advance_network-two_passes other r network)
        (nodes_same _ _ (
          bind-Both SameTurn SameNodes (sweep model r deliveries popped [])
            (sweep other r deliveries popped []) _ _
            (sweep-Both deliveries [] [] popped popped refl refl)
            (λ p q w.
              subst (λ late. Both SameNodes (receive_all p.0 p.1) (receive_all late q.1)) w.0
                (receive_all-Both p.0 p.1 q.1 w.1))))
