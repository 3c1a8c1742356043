-- ===== src/Cluster/Totality.antt =====
-- What keeps a run of sim/runtime/cluster.py from raising: the nodes are numbered, every packet
-- goes to another of them than its sender, and the control plane is valid.
pub mod Deliveries
pub mod Nodes
pub mod Updates
pub mod Rounds
pub mod Reasons
use syncons.Base.{
  ℕ, zero, suc, ◌<◌, ◌≡◌, refl, Bool, true, false, not, ◌&&◌, Option, none, some, List, [], ◌∷◌,
  ◌++◌, Dict, arith, ltb, ◌==◌, if◌then◌else◌, all, all-append, all-snoc, length, lookup, lookup_or,
  insert, erase,
}
use syncons.Node.{Node}
use syncons.Node.Digest.{Hashing}
use syncons.Node.Identity.{IsMember}
use syncons.Node.Round.Reachable.{Reachable}
use syncons.Control.{initialise, ◌>>=◌}
use syncons.Control.Validity.{IsValid, Returns}
use syncons.Cluster.{Cluster, InFlight}

-- The node has this number, and only calls of the runtime have brought it where it is.
abbrev pub IsPlaced : Hashing → ℕ → ℕ → Node → Type 0
IsPlaced hashing node_id n node = IsMember node_id n node × Reachable hashing node

-- The nodes are those numbered from `first` on.
abbrev pub AreMembers : Hashing → ℕ → ℕ → List Node → Type 0
AreMembers hashing first n [] = Unit {0}
AreMembers hashing first n (node ∷ nodes) =
    IsPlaced hashing first n node × AreMembers hashing (suc first) n nodes

-- A node of the cluster other than the sender.
abbrev pub is_peer : ℕ → ℕ → ℕ → Bool
is_peer n src dst = ltb dst n && not (dst == src)

-- The packet goes to such a node.
abbrev pub fits : ℕ → InFlight → Bool
fits n item = is_peer n item.packet.src_id item.dst

abbrev pub all_fit : ℕ → Dict (List InFlight) → Bool
all_fit n scheduled = all (λ e. all (fits n) e.1) scheduled

abbrev pub IsOrderly : Hashing → ℕ → Cluster → Type 0
IsOrderly hashing n cluster =
    AreMembers hashing 0 n cluster.nodes
    × (length cluster.nodes ≡ n)
    × (all_fit n cluster.scheduled_deliveries ≡ true)

-- Between two rounds: the control plane can start, or has started, and the rest is in order.
abbrev pub IsSound : Hashing → ℕ → Cluster → Type 0
IsSound hashing n cluster =
    Returns n (initialise n cluster.control_plane) × IsOrderly hashing n cluster

-- Within a round, as far as the events and the packets of the nodes are concerned.
abbrev pub Handles : ℕ → Cluster → Type 0
Handles n cluster =
    IsValid n cluster.control_plane × (all_fit n cluster.scheduled_deliveries ≡ true)

-- The value is there, and is as it should be.
abbrev pub Yields {ℓ} : {A : Type ℓ} → (A → Type 0) → Option A → Type 0
Yields P none = ⊥
Yields P (some a) = P a

pub bind-Yields {ℓ ℓ'} :
    {A : Type ℓ} {B : Type ℓ'} (P : A → Type 0) (Q : B → Type 0)
    → (o : Option A) (f : A → Option B) → Yields P o
    → ((a : A) → P a → Yields Q (f a))
    → Yields Q (o >>= f)
bind-Yields P Q none f h k = h
bind-Yields P Q (some a) f h k = k a h

module _ {ℓ} {V : Type ℓ} (p : V → Bool) where
  pub all-lookup_or :
      (k : ℕ) (default : V) (d : Dict V)
      → p default ≡ true
      → all (λ e. p e.1) d ≡ true
      → p (lookup_or k default d) ≡ true
  all-lookup_or k default [] h i = h
  all-lookup_or k default (e ∷ d) h i = ground (arith, all-lookup_or k default d h)

  pub all-insert :
      (k : ℕ) (v : V) (d : Dict V)
      → p v ≡ true
      → all (λ e. p e.1) d ≡ true
      → all (λ e. p e.1) (insert k v d) ≡ true
  all-insert k v [] h i = ground arith
  all-insert k v (e ∷ d) h i = ground (arith, all-insert k v d h)

  pub all-erase :
      (k : ℕ) (d : Dict V) → all (λ e. p e.1) d ≡ true → all (λ e. p e.1) (erase k d) ≡ true
  all-erase k [] i = refl
  all-erase k (e ∷ d) i = ground (arith, all-erase k d)
