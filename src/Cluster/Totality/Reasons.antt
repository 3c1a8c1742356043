-- ===== src/Cluster/Totality/Reasons.antt =====
-- For what reasons the nodes of a run of sim/runtime/cluster.py halt.
use syncons.Base.{ℕ, suc, ◌<◌, ◌≡◌, subst, some, List, [], ◌∷◌, range, Option-cases, inl, inr}
use syncons.Node.{Node}
use syncons.Node.Digest.{Hashing}
use syncons.Node.Round.Reachable.{IsExpected, Reachable-IsExpected}
use syncons.Cluster.{Settings, Cluster, new_cluster}
use syncons.Cluster.Rounds.{run_rounds}
use syncons.Cluster.Totality.{AreMembers, IsSound, Yields}
use syncons.Cluster.Totality.Rounds.{run_rounds-IsSound, new_cluster-IsSound}

-- None has halted for an invalid commit set, a missing sound set, or its own exclusion from one.
abbrev pub AreExpected : List Node → Type 0
AreExpected [] = Unit {0}
AreExpected (node ∷ nodes) = IsExpected node.status_reason × AreExpected nodes

members-AreExpected :
    (hashing : Hashing) (i n : ℕ) (nodes : List Node)
    → AreMembers hashing i n nodes
    → AreExpected nodes
members-AreExpected hashing i n [] m = tt
members-AreExpected hashing i n (node ∷ nodes) m =
    (Reachable-IsExpected hashing node m.0.1, members-AreExpected hashing (suc i) n nodes m.1)

-- With a node and a positive round length, any number of rounds from the start end in a cluster in
-- which no node has halted for an invalid commit set, a missing sound set, or its own exclusion from
-- the sound set: whatever the fault models do, with packets and with nodes.
pub run_rounds-AreExpected :
    (hashing : Hashing) (settings : Settings) (rounds : ℕ)
    → 0 < settings.node_count
    → 0 < settings.timing.round_length_ns
    → (cluster : Cluster) × (run_rounds hashing settings
          (range rounds)
          (new_cluster hashing.empty_log_digest settings)
        ≡ some cluster)
      × AreExpected cluster.nodes
run_rounds-AreExpected hashing settings rounds positive ticks =
    let n = settings.node_count in
    let start = new_cluster hashing.empty_log_digest settings in
    let sound =
      run_rounds-IsSound hashing settings (range rounds) start
        (new_cluster-IsSound hashing hashing.empty_log_digest settings positive ticks) in
    elim (Option-cases (run_rounds hashing settings (range rounds) start)) [
      | inl e ↦ absurd (subst (Yields (IsSound hashing n)) e sound)
      | inr (cluster, e) ↦ (
        cluster,
        e,
        members-AreExpected hashing 0 n cluster.nodes
            (subst (Yields (IsSound hashing n)) e sound).1.0,
      )
    ]
