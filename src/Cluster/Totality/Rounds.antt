-- ===== src/Cluster/Totality/Rounds.antt =====
-- `run` of sim/runtime/cluster.py raises nothing, whatever the fault models do.
use syncons.Base.{
  ℕ, zero, suc, ◌<◌, ◌≡◌, ◌∙◌, refl, ap, subst, some, List, [], ◌∷◌, map, arith, length, range,
  range_from, length-range_from, Option-cases, inl, inr, String,
}
use syncons.Protocol.{PayloadFactory}
use syncons.Node.{Node, new_node}
use syncons.Node.Digest.{Hashing}
use syncons.Node.Round.Reachable.{starts}
use syncons.Control.Validity.Clock.{new-Returns}
use syncons.Cluster.{Settings, Cluster, new_cluster}
use syncons.Cluster.Rounds.{
  turn_nodes, turn_control_plane, turn, run_rounds, RunResult, NodeResult, final_snapshot, run,
}
use syncons.Cluster.Totality.{AreMembers, IsSound, Yields, bind-Yields}
use syncons.Cluster.Totality.Nodes.{AreTurned, turn_nodes-Yields, close_round-Yields}
use syncons.Cluster.Totality.Updates.{IsLive, turn_control_plane-Yields}

module _ (hashing : Hashing) (settings : Settings) where
  -- Whatever the fault models do, a turn of the loop of `run` from a sound cluster raises nothing
  -- and leaves a sound cluster.
  pub turn-IsSound :
      (r : ℕ) (cluster : Cluster)
      → IsSound hashing settings.node_count cluster
      → Yields (IsSound hashing settings.node_count) (turn hashing settings r cluster)
  unfolding turn
  turn-IsSound r cluster sound =
      let n = settings.node_count in
      bind-Yields (IsLive hashing n) (IsSound hashing n) (turn_control_plane settings r cluster) _
        (turn_control_plane-Yields hashing settings r cluster sound)
        (λ pushed v.
          bind-Yields (AreTurned hashing 0 n n) (IsSound hashing n)
            (turn_nodes hashing settings r pushed.nodes
              (record { cluster = pushed; commands = [] }))
            _
            (subst
              (λ k. Yields (AreTurned hashing 0 n k) (
                turn_nodes hashing settings r pushed.nodes
                  (record { cluster = pushed; commands = [] })))
              v.1.1
              (turn_nodes-Yields hashing settings 0 n r pushed.nodes
                (record { cluster = pushed; commands = [] }) (omega (arith, v.1.1)) v.1.0
                (v.0, v.1.2)))
            (λ turned w. close_round-Yields hashing settings n r turned.0 turned.1 w))

  pub run_rounds-IsSound :
      (rounds : List ℕ) (cluster : Cluster)
      → IsSound hashing settings.node_count cluster
      → Yields (IsSound hashing settings.node_count) (run_rounds hashing settings rounds cluster)
  unfolding run_rounds
  run_rounds-IsSound [] cluster sound = sound
  run_rounds-IsSound (r ∷ rounds) cluster sound =
      bind-Yields (IsSound hashing settings.node_count) (IsSound hashing settings.node_count)
        (turn hashing settings r cluster) _ (turn-IsSound r cluster sound)
        (λ turned v. run_rounds-IsSound rounds turned v)

new_nodes-AreMembers :
    (hashing : Hashing) (digest : String) (factory : PayloadFactory) (n i k : ℕ)
    → AreMembers hashing i n (map (λ j. new_node digest j n factory) (range_from i k))
unfolding new_node
new_nodes-AreMembers hashing digest factory n i zero = tt
new_nodes-AreMembers hashing digest factory n i (suc k) = (
  ((refl, refl, refl), starts digest i n factory),
  new_nodes-AreMembers hashing digest factory n (suc i) k,
)

pub length-map {ℓ ℓ'} :
    {A : Type ℓ} {B : Type ℓ'} (f : A → B) (xs : List A) → length (map f xs) ≡ length xs
length-map f [] = refl
length-map f (x ∷ xs) = ap suc (length-map f xs)

pub new_cluster-IsSound :
    (hashing : Hashing) (digest : String) (settings : Settings)
    → 0 < settings.node_count
    → 0 < settings.timing.round_length_ns
    → IsSound hashing settings.node_count (new_cluster digest settings)
unfolding new_cluster
new_cluster-IsSound hashing digest settings positive ticks =
    let n = settings.node_count in
    let build = λ (j : ℕ). new_node digest j n settings.payload_factory in
    (
      new-Returns n settings.timing positive ticks,
      (
        new_nodes-AreMembers hashing digest settings.payload_factory n 0 n,
        length-map build (range n) ∙ length-range_from 0 n,
        refl,
      ),
    )

-- The number of each node of the result is its place.
abbrev pub result_ids : RunResult → List ℕ
result_ids result = map (λ node. node.node_id) result.nodes

final_ids :
    (hashing : Hashing) (i n : ℕ) (nodes : List Node) (f : Node → NodeResult)
    → ((node : Node) → (f node).node_id ≡ node.node_id)
    → AreMembers hashing i n nodes
    → map (λ node. node.node_id) (map f nodes) ≡ range_from i (length nodes)
final_ids hashing i n [] f h m = refl
final_ids hashing i n (node ∷ nodes) f h m =
    ap (λ k. k ∷ map (λ node. node.node_id) (map f nodes)) (h node ∙ m.0.0.0)
    ∙ ap (λ ks. i ∷ ks) (final_ids hashing (suc i) n nodes f h m.1)

-- With a node and a positive round length a run of any number of rounds returns a result, whatever
-- the fault models do, and the result lists the nodes in the order of their numbers.
pub run_returns :
    (hashing : Hashing) (settings : Settings) (rounds : ℕ)
    → 0 < settings.node_count
    → 0 < settings.timing.round_length_ns
    → (result : RunResult) × (run hashing settings rounds ≡ some result)
      × (result_ids result ≡ range settings.node_count)
unfolding run final_snapshot
run_returns hashing settings rounds positive ticks =
    let start = new_cluster hashing.empty_log_digest settings in
    elim (Option-cases (run_rounds hashing settings (range rounds) start)) [
      | inl e ↦ absurd (subst (Yields (IsSound hashing settings.node_count)) e sound)
      | inr (cluster, e) ↦
          let w = subst (Yields (IsSound hashing settings.node_count)) e sound in
          (
            final_snapshot settings rounds cluster,
            rw e refl,
            final_ids hashing 0 settings.node_count cluster.nodes _ (λ node. refl) w.1.0
                ∙ ap range w.1.1,
          )
    ]
  where
    sound :
        Yields (IsSound hashing settings.node_count) (
          run_rounds hashing settings
            (range rounds)
            (new_cluster hashing.empty_log_digest settings))
    sound =
        run_rounds-IsSound hashing settings (range rounds)
          (new_cluster hashing.empty_log_digest settings)
          (new_cluster-IsSound hashing hashing.empty_log_digest settings positive ticks)
