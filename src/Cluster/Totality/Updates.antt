-- ===== src/Cluster/Totality/Updates.antt =====
-- The control plane of sim/runtime/cluster.py answers, and its updates leave the nodes in place.
use syncons.Base.{
  ℕ, suc, ◌*◌, ◌≡◌, ◌∙◌, refl, ap, sym, subst, Option, none, some, List, [], ◌∷◌, if_cases, length,
  lookup, option_eq,
}
use syncons.Protocol.{ControlPlaneState}
use syncons.Protocol.Equality.{update_eq}
use syncons.Node.{Node}
use syncons.Node.Config.{push_control_plane_update}
use syncons.Node.Digest.{Hashing}
use syncons.Node.Round.Reachable.{steps, is_pushed}
use syncons.Control.{ControlPlane}
use syncons.Control.Clock.{advance_to_time, control_state_at}
use syncons.Control.Validity.{IsValid}
use syncons.Control.Validity.Clock.{Answers, advance_from, called_from, IsValid-initialise}
use syncons.Cluster.{
  Settings, Cluster, build_control_plane_update, push_update, push_updates,
  push_control_plane_updates, repair_log_snapshots,
}
use syncons.Cluster.Rounds.{turn_control_plane}
use syncons.Cluster.Totality.{
  IsPlaced, AreMembers, all_fit, IsOrderly, IsSound, Yields, bind-Yields,
}
use syncons.Cluster.Totality.Nodes.{Returns-Yields}

Answers-Yields :
    (n : ℕ) (o : Option (ControlPlaneState × ControlPlane))
    → Answers n o
    → Yields (λ (p : ControlPlaneState × ControlPlane). IsValid n p.1) o
Answers-Yields n none h = h
Answers-Yields n (some answer) h = h

-- An update changes neither the control plane nor what is in flight.
record Pushed (hashing : Hashing) (first n count : ℕ) (before : Cluster) (nodes : List Node)
    (after : Cluster) : Type 0 where
  members : AreMembers hashing first n nodes
  length_eq : length nodes ≡ count
  control_plane_eq : after.control_plane ≡ before.control_plane
  scheduled_eq : after.scheduled_deliveries ≡ before.scheduled_deliveries

push_update-Pushed :
    (hashing : Hashing) (i n : ℕ) (state : ControlPlaneState) (node : Node) (cluster : Cluster)
    → IsPlaced hashing i n node
    → let (pushed, after) = push_update state node cluster in
      IsPlaced hashing i n pushed
      × (after.control_plane ≡ cluster.control_plane)
      × (after.scheduled_deliveries ≡ cluster.scheduled_deliveries)
unfolding push_update push_control_plane_update
push_update-Pushed hashing i n state node cluster m =
    if_cases
      (λ (p : Node × Cluster).
        IsPlaced hashing i n p.0
        × (p.1.control_plane ≡ cluster.control_plane)
        × (p.1.scheduled_deliveries ≡ cluster.scheduled_deliveries))
      (option_eq update_eq (lookup node.node_id cluster.last_control_plane_updates)
        (some (build_control_plane_update node.node_id state)))
      (λ _. (m, refl, refl))
      (λ _. (
        (m.0, steps m.1 (is_pushed (build_control_plane_update node.node_id state) refl)),
        refl,
        refl,
      ))

push_updates-Pushed :
    (hashing : Hashing) (i n : ℕ) (state : ControlPlaneState) (nodes : List Node)
    (cluster : Cluster)
    → AreMembers hashing i n nodes
    → let (pushed, after) = push_updates state nodes cluster in
      Pushed hashing i n (length nodes) cluster pushed after
unfolding push_updates
push_updates-Pushed hashing i n state [] cluster m = record {
  members = tt;
  length_eq = refl;
  control_plane_eq = refl;
  scheduled_eq = refl;
}
push_updates-Pushed hashing i n state (node ∷ nodes) cluster m =
    let (w, control_plane_eq, scheduled_eq) =
      push_update-Pushed hashing i n state node cluster m.0 in
    let x =
      push_updates-Pushed hashing (suc i) n state nodes (push_update state node cluster).1 m.1 in
    record {
      members = (w, x.members);
      length_eq = ap suc x.length_eq;
      control_plane_eq = x.control_plane_eq ∙ control_plane_eq;
      scheduled_eq = x.scheduled_eq ∙ scheduled_eq;
    }

-- Within a round, with the nodes in their places.
abbrev pub IsLive : Hashing → ℕ → Cluster → Type 0
IsLive hashing n cluster = IsValid n cluster.control_plane × IsOrderly hashing n cluster

pub push-IsLive :
    (hashing : Hashing) (n : ℕ) (state : ControlPlaneState) (cluster : Cluster)
    → IsLive hashing n cluster
    → IsLive hashing n (push_control_plane_updates state cluster)
unfolding push_control_plane_updates
push-IsLive hashing n state cluster (valid, (members, count, fit)) =
    let w = push_updates-Pushed hashing 0 n state cluster.nodes cluster members in
    (
      subst (IsValid n) (sym w.control_plane_eq) valid,
      (w.members, w.length_eq ∙ count, ap (all_fit n) w.scheduled_eq ∙ fit),
    )

-- The control plane answers before the nodes run.
pub turn_control_plane-Yields :
    (hashing : Hashing) (settings : Settings) (r : ℕ) (cluster : Cluster)
    → IsSound hashing settings.node_count cluster
    → Yields (IsLive hashing settings.node_count) (turn_control_plane settings r cluster)
unfolding turn_control_plane
turn_control_plane-Yields hashing settings r cluster (started, orderly) =
    let n = settings.node_count in
    let snapshots = repair_log_snapshots cluster.commit_history_by_node in
    let now_ns = r * settings.timing.round_length_ns in
    bind-Yields (IsValid n) (IsLive hashing n)
      (advance_to_time snapshots now_ns n cluster.control_plane) _
      (Returns-Yields n _ (advance_from n now_ns snapshots cluster.control_plane started))
      (λ advanced v.
        bind-Yields (λ (p : ControlPlaneState × ControlPlane). IsValid n p.1) (IsLive hashing n)
          (control_state_at snapshots r n advanced) _
          (Answers-Yields n _
            (called_from n snapshots advanced (IsValid-initialise n advanced v) r))
          (λ answer w.
            push-IsLive hashing n answer.0 (record cluster { control_plane = answer.1 })
              (w, orderly)))
