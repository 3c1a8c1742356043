-- ===== src/Node/Config/Identity.antt =====
-- A configuration step leaves a node who it is, and acknowledges in its name.
use syncons.Base.{ℕ, refl, false, not, Option, none, some, arith, if_cases}
use syncons.Protocol.{prepare_ack, PendingConfig, ControlPlaneUpdate, MembershipState, RepairLog}
use syncons.Node.{Node}
use syncons.Node.Digest.{Hashing}
use syncons.Node.Identity.{IsMember, emit-IsMember}
use syncons.Node.Config.{
  activate, activate_if_due, activate_pending_config_if_due, install_update, reboot, repair,
  should_install_repair_log, install_repair_log, needs_reset, reset_pipeline,
  apply_control_plane_update, acknowledge, pull_update, pull_control_plane_update,
}

module _ (node_id n : ℕ) where
  activate-IsMember :
      (r : ℕ) (pending : Option PendingConfig) (node : Node)
      → IsMember node_id n node
      → IsMember node_id n (activate_if_due r pending node)
  unfolding activate_if_due activate
  activate-IsMember r none node v = v
  activate-IsMember r (some pending) node v = ground arith

  acknowledge-IsMember :
      (before now : Option PendingConfig) (node : Node)
      → IsMember node_id n node
      → IsMember node_id n (acknowledge before now node)
  unfolding acknowledge
  acknowledge-IsMember before none node v = v
  acknowledge-IsMember before (some pending) node v =
      ground (arith, emit-IsMember node_id n (prepare_ack node.node_id pending) node refl v)

  reboot-IsMember :
      (state : MembershipState) (node : Node)
      → IsMember node_id n node
      → IsMember node_id n (reboot state node)
  unfolding reboot
  reboot-IsMember state node v = ground arith

module _ (hashing : Hashing) (node_id n : ℕ) where
  install-IsMember :
      (log : RepairLog) (node : Node)
      → IsMember node_id n node
      → IsMember node_id n (install_repair_log hashing log node)
  unfolding install_repair_log
  install-IsMember log node v = ground arith

  repair-IsMember :
      (log : Option RepairLog) (node : Node)
      → IsMember node_id n node
      → IsMember node_id n (repair hashing log node)
  unfolding repair
  repair-IsMember none node v = v
  repair-IsMember (some log) node v =
      if_cases (IsMember node_id n) (should_install_repair_log hashing log node)
        (λ _. install-IsMember log node v) (λ _. v)

  apply-IsMember :
      (update : ControlPlaneUpdate) (node : Node)
      → IsMember node_id n node
      → IsMember node_id n (apply_control_plane_update hashing update node)
  unfolding apply_control_plane_update install_update reset_pipeline
  apply-IsMember update node v =
      let rebooted = reboot update.membership_state (install_update update node) in
      let repaired = repair hashing update.repair_log rebooted in
      let w =
        repair-IsMember update.repair_log rebooted
          (reboot-IsMember node_id n update.membership_state (install_update update node) v) in
      if_cases (IsMember node_id n) (needs_reset node repaired) (λ _. w) (λ _. w)

  pull_update-IsMember :
      (update : Option ControlPlaneUpdate) (node : Node)
      → IsMember node_id n node
      → IsMember node_id n (pull_update hashing update node)
  unfolding pull_update
  pull_update-IsMember none node v = v
  pull_update-IsMember (some update) node v =
      let cleared = record node {
        pending_control_plane_update = none;
        control_plane_irq_pending = false;
      } in
      let applied = apply_control_plane_update hashing update cleared in
      acknowledge-IsMember node_id n node.pending_config applied.pending_config applied
        (apply-IsMember update cleared v)

  pub configured-IsMember :
      (r : ℕ) (node : Node)
      → IsMember node_id n node
      → IsMember node_id n
          (pull_control_plane_update hashing (activate_pending_config_if_due r node))
  unfolding pull_control_plane_update activate_pending_config_if_due
  configured-IsMember r node v =
      let activated = activate_if_due r node.pending_config node in
      let w = activate-IsMember node_id n r node.pending_config node v in
      if_cases (IsMember node_id n) (not activated.control_plane_irq_pending) (λ _. w)
        (λ _. pull_update-IsMember activated.pending_control_plane_update activated w)
