-- ===== src/Node/Config/Reasons.antt =====
-- How taking a configuration changes status and status reason: only a reboot does.
use syncons.Base.{ℕ, ◌≡◌, refl, ◌⊎◌, inl, false, Option, none, some, arith}
use syncons.Protocol.{
  running, rebooted_under_control_plane, PendingConfig, ControlPlaneUpdate, RepairLog,
}
use syncons.Node.{Node}
use syncons.Node.Digest.{Hashing}
use syncons.Node.Config.{
  activate, activate_if_due, activate_pending_config_if_due, install_update, reboot, repair,
  apply_control_plane_update, acknowledge, pull_update, pull_control_plane_update,
}

-- Status and reason are as they were, or those of a reboot.
abbrev pub Rebooted : Node → Node → Type 0
Rebooted before after =
    ((after.status ≡ before.status) × (after.status_reason ≡ before.status_reason))
    ⊎ ((after.status ≡ running) × (after.status_reason ≡ some rebooted_under_control_plane))

activate_if_due_reason :
    (round_id : ℕ) (pending : Option PendingConfig) (node : Node)
    → Rebooted node (activate_if_due round_id pending node)
unfolding activate_if_due activate
activate_if_due_reason round_id none node = inl (refl, refl)
activate_if_due_reason round_id (some pending) node = ground arith

acknowledge_reason :
    (before now : Option PendingConfig) (node : Node) → Rebooted node (acknowledge before now node)
unfolding acknowledge
acknowledge_reason before none node = inl (refl, refl)
acknowledge_reason before (some pending) node = ground arith

module _ (hashing : Hashing) where
  repair_reason :
      (log : Option RepairLog) (node : Node)
      → ((repair hashing log node).status ≡ node.status)
        × ((repair hashing log node).status_reason ≡ node.status_reason)
  unfolding repair
  repair_reason none node = (refl, refl)
  repair_reason (some log) node = ground arith

  apply_reason :
      (update : ControlPlaneUpdate) (node : Node)
      → Rebooted node (apply_control_plane_update hashing update node)
  unfolding apply_control_plane_update install_update reboot
  apply_reason update node = ground (
    arith,
    repair_reason update.repair_log (reboot update.membership_state (install_update update node)),
  )

  pull_update_reason :
      (update : Option ControlPlaneUpdate) (node : Node)
      → Rebooted node (pull_update hashing update node)
  unfolding pull_update
  pull_update_reason none node = inl (refl, refl)
  pull_update_reason (some update) node = ground (
    arith,
    apply_reason update cleared,
    acknowledge_reason node.pending_config
        (apply_control_plane_update hashing update cleared).pending_config
        (apply_control_plane_update hashing update cleared),
  )
    where
      cleared : Node
      cleared = record node {
        pending_control_plane_update = none;
        control_plane_irq_pending = false;
      }

  -- The configuration at the start of a round leaves status and reason alone, or reboots.
  pub configure_reason :
      (round_id : ℕ) (node : Node)
      → Rebooted node
          (pull_control_plane_update hashing (activate_pending_config_if_due round_id node))
  unfolding pull_control_plane_update activate_pending_config_if_due
  configure_reason round_id node =
      let activated = activate_if_due round_id node.pending_config node in
      ground (
        arith,
        activate_if_due_reason round_id node.pending_config node,
        pull_update_reason activated.pending_control_plane_update activated,
      )
