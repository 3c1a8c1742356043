-- ===== src/Node/Config/Updates.antt =====
-- The configuration that an update of the control plane leaves a node of sim/protocol/node.py
-- with, and the mailbox.
use syncons.Base.{
  ◌≡◌, refl, ◌≢◌, ◌⊎◌, inl, inr, false, not, ◌&&◌, Option, none, some, arith, length, if_cases, ◌∙◌,
  ◌==◌,
}
use syncons.Protocol.{
  running, halted, crashed, failed, PendingConfig, ControlPlaneUpdate, RepairLog, MembershipState,
  NodeStatus,
}
use syncons.Protocol.Equality.{node_status_eq, membership_eq}
use syncons.Node.{Node, emit_control_plane_event}
use syncons.Node.Digest.{Hashing}
use syncons.Node.Config.{
  reset_pipeline, should_install_repair_log, install_repair_log, repair, reboot, reboots,
  install_update, apply_control_plane_update, pull_update, pull_control_plane_update, acknowledge,
  needs_reset,
}

-- What an update leaves a node with.
pub record IsInstalled (update : ControlPlaneUpdate) (before after : Node) : Type 0 where
  pub epoch : after.installed_membership_epoch ≡ update.installed_config.membership_epoch
  pub members : after.installed_membership ≡ update.installed_config.members_bitmap
  pub sound : after.current_sound_set ≡ update.installed_config.members_bitmap
  pub run : after.run_id ≡ update.installed_config.run_id
  pub pending : after.pending_config ≡ update.pending_config
  pub membership : after.membership_state ≡ update.membership_state
  pub back :
      ((after.status ≡ running) × ((before.status ≡ running) ⊎ (update.membership_state ≢ failed)))
      ⊎ ((after.status ≡ before.status) × (update.membership_state ≡ failed))
  pub mailbox :
      (after.pending_control_plane_update ≡ before.pending_control_plane_update)
      × (after.control_plane_irq_pending ≡ before.control_plane_irq_pending)

reboots-failed :
    (status : NodeStatus) (state : MembershipState)
    → reboots status state
      ≡ (not (node_status_eq status running) && not (membership_eq state failed))
unfolding reboots
reboots-failed running state = refl
reboots-failed halted failed = refl
reboots-failed halted state = refl
reboots-failed crashed failed = refl
reboots-failed crashed state = refl

reboot-IsInstalled :
    (update : ControlPlaneUpdate) (node : Node)
    → IsInstalled update node (reboot update.membership_state (install_update update node))
unfolding reboot install_update
reboot-IsInstalled update node = ground (arith, reboots-failed node.status update.membership_state)

pub reset_pipeline-IsInstalled :
    (update : ControlPlaneUpdate) (before after : Node)
    → IsInstalled update before after
    → IsInstalled update before (reset_pipeline after)
unfolding reset_pipeline
reset_pipeline-IsInstalled update before after u = ground (arith, u.members, u.back)

module _ (hashing : Hashing) where
  repair-IsInstalled :
      (log : Option RepairLog) (update : ControlPlaneUpdate) (before after : Node)
      → IsInstalled update before after
      → IsInstalled update before (repair hashing log after)
  unfolding repair install_repair_log
  repair-IsInstalled none update before after u = u
  repair-IsInstalled (some log) update before after u =
      if_cases (IsInstalled update before) (should_install_repair_log hashing log after)
        (λ _.
          if_cases (IsInstalled update before) (length log.entries == 0) (λ _. u)
            (λ _. record {
              epoch = u.epoch;
              members = u.members;
              sound = u.sound;
              run = u.run;
              pending = u.pending;
              membership = u.membership;
              back = u.back;
              mailbox = u.mailbox;
            }))
        (λ _. u)

  pub before_reset :
      (update : ControlPlaneUpdate) (node : Node)
      → IsInstalled update node (
          repair hashing update.repair_log
            (reboot update.membership_state (install_update update node)))
  before_reset update node =
      repair-IsInstalled update.repair_log update node _ (reboot-IsInstalled update node)

  -- An applied update is installed, and a crashed or halted node runs again unless the update
  -- lists it as failed.
  pub apply_control_plane_update-IsInstalled :
      (update : ControlPlaneUpdate) (node : Node)
      → IsInstalled update node (apply_control_plane_update hashing update node)
  unfolding apply_control_plane_update
  apply_control_plane_update-IsInstalled update node =
      let after =
        repair hashing update.repair_log
          (reboot update.membership_state (install_update update node)) in
      let updated = before_reset update node in
      if_cases (IsInstalled update node) (needs_reset node after)
        (λ _. reset_pipeline-IsInstalled update node after updated) (λ _. updated)

  acknowledge_mailbox :
      (before now : Option PendingConfig) (node : Node)
      → (acknowledge before now node).control_plane_irq_pending ≡ node.control_plane_irq_pending
  unfolding acknowledge emit_control_plane_event
  acknowledge_mailbox before none node = refl
  acknowledge_mailbox before (some pending) node = ground arith

  pull_update_irq :
      (update : Option ControlPlaneUpdate) (node : Node)
      → (pull_update hashing update node ≡ node)
        ⊎ ((pull_update hashing update node).control_plane_irq_pending ≡ false)
  unfolding pull_update
  pull_update_irq none node = inl refl
  pull_update_irq (some update) node =
      let cleared = record node {
        pending_control_plane_update = none;
        control_plane_irq_pending = false;
      } in
      let applied = apply_control_plane_update hashing update cleared in
      inr (
        acknowledge_mailbox node.pending_config applied.pending_config applied
        ∙ (apply_control_plane_update-IsInstalled update cleared).mailbox.1)

  -- A pulled update is gone: a second pull changes nothing.
  pub pull_control_plane_update_twice :
      (node : Node)
      → pull_control_plane_update hashing (pull_control_plane_update hashing node)
        ≡ pull_control_plane_update hashing node
  unfolding pull_control_plane_update
  pull_control_plane_update_twice node =
      ground (arith, pull_update_irq node.pending_control_plane_update node)

  pub acknowledge-IsInstalled :
      (update : ControlPlaneUpdate) (old now : Option PendingConfig) (before after : Node)
      → IsInstalled update before after
      → IsInstalled update before (acknowledge old now after)
  unfolding acknowledge emit_control_plane_event
  acknowledge-IsInstalled update old none before after u = u
  acknowledge-IsInstalled update old (some pending) before after u = ground (arith, u.back)
