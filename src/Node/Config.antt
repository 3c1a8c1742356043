-- ===== src/Node/Config.antt =====
-- How a node takes configurations: `_reset_pipeline`, `_activate_pending_config_if_due`, the
-- mailbox of the control plane, and the repair log, of sim/protocol/node.py.
pub mod Cutover
pub mod Stages
pub mod Updates
pub mod Repaired
pub mod Applied
pub mod Reasons
pub mod Identity
mod Examples
use syncons.Base.{
  ℕ, ℤ, pos, negsuc, Bool, true, false, not, ◌&&◌, ◌||◌, Option, none, some, List, [], ◌∷◌, String,
  if◌then◌else◌, ltb, ◌==◌, get_last?, int_eq, str_eq, option_eq, is_some, length,
}
use syncons.Protocol.{
  NodeStatus, running, halted, crashed, MembershipState, active, failed, recovering, rejoin_pending,
  PendingConfigStatus, prepared, committed, PendingConfig, InstalledConfig, ControlPlaneUpdate,
  RepairLog, CommittedRoundRecord, StatusReason, rebooted_under_control_plane, prepare_ack,
}
use syncons.Protocol.Equality.{membership_eq, pending_status_eq, pending_config_eq}
use syncons.Node.{Node, blank_stage, emit_control_plane_event}
use syncons.Node.Digest.{Hashing, digest_for_committed_rounds}

pub reset_pipeline : Node → Node
reset_pipeline node = record node {
  current_sound_set = node.installed_membership;
  current_stage = blank_stage (negsuc 0) node.installed_membership_epoch node.installed_membership;
  previous_stage = blank_stage (negsuc 0) node.installed_membership_epoch node.installed_membership;
  commit_stage = blank_stage (negsuc 1) node.installed_membership_epoch node.installed_membership;
}

-- The assignments of `_activate_pending_config_if_due`, once the pending config is due.
adopt_pending : PendingConfig → Node → Node
adopt_pending pending node = record node {
  installed_membership_epoch = pending.membership_epoch;
  installed_membership = pending.members_bitmap;
  current_sound_set = pending.members_bitmap;
  run_id = pending.run_id;
  pending_config = none;
  membership_state = active;
}

pub activate : PendingConfig → Node → Node
unfolding adopt_pending reset_pipeline
activate pending node = reset_pipeline (adopt_pending pending node)

-- The three guards that `_activate_pending_config_if_due` tests one by one.
pub is_due : ℕ → PendingConfig → Bool
is_due round_id pending =
    if not (pending_status_eq pending.status committed)
    then false
    else if ltb round_id pending.effective_round
    then false
    else true

activate_if_due : ℕ → Option PendingConfig → Node → Node
activate_if_due round_id none node = node
activate_if_due round_id (some pending) node =
    if is_due round_id pending then activate pending node else node

unfoldable pub activate_pending_config_if_due : ℕ → Node → Node
unfolding activate_if_due
activate_pending_config_if_due round_id node = activate_if_due round_id node.pending_config node

unfoldable pub push_control_plane_update : ControlPlaneUpdate → Node → Node
push_control_plane_update update node = record node {
  pending_control_plane_update = some update;
  control_plane_irq_pending = true;
}

pub repair_frontier : RepairLog → ℤ
repair_frontier log = elim (get_last? log.entries) [ none ↦ negsuc 0 | some entry ↦ entry.round ]

-- A crashed or halted node comes back if the control plane lists it as anything but failed.
reboots : NodeStatus → MembershipState → Bool
reboots running _ = false
reboots halted failed = false
reboots halted _ = true
reboots crashed failed = false
reboots crashed _ = true

pub reboot : MembershipState → Node → Node
unfolding reboots
reboot membership_state node =
    if reboots node.status membership_state
    then record node {
      status = running;
      status_reason = some rebooted_under_control_plane;
      halted_round = none;
      halt_details = none;
    }
    else node

-- `config_changed`
config_changed : Node → Node → Bool
config_changed before after =
    not (before.installed_membership_epoch == after.installed_membership_epoch)
    || (not (before.installed_membership == after.installed_membership)
        || not (before.run_id == after.run_id))

-- The assignments at the top of `_apply_control_plane_update`.
pub install_update : ControlPlaneUpdate → Node → Node
install_update update node = record node {
  installed_membership_epoch = update.installed_config.membership_epoch;
  installed_membership = update.installed_config.members_bitmap;
  current_sound_set = update.installed_config.members_bitmap;
  run_id = update.installed_config.run_id;
  pending_config = update.pending_config;
  membership_state = update.membership_state;
}

-- The two branches at the end, which both reset the pipeline.
pub needs_reset : Node → Node → Bool
unfolding config_changed
needs_reset before after =
    (not (membership_eq before.membership_state active)
      && membership_eq after.membership_state active)
    || config_changed before after

-- The acknowledgement at the end of `_pull_control_plane_update`: of the pending config that the
-- node has now, unless it is none, or the one it had before.
pub acknowledge : Option PendingConfig → Option PendingConfig → Node → Node
unfolding emit_control_plane_event
acknowledge previous_pending none node = node
acknowledge previous_pending (some pending) node =
    if pending_status_eq pending.status prepared
      && not (option_eq pending_config_eq (some pending) previous_pending)
    then emit_control_plane_event (prepare_ack node.node_id pending) node
    else node

module _ (hashing : Hashing) where
  pub should_install_repair_log : RepairLog → Node → Bool
  unfolding repair_frontier
  should_install_repair_log log node =
      if not (int_eq (repair_frontier log) node.committed_frontier)
      then true
      else not (str_eq (digest_for_committed_rounds hashing log.entries) node.commit_digest)

  -- `RepairLog` has a `__len__`, so `not repair_log` is true of a log with no entries.
  pub install_repair_log : RepairLog → Node → Node
  unfolding repair_frontier
  install_repair_log log node = if length log.entries == 0 then node else record node {
    committed_frontier = repair_frontier log;
    last_committed_sound_set = none;
    commit_digest = digest_for_committed_rounds hashing log.entries;
  }

  pub repair : Option RepairLog → Node → Node
  unfolding should_install_repair_log install_repair_log
  repair none node = node
  repair (some log) node =
      if should_install_repair_log log node then install_repair_log log node else node

  pub apply_control_plane_update : ControlPlaneUpdate → Node → Node
  unfolding install_update reboot repair needs_reset reset_pipeline
  apply_control_plane_update update node =
      let updated =
        repair update.repair_log (reboot update.membership_state (install_update update node)) in
      if needs_reset node updated then reset_pipeline updated else updated

  pull_update : Option ControlPlaneUpdate → Node → Node
  unfolding apply_control_plane_update acknowledge
  pull_update none node = node
  pull_update (some update) node =
      let applied =
        apply_control_plane_update update (record node {
          pending_control_plane_update = none;
          control_plane_irq_pending = false;
        }) in
      acknowledge node.pending_config applied.pending_config applied

  unfoldable pub pull_control_plane_update : Node → Node
  unfolding pull_update
  pull_control_plane_update node =
      if not node.control_plane_irq_pending
      then node
      else pull_update node.pending_control_plane_update node
