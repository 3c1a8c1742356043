-- ===== src/Node/Config/Applied.antt =====
-- The contract of the control plane's mailbox in sim/protocol/node.py: what a pulled update
-- leaves a node with, its repair log and its pipeline included.
use syncons.Base.{◌≡◌, refl, sym, subst, ◌≢◌, ◌⊎◌, inl, inr, false, Option, none, arith, Bool-cases}
use syncons.Protocol.{active, PendingConfig, ControlPlaneUpdate}
use syncons.Node.{Node}
use syncons.Node.Digest.{Hashing}
use syncons.Node.Config.{
  reset_pipeline, push_control_plane_update, reboot, install_update, needs_reset, acknowledge,
  repair, apply_control_plane_update, pull_control_plane_update, config_changed, pull_update,
}
use syncons.Node.Config.Stages.{
  IsBlank, SameStages, SameStages-trans, reboot-Same, acknowledge-Same, repair-Same,
}
use syncons.Node.Config.Updates.{
  IsInstalled, reset_pipeline-IsInstalled, before_reset, acknowledge-IsInstalled,
}
use syncons.Node.Config.Repaired.{
  history, IsRepaired, history-reboot, history-acknowledge, repair-IsRepaired,
}

-- The update leaves configuration, state and run of the node as they are, and does not make it
-- active.
pub record IsQuiet (update : ControlPlaneUpdate) (before : Node) : Type 0 where
  pub epoch : before.installed_membership_epoch ≡ update.installed_config.membership_epoch
  pub members : before.installed_membership ≡ update.installed_config.members_bitmap
  pub run : before.run_id ≡ update.installed_config.run_id
  pub joined : (before.membership_state ≡ active) ⊎ (update.membership_state ≢ active)

-- What an update leaves a node with.
pub record IsUpdated (hashing : Hashing) (update : ControlPlaneUpdate) (before after : Node)
    : Type 0 where
  pub installed : IsInstalled update before after
  pub repaired : IsRepaired hashing (history before) (history after) update.repair_log
  pub keeps : IsQuiet update before → SameStages before after
  pub resets : IsQuiet update before ⊎ (IsBlank after.current_stage × IsBlank after.previous_stage)

needs_reset-IsQuiet :
    (update : ControlPlaneUpdate) (before after : Node)
    → IsInstalled update before after
    → needs_reset before after ≡ false
    → IsQuiet update before
unfolding needs_reset config_changed
needs_reset-IsQuiet update before after u h = record {
  epoch = ground (arith, u.epoch);
  members = ground (arith, u.members);
  run = ground (arith, u.run);
  joined = ground (arith, u.membership);
}

IsQuiet-needs_reset :
    (update : ControlPlaneUpdate) (before after : Node)
    → IsInstalled update before after
    → IsQuiet update before
    → needs_reset before after ≡ false
unfolding needs_reset config_changed
IsQuiet-needs_reset update before after u q =
    ground (arith, u.epoch, u.members, u.run, u.membership, q.epoch, q.members, q.run, q.joined)

reset_pipeline-IsBlank :
    (node : Node)
    → IsBlank (reset_pipeline node).current_stage × IsBlank (reset_pipeline node).previous_stage
unfolding reset_pipeline
reset_pipeline-IsBlank node = (
  record { no_row = refl; no_proposals = refl; no_rows = refl; unjudged = refl },
  record { no_row = refl; no_proposals = refl; no_rows = refl; unjudged = refl },
)

module _ (hashing : Hashing) where
  -- The repair stands between the reboot and the reset of the pipeline, which leave the history.
  apply-IsUpdated :
      (update : ControlPlaneUpdate) (node : Node)
      → IsUpdated hashing update node (apply_control_plane_update hashing update node)
  unfolding apply_control_plane_update install_update reset_pipeline
  apply-IsUpdated update node =
      let installed = install_update update node in
      let rebooted = reboot update.membership_state installed in
      let after = repair hashing update.repair_log rebooted in
      let same : SameStages node after = SameStages-trans {b = installed} (ground arith) (
        SameStages-trans (reboot-Same update.membership_state installed)
          (repair-Same hashing update.repair_log rebooted)) in
      let made = before_reset hashing update node in
      let history_made : IsRepaired hashing (history node) (history after) update.repair_log =
        subst (λ h. IsRepaired hashing h (history after) update.repair_log)
          (history-reboot update.membership_state installed)
          (repair-IsRepaired hashing update.repair_log rebooted) in
      elim (Bool-cases (needs_reset node after)) [
        | inl e ↦ rw e (record {
          installed = reset_pipeline-IsInstalled update node after made;
          repaired = history_made;
          keeps = λ q. cc (e, IsQuiet-needs_reset update node after made q);
          resets = inr (reset_pipeline-IsBlank after);
        })
        | inr e ↦ rw e (record {
          installed = made;
          repaired = history_made;
          keeps = λ q. same;
          resets = inl (needs_reset-IsQuiet update node after made e);
        })
      ]

  acknowledge-IsUpdated :
      (update : ControlPlaneUpdate) (old now : Option PendingConfig) (before after : Node)
      → IsUpdated hashing update before after
      → IsUpdated hashing update before (acknowledge old now after)
  acknowledge-IsUpdated update old now before after u =
      let same = acknowledge-Same old now after in
      record {
        installed = acknowledge-IsInstalled hashing update old now before after u.installed;
        repaired = rw (history-acknowledge old now after) u.repaired;
        keeps = λ q. SameStages-trans (u.keeps q) same;
        resets = elim (u.resets) [
          | inl q ↦ inl q
          | inr (c, p) ↦
              inr
                (subst IsBlank (sym same.same_current) c, subst IsBlank (sym same.same_previous) p)
        ];
      }

  -- After the next pull of a pushed update the mailbox is empty. The configuration, membership
  -- state and pending config of the update are installed; a crashed or halted node runs unless the
  -- update lists it as failed; a repair log with entries gives frontier and digest; and the stages
  -- are opened anew, unless configuration and run are as before and the node has not just become
  -- active, when they are kept.
  pub pull-push-IsUpdated :
      (update : ControlPlaneUpdate) (node : Node)
      → IsUpdated hashing update
          (record node { pending_control_plane_update = none; control_plane_irq_pending = false })
          (pull_control_plane_update hashing (push_control_plane_update update node))
  unfolding pull_control_plane_update push_control_plane_update pull_update
  pull-push-IsUpdated update node =
      let cleared = record node {
        pending_control_plane_update = none;
        control_plane_irq_pending = false;
      } in
      let applied = apply_control_plane_update hashing update cleared in
      acknowledge-IsUpdated update node.pending_config applied.pending_config cleared applied
        (apply-IsUpdated update cleared)
