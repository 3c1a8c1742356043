-- ===== src/Node/Config/Stages.antt =====
-- What taking a configuration does to the stages of a node of sim/protocol/node.py.
use syncons.Base.{
  ℕ, ◌≡◌, refl, true, false, Option, none, some, [], arith, is_negative, if_cases, not,
}
use syncons.Protocol.{RoundStage, PendingConfig, ControlPlaneUpdate, MembershipState, RepairLog}
use syncons.Node.{Node}
use syncons.Node.Digest.{Hashing}
use syncons.Node.Config.{
  reset_pipeline, adopt_pending, activate, is_due, activate_if_due, should_install_repair_log,
  install_repair_log, activate_pending_config_if_due, install_update, reboot, repair, needs_reset,
  config_changed, apply_control_plane_update, acknowledge, pull_update, pull_control_plane_update,
}

-- A stage with no evidence, that is never judged.
pub record IsBlank (stage : RoundStage) : Type 0 where
  pub no_row : stage.row ≡ 0
  pub no_proposals : stage.proposals ≡ []
  pub no_rows : stage.rows ≡ []
  pub unjudged : is_negative stage.round_id ≡ true

-- The node is the same node, with the same two stages.
pub record SameStages (before after : Node) : Type 0 where
  pub same_id : after.node_id ≡ before.node_id
  pub same_count : after.node_count ≡ before.node_count
  pub same_round : after.current_round ≡ before.current_round
  pub same_current : after.current_stage ≡ before.current_stage
  pub same_previous : after.previous_stage ≡ before.previous_stage

-- The installed configuration is the same.
pub record SameConfig (before after : Node) : Type 0 where
  pub same_epoch : after.installed_membership_epoch ≡ before.installed_membership_epoch
  pub same_members : after.installed_membership ≡ before.installed_membership
  pub same_run : after.run_id ≡ before.run_id

-- The node is the same node, and has kept both stages and its configuration, or opened both
-- stages anew.
pub data KeepsOrResets (before after : Node) : Type 0 where
  kept : SameStages before after → SameConfig before after → KeepsOrResets before after
  opened :
      after.node_id ≡ before.node_id
      → after.node_count ≡ before.node_count
      → after.current_round ≡ before.current_round
      → IsBlank after.current_stage
      → IsBlank after.previous_stage
      → KeepsOrResets before after

pub SameStages-trans : {a b c : Node} → SameStages a b → SameStages b c → SameStages a c
SameStages-trans s t = ground arith

SameConfig-trans : {a b c : Node} → SameConfig a b → SameConfig b c → SameConfig a c
SameConfig-trans s t = ground arith

kept_trans :
    {a b c : Node} → SameStages a b → SameConfig a b → KeepsOrResets b c → KeepsOrResets a c
kept_trans s g (kept t f) = kept (SameStages-trans s t) (SameConfig-trans g f)
kept_trans s g (opened i n r c p) = opened (cc s.same_id) (cc s.same_count) (cc s.same_round) c p

trans-kept :
    {a b c : Node} → KeepsOrResets a b → SameStages b c → SameConfig b c → KeepsOrResets a c
trans-kept (kept s g) t f = kept (SameStages-trans s t) (SameConfig-trans g f)
trans-kept (opened i n r c p) t f =
    opened (cc t.same_id) (cc t.same_count) (cc t.same_round)
      (ground (arith, t.same_current, c.no_row, c.no_rows, c.no_proposals, c.unjudged))
      (ground (arith, t.same_previous, p.no_row, p.no_rows, p.no_proposals, p.unjudged))

-- Two changes of configuration in a row count as one.
pub KeepsOrResets-trans : {a b c : Node} → KeepsOrResets a b → KeepsOrResets b c → KeepsOrResets a c
KeepsOrResets-trans s (kept t f) = trans-kept s t f
KeepsOrResets-trans (kept s g) (opened i n r c p) = kept_trans s g (opened i n r c p)
KeepsOrResets-trans (opened i n r c p) (opened i' n' r' c' p') = opened (cc) (cc) (cc) c' p'

reset_pipeline-opened : {a b : Node} → SameStages a b → KeepsOrResets a (reset_pipeline b)
unfolding reset_pipeline
reset_pipeline-opened s =
    opened s.same_id s.same_count s.same_round
      (record { no_row = refl; no_proposals = refl; no_rows = refl; unjudged = refl })
      (record { no_row = refl; no_proposals = refl; no_rows = refl; unjudged = refl })

SameStages-refl : (a : Node) → SameStages a a
SameStages-refl a = record {
  same_id = refl;
  same_count = refl;
  same_round = refl;
  same_current = refl;
  same_previous = refl;
}

SameConfig-refl : (a : Node) → SameConfig a a
SameConfig-refl a = record { same_epoch = refl; same_members = refl; same_run = refl }

activate_if_due-Keeps :
    (round_id : ℕ) (pending : Option PendingConfig) (node : Node)
    → KeepsOrResets node (activate_if_due round_id pending node)
unfolding activate_if_due activate
activate_if_due-Keeps round_id none node = kept (SameStages-refl node) (SameConfig-refl node)
activate_if_due-Keeps round_id (some pending) node =
    if_cases (KeepsOrResets node) (is_due round_id pending)
      (λ _. reset_pipeline-opened {b = adopt_pending pending node} (ground arith))
      (λ _. kept (SameStages-refl node) (SameConfig-refl node))

pub reboot-Same : (state : MembershipState) (node : Node) → SameStages node (reboot state node)
unfolding reboot
reboot-Same state node = ground arith

pub acknowledge-Same :
    (before now : Option PendingConfig) (node : Node)
    → SameStages node (acknowledge before now node)
unfolding acknowledge
acknowledge-Same before none node = SameStages-refl node
acknowledge-Same before (some pending) node = ground arith

acknowledge-SameConfig :
    (before now : Option PendingConfig) (node : Node)
    → SameConfig node (acknowledge before now node)
unfolding acknowledge
acknowledge-SameConfig before none node = SameConfig-refl node
acknowledge-SameConfig before (some pending) node = ground arith

-- Stages are kept under the same configuration only.
needs_reset-SameConfig :
    (before after : Node) → needs_reset before after ≡ false → SameConfig before after
unfolding needs_reset config_changed
needs_reset-SameConfig before after h = ground arith

module _ (hashing : Hashing) where
  install_repair_log-Same :
      (log : RepairLog) (node : Node) → SameStages node (install_repair_log hashing log node)
  unfolding install_repair_log
  install_repair_log-Same log node = ground arith

  pub repair-Same :
      (log : Option RepairLog) (node : Node) → SameStages node (repair hashing log node)
  unfolding repair
  repair-Same none node = SameStages-refl node
  repair-Same (some log) node =
      if_cases (SameStages node) (should_install_repair_log hashing log node)
        (λ _. install_repair_log-Same log node) (λ _. SameStages-refl node)

  apply-Keeps :
      (update : ControlPlaneUpdate) (node : Node)
      → KeepsOrResets node (apply_control_plane_update hashing update node)
  unfolding apply_control_plane_update install_update
  apply-Keeps update node =
      let installed = install_update update node in
      let rebooted = reboot update.membership_state installed in
      let repaired = repair hashing update.repair_log rebooted in
      let same =
        SameStages-trans (reboot-Same update.membership_state installed)
          (repair-Same update.repair_log rebooted) in
      if_cases (KeepsOrResets node) (needs_reset node repaired)
        (λ _. reset_pipeline-opened (SameStages-trans (installed-Same update node) same))
        (λ h.
          kept (SameStages-trans (installed-Same update node) same)
            (needs_reset-SameConfig node repaired h))
    where
      installed-Same :
          (update : ControlPlaneUpdate) (node : Node) → SameStages node (install_update update node)
      installed-Same update node = ground arith

  pull_update-Keeps :
      (update : Option ControlPlaneUpdate) (node : Node)
      → KeepsOrResets node (pull_update hashing update node)
  unfolding pull_update
  pull_update-Keeps none node = kept (SameStages-refl node) (SameConfig-refl node)
  pull_update-Keeps (some update) node = kept_trans {b = cleared} (ground arith) (ground arith) (
      trans-kept (apply-Keeps update cleared)
        (acknowledge-Same node.pending_config _ (apply_control_plane_update hashing update cleared))
        (acknowledge-SameConfig node.pending_config _
          (apply_control_plane_update hashing update cleared)))
    where
      cleared : Node
      cleared = record node {
        pending_control_plane_update = none;
        control_plane_irq_pending = false;
      }

  -- The two steps by which a round configures a node keep both stages and the installed epoch,
  -- members and run, or open both stages anew, without evidence and never to be judged: no
  -- evidence of one configuration is judged under another.
  pub configure-Keeps :
      (round_id : ℕ) (node : Node)
      → KeepsOrResets node
          (pull_control_plane_update hashing (activate_pending_config_if_due round_id node))
  unfolding pull_control_plane_update activate_pending_config_if_due
  configure-Keeps round_id node =
      let activated = activate_if_due round_id node.pending_config node in
      KeepsOrResets-trans (activate_if_due-Keeps round_id node.pending_config node) (
        if_cases (KeepsOrResets activated) (not activated.control_plane_irq_pending)
          (λ _. kept (SameStages-refl activated) (SameConfig-refl activated))
          (λ _. pull_update-Keeps activated.pending_control_plane_update activated))
