-- ===== src/Protocol/Equality.antt =====
-- `==` of the frozen dataclasses of sim/protocol/types.py: field by field, and of dicts without
-- regard to the order of insertion.
use syncons.Base.{Bool, true, false, ◌&&◌, List, [], ◌∷◌, ◌==◌, option_eq, dict_eq, int_eq, str_eq}
use syncons.Protocol.{
  MembershipState, active, failed, recovering, rejoin_pending, PendingConfigStatus, prepared,
  committed, NodeStatus, running, halted, crashed, InstalledConfig, PendingConfig,
  CommittedRoundRecord, RepairLog, ControlPlaneUpdate,
}

abbrev pub node_status_eq : NodeStatus → NodeStatus → Bool
node_status_eq running running = true
node_status_eq halted halted = true
node_status_eq crashed crashed = true
node_status_eq _ _ = false

abbrev pub membership_eq : MembershipState → MembershipState → Bool
membership_eq active active = true
membership_eq failed failed = true
membership_eq recovering recovering = true
membership_eq rejoin_pending rejoin_pending = true
membership_eq _ _ = false

abbrev pub pending_status_eq : PendingConfigStatus → PendingConfigStatus → Bool
pending_status_eq prepared prepared = true
pending_status_eq committed committed = true
pending_status_eq _ _ = false

pub installed_config_eq : InstalledConfig → InstalledConfig → Bool
installed_config_eq a b =
    a.membership_epoch == b.membership_epoch
    && (a.members_bitmap == b.members_bitmap && a.run_id == b.run_id)

pub pending_config_eq : PendingConfig → PendingConfig → Bool
pending_config_eq a b =
    a.membership_epoch == b.membership_epoch
    && (a.members_bitmap == b.members_bitmap
        && (a.effective_round == b.effective_round
            && (a.run_id == b.run_id && pending_status_eq a.status b.status)))

committed_record_eq : CommittedRoundRecord → CommittedRoundRecord → Bool
committed_record_eq a b =
    int_eq a.round b.round
    && (a.membership_epoch == b.membership_epoch
        && (a.commit_set == b.commit_set
            && (dict_eq str_eq a.proposals b.proposals
                && (option_eq ◌==◌ a.commit_time_ns b.commit_time_ns
                    && option_eq ◌==◌ a.app_delivery_time_ns b.app_delivery_time_ns))))

entries_eq : List CommittedRoundRecord → List CommittedRoundRecord → Bool
entries_eq [] [] = true
entries_eq (a ∷ as') (b ∷ bs) = committed_record_eq a b && entries_eq as' bs
entries_eq _ _ = false

repair_log_eq : RepairLog → RepairLog → Bool
repair_log_eq a b = entries_eq a.entries b.entries

pub update_eq : ControlPlaneUpdate → ControlPlaneUpdate → Bool
update_eq a b =
    installed_config_eq a.installed_config b.installed_config
    && (membership_eq a.membership_state b.membership_state
        && (option_eq pending_config_eq a.pending_config b.pending_config
            && option_eq repair_log_eq a.repair_log b.repair_log))
