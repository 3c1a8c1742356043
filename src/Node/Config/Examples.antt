-- ===== src/Node/Config/Examples.antt =====
-- Instances of the laws of the configuration steps.
use syncons.Base.{pos, false, ◌≡◌, ◌≢◌, none, some, [], ◌∷◌}
use syncons.Protocol.{
  rejoin_pending, prepared, committed, PendingConfig, RepairLog, ControlPlaneUpdate, halted,
}
use syncons.Node.{Node, new_node}
use syncons.Node.Digest.{digest_for_committed_rounds}
use syncons.Node.Samples.{tally, node_at}
use syncons.Node.Config.{
  activate_pending_config_if_due, pull_control_plane_update, push_control_plane_update, repair,
  repair_frontier,
}
use syncons.Node.Config.Cutover.{CutOver, activate_pending_config_if_due-CutOver, repair_lem}
use syncons.Node.Config.Stages.{KeepsOrResets, configure-Keeps}
use syncons.Node.Config.Applied.{IsUpdated, pull-push-IsUpdated}

abbrev next_config : PendingConfig
next_config = record {
  membership_epoch = 1;
  members_bitmap = 7;
  effective_round = 30;
  run_id = 1;
  status = committed;
}

abbrev waiting : Node
unfolding new_node
waiting = record (node_at 2) { status = halted; pending_config = some next_config }

abbrev one_entry : RepairLog
one_entry = record {
  entries =
      record {
        round = pos 0;
        membership_epoch = 0;
        commit_set = 7;
        proposals = (0, "cmd") ∷ (1, "cmd") ∷ (2, "cmd") ∷ [];
        commit_time_ns = none;
        app_delivery_time_ns = none;
      }
      ∷ [];
}

abbrev rejoin : ControlPlaneUpdate
rejoin = record {
  installed_config = record { membership_epoch = 0; members_bitmap = 7; run_id = 0 };
  membership_state = rejoin_pending;
  pending_config = some (record next_config { status = prepared });
  repair_log = some one_entry;
}

activate_pending_config_if_due-CutOver_example :
    CutOver 30 waiting.pending_config waiting (activate_pending_config_if_due 30 waiting)
activate_pending_config_if_due-CutOver_example = activate_pending_config_if_due-CutOver 30 waiting

some_entry : one_entry.entries ≢ []
some_entry e = cc

repair_of_two :
    ((repair tally (some one_entry) (node_at 2)).committed_frontier ≡ repair_frontier one_entry)
    × ((repair tally (some one_entry) (node_at 2)).commit_digest
        ≡ digest_for_committed_rounds tally one_entry.entries)
repair_of_two = repair_lem tally one_entry (node_at 2) some_entry

pull-push-IsUpdated_example :
    IsUpdated tally rejoin
      (record waiting { pending_control_plane_update = none; control_plane_irq_pending = false })
      (pull_control_plane_update tally (push_control_plane_update rejoin waiting))
pull-push-IsUpdated_example = pull-push-IsUpdated tally rejoin waiting

configure-Keeps_example :
    KeepsOrResets waiting
      (pull_control_plane_update tally (activate_pending_config_if_due 30 waiting))
configure-Keeps_example = configure-Keeps tally 30 waiting
