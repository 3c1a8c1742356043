-- ===== src/Control/Examples.antt =====
-- Runs of the control plane of three nodes in which node 2 crashes, and instances of its theorems.
use syncons.Base.{◌≡◌, refl, ◌⊎◌, true, false, none, some, [], ◌∷◌, arith, is_some, pos}
use syncons.Bitmap.{bitmap_set}
use syncons.Protocol.{
  CommittedRoundRecord, RepairSnapshot, ControlPlaneState, PendingConfig, prepared, committed,
  default_timing, node_crashed, failed, active, rejoin_pending, MembershipState,
}
use syncons.Control.{
  ControlPlane, Forwarded, new_control_plane, episode_active, initialise, initial_state,
  mark_recovering, prepare_online_rejoin, abort_online_rejoin,
}
use syncons.Control.Repair.{select_repair_prefix, rebuild_repair_logs}
use syncons.Control.Episode.{begin_collection_window, close_collection_window_if_due}
use syncons.Control.Repair.Prefix.{IsBest, select_repair_prefix-IsBest}
use syncons.Control.Actions.{apply_abort, apply_action, future_is, maybe_activate_cutover}
use syncons.Control.Actions.Aborts.{IsAborted, apply_abort-IsAborted}
use syncons.Control.Actions.Cutover.{CutOver, maybe_activate_cutover-CutOver}
use syncons.Control.Events.{observe_event}
use syncons.Control.Clock.{comes_first, advance_to_time, control_state_at}
use syncons.Control.Validity.{IsValid}
use syncons.Control.Validity.Driven.{Driven, first, observed, advanced, Driven-IsValid, Driven-Runs}

abbrev start : ControlPlane
start = new_control_plane default_timing

abbrev crash_of_two : Forwarded
crash_of_two = record { event = node_crashed 2; round = 2; available_at_ns = 10_000 }

abbrev state_with : MembershipState → ControlPlaneState
state_with of_two = record {
  installed_config = record { membership_epoch = 0; members_bitmap = 7; run_id = 0 };
  node_states = (0, active) ∷ (1, active) ∷ (2, of_two) ∷ [];
  pending_config = none;
  repair_logs = [];
}

abbrev started : ControlPlane
started = record start { node_count = 3; current_state = some (state_with active) }

start-started : advance_to_time [] 0 3 start ≡ some started
unfolding advance_to_time initialise initial_state bitmap_set new_control_plane
    close_collection_window_if_due begin_collection_window episode_active rebuild_repair_logs
start-started = refl

-- Node 2 crashes; its window is open for 20 µs.
abbrev crashed : ControlPlane
crashed = record started {
  current_state = some (state_with failed);
  observed_events = crash_of_two ∷ [];
  collecting_targets = 2 ∷ [];
  collection_deadline_ns = some 30_000;
}

started-crashed : observe_event crash_of_two started ≡ some crashed
unfolding observe_event new_control_plane episode_active
started-crashed = refl

-- The window is over, and the episode scheduled.
abbrev under_way : ControlPlane
under_way = record crashed {
  collecting_targets = [];
  episode_targets = 2 ∷ [];
  collection_deadline_ns = none;
  next_episode_id = 2;
  active_episode_id = some 1;
  episode_members_bitmap = some 7;
  prepare_round = some 24;
  scheduled =
      record { time_ns = 45_000; action = mark_recovering; episode_id = some 1 }
      ∷ record { time_ns = 95_000; action = prepare_online_rejoin; episode_id = some 1 }
      ∷ record { time_ns = 115_000; action = abort_online_rejoin; episode_id = some 1 }
      ∷ [];
}

crashed-under_way : advance_to_time [] 40_000 3 crashed ≡ some under_way
unfolding advance_to_time bitmap_set new_control_plane initialise close_collection_window_if_due
    begin_collection_window episode_active rebuild_repair_logs
crashed-under_way = refl

-- The config that brings node 2 back.
abbrev future : PendingConfig
future = record {
  membership_epoch = 1;
  members_bitmap = 7;
  effective_round = 34;
  run_id = 1;
  status = prepared;
}

abbrev preparing : ControlPlane
preparing = record under_way {
  current_state = some (record (state_with rejoin_pending) { pending_config = some future });
  scheduled = record { time_ns = 115_000; action = abort_online_rejoin; episode_id = some 1 } ∷ [];
  pending_future = some future;
  applied =
      record {
        time_ns = 45_000;
        action = mark_recovering;
        node_ids = 2 ∷ [];
        members_bitmap = none;
        effective_round = none;
      }
      ∷ record {
        time_ns = 95_000;
        action = prepare_online_rejoin;
        node_ids = 2 ∷ [];
        members_bitmap = some 7;
        effective_round = some 34;
      }
      ∷ [];
}

under_way-preparing : advance_to_time [] 96_000 3 under_way ≡ some preparing
unfolding advance_to_time new_control_plane initialise close_collection_window_if_due
    begin_collection_window episode_active comes_first apply_action rebuild_repair_logs
    select_repair_prefix
under_way-preparing = refl

Driven-crashed : Driven 3 default_timing under_way
Driven-crashed =
    advanced [] 40_000 crashed under_way
      (observed crash_of_two started crashed (omega arith) (first [] 0 started start-started)
        started-crashed)
      crashed-under_way

Driven-preparing : Driven 3 default_timing preparing
Driven-preparing = advanced [] 96_000 under_way preparing Driven-crashed under_way-preparing

Driven-IsValid_example : IsValid 3 preparing
Driven-IsValid_example =
    Driven-IsValid 3 default_timing (omega arith) (omega arith) Driven-preparing

Driven-Runs_example :
    (is_some (advance_to_time [] 100_000 3 start) ≡ true)
    × (is_some (advance_to_time [] 100_000 3 preparing) ≡ true)
    × (is_some (control_state_at [] 25 3 preparing) ≡ true)
    × (is_some (observe_event crash_of_two preparing) ≡ true)
Driven-Runs_example =
    Driven-Runs 3 default_timing (omega arith) (omega arith) [] 100_000 25 crash_of_two preparing
      (omega arith) Driven-preparing

apply_abort-IsAborted_example :
    (after : ControlPlane) × (apply_abort 115_000 (state_with rejoin_pending) preparing
      ≡ some after)
    × ((future_is false preparing.pending_future ≡ true)
          × IsAborted (state_with rejoin_pending) preparing after
        ⊎ (future_is false preparing.pending_future ≡ false) × (after ≡ preparing))
apply_abort-IsAborted_example = apply_abort-IsAborted 115_000 (state_with rejoin_pending) preparing

abbrev agreed : PendingConfig
agreed = record future { status = committed }

maybe_activate_cutover-CutOver_example :
    CutOver 34
      (some agreed)
      (record preparing { pending_future = some agreed })
      (maybe_activate_cutover 34 (record preparing { pending_future = some agreed }))
maybe_activate_cutover-CutOver_example =
    maybe_activate_cutover-CutOver 34 (record preparing { pending_future = some agreed })

-- Two nodes have acknowledged; the third completes the set.
abbrev two_acks : ControlPlane
two_acks = record preparing { prepare_acks = 0 ∷ 1 ∷ [] }

abbrev entry : CommittedRoundRecord
entry = record {
  round = pos 0;
  membership_epoch = 0;
  commit_set = 7;
  proposals = (0, "cmd") ∷ [];
  commit_time_ns = some 8_000;
  app_delivery_time_ns = none;
}

abbrev shorter : RepairSnapshot
shorter = record { node_id = 0; committed_rounds = [] }

abbrev longer : RepairSnapshot
longer = record { node_id = 1; committed_rounds = entry ∷ [] }

select_repair_prefix-IsBest_example :
    (source : RepairSnapshot) × IsBest source (shorter ∷ longer ∷ [])
    × ((select_repair_prefix (shorter ∷ longer ∷ [])).entries ≡ source.committed_rounds)
select_repair_prefix-IsBest_example = select_repair_prefix-IsBest shorter (longer ∷ [])
