-- ===== src/Control/Actions.antt =====
-- `_apply_action` and `_maybe_activate_cutover` of sim/control/control_plane.py.
pub mod Cutover
pub mod Aborts
use syncons.Base.{
  ℕ, ◌+◌, ◌*◌, max, Bool, false, not, Option, none, some, List, [], ◌∷◌, Dict, if◌then◌else◌, ltb,
  ◌==◌, option_eq, length, keys, elem, set_default, tabulate, range,
}
use syncons.Bitmap.{has_bit}
use syncons.Protocol.{
  ControlPlaneState, active, failed, recovering, rejoin_pending, PendingConfig, prepared, committed,
}
use syncons.Protocol.Equality.{pending_status_eq}
use syncons.Control.{
  ControlPlane, Scheduled, Action, mark_recovering, prepare_online_rejoin, commit_online_rejoin,
  abort_online_rejoin, activate_online_rejoin, ◌>>=◌, union, sorted, record_applied_action,
}
use syncons.Control.Episode.{
  floor_div, with_targets, install_pending_future, clear_episode_state, begin_collection_window,
}

-- `assert self._episode_targets`, then the targets recover.
unfoldable pub apply_mark_recovering : ℕ → ControlPlaneState → ControlPlane → Option ControlPlane
unfolding with_targets record_applied_action
apply_mark_recovering at_ns state cp =
    if length cp.episode_targets == 0
    then none
    else some (
        record_applied_action
          (record {
            time_ns = at_ns;
            action = mark_recovering;
            node_ids = sorted cp.episode_targets;
            members_bitmap = none;
            effective_round = none;
          })
          (record cp {
            current_state = some (record state {
              node_states = with_targets recovering cp.episode_targets state.node_states;
            });
          }))

-- The config that an episode prepares.
unfoldable pub prepared_config : ℕ → ℕ → ControlPlaneState → ControlPlane → PendingConfig
prepared_config prepare_round bitmap state cp = record {
  membership_epoch = state.installed_config.membership_epoch + 1;
  members_bitmap = bitmap;
  effective_round = prepare_round + cp.cutover_slack_rounds;
  run_id = state.installed_config.run_id + 1;
  status = prepared;
}

unfoldable pub apply_prepare : ℕ → ControlPlaneState → ControlPlane → Option ControlPlane
unfolding prepared_config with_targets record_applied_action
apply_prepare at_ns state cp = do
  prepare_round ← cp.prepare_round
  bitmap ← cp.episode_members_bitmap
  let pending = prepared_config prepare_round bitmap state cp
  some (
      record_applied_action
        (record {
          time_ns = at_ns;
          action = prepare_online_rejoin;
          node_ids = sorted cp.episode_targets;
          members_bitmap = some bitmap;
          effective_round = some pending.effective_round;
        })
        (record cp {
          prepare_acks = [];
          pending_future = some pending;
          current_state = some (record state {
            node_states = with_targets rejoin_pending cp.episode_targets state.node_states;
            pending_config = some pending;
          });
        }))

-- The pending config, committed for a round after the one in which the commit becomes visible.
unfoldable pub committed_config : ℕ → PendingConfig → PendingConfig
committed_config commit_visible_round pending = record pending {
  effective_round = max pending.effective_round (commit_visible_round + 1);
  status = committed;
}

unfoldable pub commit_future :
    Option PendingConfig → ℕ → ControlPlaneState → ControlPlane → Option ControlPlane
unfolding committed_config floor_div install_pending_future record_applied_action
commit_future none at_ns state cp = some cp
commit_future (some pending) at_ns state cp = do
  round ← floor_div at_ns cp.timing.round_length_ns
  let config = committed_config (round + 1) pending
  some (
      record_applied_action
        (record {
          time_ns = at_ns;
          action = commit_online_rejoin;
          node_ids = sorted cp.episode_targets;
          members_bitmap = none;
          effective_round = some config.effective_round;
        })
        (install_pending_future config state cp))

unfoldable pub apply_commit : ℕ → ControlPlaneState → ControlPlane → Option ControlPlane
unfolding commit_future
apply_commit at_ns state cp = commit_future cp.pending_future at_ns state cp

-- `for node_id in retry_targets: self._queued_interruptions.setdefault(node_id, at_ns)`
unfoldable pub requeue : ℕ → List ℕ → Dict ℕ → Dict ℕ
requeue at_ns [] queued = queued
requeue at_ns (node_id ∷ targets) queued = requeue at_ns targets (set_default node_id at_ns queued)

-- The abort of a config that is still only prepared, but for the next collection window.
unfoldable pub aborted_at : ℕ → ControlPlaneState → ControlPlane → ControlPlane
unfolding requeue record_applied_action clear_episode_state
aborted_at at_ns state cp =
    let retry_targets = union cp.episode_targets (keys cp.queued_interruptions) in
    clear_episode_state
      (record (record_applied_action
        (record {
          time_ns = at_ns;
          action = abort_online_rejoin;
          node_ids = sorted cp.episode_targets;
          members_bitmap = none;
          effective_round = none;
        })
        cp) {
          current_state = some (record {
            installed_config = state.installed_config;
            node_states =
                tabulate (λ node_id. if elem node_id retry_targets then failed else active)
                  (range cp.node_count);
            pending_config = none;
            repair_logs = [];
          });
          queued_interruptions = requeue at_ns retry_targets cp.queued_interruptions;
          pending_future = none;
        })

unfoldable pub abort_episode : ℕ → ControlPlaneState → ControlPlane → ControlPlane
unfolding aborted_at begin_collection_window
abort_episode at_ns state cp = begin_collection_window at_ns (aborted_at at_ns state cp)

-- `self._pending_future is not None and … .status == status`
abbrev pub future_is : Bool → Option PendingConfig → Bool
future_is is_committed none = false
future_is is_committed (some pending) =
    pending_status_eq pending.status (if is_committed then committed else prepared)

unfoldable pub apply_abort : ℕ → ControlPlaneState → ControlPlane → Option ControlPlane
unfolding abort_episode
apply_abort at_ns state cp =
    if not (future_is false cp.pending_future) then some cp else some (abort_episode at_ns state cp)

-- By the action; `activate_online_rejoin` is never scheduled, and raises a ValueError.
unfoldable pub dispatch : Action → ℕ → ControlPlaneState → ControlPlane → Option ControlPlane
unfolding apply_mark_recovering apply_prepare apply_commit apply_abort
dispatch mark_recovering at_ns state cp = apply_mark_recovering at_ns state cp
dispatch prepare_online_rejoin at_ns state cp = apply_prepare at_ns state cp
dispatch commit_online_rejoin at_ns state cp = apply_commit at_ns state cp
dispatch abort_online_rejoin at_ns state cp = apply_abort at_ns state cp
dispatch activate_online_rejoin at_ns state cp = none

-- The action of an episode that is no longer the active one is dropped.
abbrev pub is_stale : Option ℕ → Option ℕ → Bool
is_stale none active_id = false
is_stale (some episode_id) active_id = not (option_eq ◌==◌ (some episode_id) active_id)

unfoldable pub apply_action : Scheduled → ControlPlane → Option ControlPlane
unfolding dispatch
apply_action item cp = do
  state ← cp.current_state
  if cp.node_count == 0
      then none
      else if is_stale item.episode_id cp.active_episode_id
      then some cp
      else dispatch item.action item.time_ns state cp

-- The state of the control plane once the future config is the installed one.
unfoldable pub installed_state : PendingConfig → ℕ → ControlPlaneState
installed_state future node_count = record {
  installed_config = record {
    membership_epoch = future.membership_epoch;
    members_bitmap = future.members_bitmap;
    run_id = future.run_id;
  };
  node_states =
      tabulate (λ node_id. if has_bit future.members_bitmap node_id then active else failed)
        (range node_count);
  pending_config = none;
  repair_logs = [];
}

-- The end of an episode by the cutover to its config, but for the next collection window.
unfoldable pub ended_at : PendingConfig → ℕ → ControlPlane → ControlPlane
unfolding installed_state record_applied_action clear_episode_state
ended_at future round_id cp =
    clear_episode_state
      (record (record_applied_action
        (record {
          time_ns = round_id * cp.timing.round_length_ns;
          action = activate_online_rejoin;
          node_ids = sorted cp.episode_targets;
          members_bitmap = none;
          effective_round = some future.effective_round;
        })
        cp) { current_state = some (installed_state future cp.node_count); pending_future = none })

unfoldable pub cut_over : PendingConfig → ℕ → ControlPlane → ControlPlane
unfolding ended_at begin_collection_window
cut_over future round_id cp =
    begin_collection_window (round_id * cp.timing.round_length_ns) (ended_at future round_id cp)

unfoldable pub cut_over_if_due : Option PendingConfig → ℕ → ControlPlane → ControlPlane
unfolding cut_over
cut_over_if_due none round_id cp = cp
cut_over_if_due (some future) round_id cp =
    if not (pending_status_eq future.status committed)
    then cp
    else if ltb round_id future.effective_round
    then cp
    else cut_over future round_id cp

unfoldable pub maybe_activate_cutover : ℕ → ControlPlane → ControlPlane
unfolding cut_over_if_due
maybe_activate_cutover round_id cp = cut_over_if_due cp.pending_future round_id cp
