-- ===== src/Control/Episode.antt =====
-- Collection windows and episodes of sim/control/control_plane.py.
use syncons.Base.{
  ℕ, ◌+◌, ◌/◌, not, ◌||◌, Option, none, some, List, [], ◌∷◌, Dict, filter, if◌then◌else◌, ltb, ◌==◌,
  option_eq, length, insert, lookup, keys,
}
use syncons.Bitmap.{bitmap_set}
use syncons.Protocol.{ControlPlaneState, MembershipState, active, failed, PendingConfig}
use syncons.Protocol.Equality.{membership_eq}
use syncons.Control.{
  ControlPlane, Scheduled, mark_recovering, prepare_online_rejoin, abort_online_rejoin, ◌>>=◌,
  union, sorted, schedule_action, episode_active,
}

-- `a // b`; `none` is the ZeroDivisionError.
unfoldable pub floor_div : ℕ → ℕ → Option ℕ
floor_div a b = if b == 0 then none else some (a / b)

unfoldable pub mark_node_failed : ℕ → ControlPlane → Option ControlPlane
mark_node_failed node_id cp = do
  state ← cp.current_state
  some (
      if option_eq membership_eq (lookup node_id state.node_states) (some failed)
      then cp
      else record cp {
        current_state =
            some (record state { node_states = insert node_id failed state.node_states });
      })

unfoldable pub begin_collection_window : ℕ → ControlPlane → ControlPlane
begin_collection_window current_time_ns cp =
    if not (length cp.collecting_targets == 0) || episode_active cp
    then cp
    else if length cp.queued_interruptions == 0
    then cp
    else record cp {
      collecting_targets = keys cp.queued_interruptions;
      queued_interruptions = [];
      collection_deadline_ns = some (current_time_ns + cp.timing.cp_collection_delay_ns);
    }

-- The active nodes and the targets.
unfoldable pub episode_members : ControlPlaneState → ControlPlane → List ℕ
episode_members state cp =
    union (keys (filter (λ e. membership_eq e.1 active) state.node_states)) cp.episode_targets

-- The three actions of an episode whose collection ended at the deadline.
unfoldable pub schedule_episode : ℕ → ControlPlane → Option ControlPlane
unfolding episode_members floor_div schedule_action
schedule_episode deadline cp = do
  state ← cp.current_state
  bitmap ← bitmap_set cp.node_count (sorted (episode_members state cp))
  let episode_id = cp.next_episode_id
  let repair_start = deadline + cp.timing.cp_decision_delay_ns
  let prepare_at = repair_start + cp.timing.repair_delay_ns
  round ← floor_div prepare_at cp.timing.round_length_ns
  some (
      schedule_action (prepare_at + cp.timing.install_delay_ns) abort_online_rejoin
        (some episode_id)
        (schedule_action prepare_at prepare_online_rejoin (some episode_id) (
          schedule_action repair_start mark_recovering (some episode_id) (record cp {
            active_episode_id = some episode_id;
            next_episode_id = episode_id + 1;
            episode_members_bitmap = some bitmap;
            prepare_round = some (round + 1);
          }))))

-- `_close_collection_window_if_due` at a deadline.
unfoldable pub close_window : ℕ → ℕ → ControlPlane → Option ControlPlane
unfolding schedule_episode
close_window deadline current_time_ns cp =
    if ltb current_time_ns deadline
    then some cp
    else if length cp.collecting_targets == 0
    then some (record cp { collection_deadline_ns = none })
    else do
      scheduled ←
          schedule_episode deadline
            (record cp { episode_targets = cp.collecting_targets; collecting_targets = [] })
      some (record scheduled { collection_deadline_ns = none })

unfoldable pub close_at : Option ℕ → ℕ → ControlPlane → Option ControlPlane
unfolding close_window
close_at none current_time_ns cp = some cp
close_at (some deadline) current_time_ns cp = close_window deadline current_time_ns cp

unfoldable pub close_collection_window_if_due : ℕ → ControlPlane → Option ControlPlane
unfolding close_at
close_collection_window_if_due current_time_ns cp =
    close_at cp.collection_deadline_ns current_time_ns cp

-- `_node_states_with_targets`
unfoldable pub with_targets : MembershipState → List ℕ → Dict MembershipState → Dict MembershipState
with_targets target_state [] node_states = node_states
with_targets target_state (node_id ∷ targets) node_states =
    with_targets target_state targets (insert node_id target_state node_states)

-- What is left of the schedule when an episode is cleared.
unfoldable pub without_episode : Option ℕ → List Scheduled → List Scheduled
without_episode none scheduled = scheduled
without_episode (some cleared) scheduled =
    filter (λ item. not (option_eq ◌==◌ item.episode_id (some cleared))) scheduled

unfoldable pub clear_episode_state : ControlPlane → ControlPlane
unfolding without_episode
clear_episode_state cp = record cp {
  episode_targets = [];
  active_episode_id = none;
  episode_members_bitmap = none;
  prepare_round = none;
  prepare_acks = [];
  scheduled = without_episode cp.active_episode_id cp.scheduled;
}

unfoldable pub install_pending_future :
    PendingConfig → ControlPlaneState → ControlPlane → ControlPlane
install_pending_future pending state cp = record cp {
  pending_future = some pending;
  current_state = some (record state { pending_config = some pending });
}
