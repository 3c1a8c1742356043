-- ===== src/Control/Clock.antt =====
-- `advance_to_time` and `__call__` of sim/control/control_plane.py.
use syncons.Base.{
  ℕ, ◌+◌, Bool, true, false, not, Option, none, some, List, [], ◌∷◌, if◌then◌else◌, ltb, leb,
  filter,
}
use syncons.Protocol.{ControlPlaneState, RepairSnapshot}
use syncons.Control.{
  ControlPlane, Scheduled, Action, abort_online_rejoin, activate_online_rejoin,
  commit_online_rejoin, mark_recovering, prepare_online_rejoin, ◌>>=◌, initialise,
}
use syncons.Control.Repair.{rebuild_repair_logs}
use syncons.Control.Episode.{begin_collection_window, close_collection_window_if_due}
use syncons.Control.Actions.{apply_action, maybe_activate_cutover}

-- The place of an action's name in the order of texts.
pub action_rank : Action → ℕ
action_rank abort_online_rejoin = 0
action_rank activate_online_rejoin = 1
action_rank commit_online_rejoin = 2
action_rank mark_recovering = 3
action_rank prepare_online_rejoin = 4

-- `-1` of an action with no episode comes before all ids.
abbrev pub episode_rank : Option ℕ → ℕ
episode_rank none = 0
episode_rank (some episode_id) = episode_id + 1

-- The order of the keys of `sorted`, not strictly.
unfoldable pub comes_first : Scheduled → Scheduled → Bool
unfolding action_rank
comes_first a b =
    if ltb a.time_ns b.time_ns
    then true
    else if ltb b.time_ns a.time_ns
    then false
    else if ltb (action_rank a.action) (action_rank b.action)
    then true
    else if ltb (action_rank b.action) (action_rank a.action)
    then false
    else leb (episode_rank a.episode_id) (episode_rank b.episode_id)

-- `sorted` by insertion, which is stable as Python's is.
unfoldable pub sort_scheduled : Scheduled → List Scheduled → List Scheduled
sort_scheduled a [] = a ∷ []
sort_scheduled a (b ∷ bs) = if comes_first a b then a ∷ b ∷ bs else b ∷ sort_scheduled a bs

unfoldable pub sorted_actions : List Scheduled → List Scheduled
unfolding sort_scheduled
sorted_actions [] = []
sorted_actions (a ∷ items) = sort_scheduled a (sorted_actions items)

unfoldable pub apply_actions : List Scheduled → ControlPlane → Option ControlPlane
apply_actions [] cp = some cp
apply_actions (item ∷ items) cp = do applied ← apply_action item cp; apply_actions items applied

abbrev pub is_ready : ℕ → Scheduled → Bool
is_ready time_ns item = leb item.time_ns time_ns

-- The two window steps that stand before and after the actions.
unfoldable pub turn_window : ℕ → ControlPlane → Option ControlPlane
turn_window time_ns cp = close_collection_window_if_due time_ns (begin_collection_window time_ns cp)

unfoldable pub advance_to_time : List RepairSnapshot → ℕ → ℕ → ControlPlane → Option ControlPlane
unfolding sorted_actions apply_actions turn_window
advance_to_time snapshots time_ns node_count cp = do
  ready_state ← initialise node_count cp
  opened ← turn_window time_ns ready_state
  applied ←
      apply_actions (sorted_actions (filter (is_ready time_ns) opened.scheduled)) (record opened {
        scheduled = filter (λ item. not (is_ready time_ns item)) opened.scheduled;
      })
  closed ← turn_window time_ns applied
  rebuild_repair_logs snapshots closed

-- `__call__`, with the state that it returns.
unfoldable pub control_state_at :
    List RepairSnapshot → ℕ → ℕ → ControlPlane → Option (ControlPlaneState × ControlPlane)
control_state_at snapshots round_id node_count cp = do
  ready_state ← initialise node_count cp
  rebuilt ← rebuild_repair_logs snapshots (maybe_activate_cutover round_id ready_state)
  state ← rebuilt.current_state
  some (state, rebuilt)
