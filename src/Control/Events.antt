-- ===== src/Control/Events.antt =====
-- How sim/control/control_plane.py takes the events of nodes: `observe_event` and below.
pub mod Acks
use syncons.Base.{
  ℕ, ◌+◌, Bool, true, false, not, ◌&&◌, Option, none, some, List, [], ◌∷◌, ◌++◌, if◌then◌else◌, leb,
  ◌==◌, option_eq, length, all, any, elem, set_default,
}
use syncons.Bitmap.{bitmap_members}
use syncons.Protocol.{PendingConfig, Event, node_crashed, node_halted, prepare_ack}
use syncons.Control.{
  ControlPlane, Scheduled, Action, commit_online_rejoin, Forwarded, ◌>>=◌, add_member,
  schedule_action,
}
use syncons.Control.Episode.{mark_node_failed, begin_collection_window}
use syncons.Control.Actions.{future_is}

-- Whether an interruption still belongs to the open window.
pub within_window : ℕ → Option ℕ → Bool
within_window available_at_ns none = false
within_window available_at_ns (some deadline) = leb available_at_ns deadline

-- The bookkeeping of `_note_interruption`, once the node is marked.
unfoldable pub queue_interruption : ℕ → ℕ → ControlPlane → ControlPlane
unfolding within_window begin_collection_window
queue_interruption target available_at_ns cp =
    if within_window available_at_ns cp.collection_deadline_ns && length cp.episode_targets == 0
    then record cp { collecting_targets = add_member target cp.collecting_targets }
    else begin_collection_window available_at_ns (record cp {
      queued_interruptions = set_default target available_at_ns cp.queued_interruptions;
    })

unfoldable pub note_interruption : ℕ → ℕ → ControlPlane → Option ControlPlane
unfolding mark_node_failed queue_interruption
note_interruption target available_at_ns cp = do
  marked ← mark_node_failed target cp
  some (queue_interruption target available_at_ns marked)

-- `_future_members`
abbrev pub future_members : PendingConfig → ControlPlane → List ℕ
future_members future cp = bitmap_members future.members_bitmap cp.node_count

-- `acks >= members`
abbrev pub covers : List ℕ → List ℕ → Bool
covers acks members = all (λ m. elem m acks) members

abbrev pub is_commit : Action → Bool
is_commit commit_online_rejoin = true
is_commit _ = false

unfoldable pub commit_scheduled : ControlPlane → Bool
commit_scheduled cp =
    any
      (λ (item : Scheduled).
        is_commit item.action && option_eq ◌==◌ item.episode_id cp.active_episode_id)
      cp.scheduled

-- What `_note_prepare_ack` does with an acknowledgement of the pending config.
unfoldable pub count_ack : ℕ → ℕ → PendingConfig → ControlPlane → ControlPlane
unfolding schedule_action commit_scheduled
count_ack node_id available_at_ns future cp =
    let acks = add_member node_id cp.prepare_acks in
    let counted = record cp { prepare_acks = acks } in
    let complete = record counted { last_prepare_acks = acks } in
    if not (covers acks (future_members future cp))
    then counted
    else if commit_scheduled complete
    then complete
    else schedule_action (available_at_ns + cp.timing.cp_decision_delay_ns) commit_online_rejoin
        cp.active_episode_id complete

-- `assert self._pending_future is not None`, then the guards on run and round. Events that the
-- runtime forwards carry both, so the defaults of the source are not needed.
unfoldable pub note_prepare_ack : ℕ → PendingConfig → ℕ → ControlPlane → Option ControlPlane
unfolding count_ack
note_prepare_ack node_id config available_at_ns cp = do
  future ← cp.pending_future
  if not (config.run_id == future.run_id)
      then some cp
      else if not (config.effective_round == future.effective_round)
      then some cp
      else some (count_ack node_id available_at_ns future cp)

unfoldable pub dispatch_event : Event → ℕ → ControlPlane → Option ControlPlane
unfolding note_interruption note_prepare_ack
dispatch_event (node_crashed node_id) available_at_ns cp =
    note_interruption node_id available_at_ns cp
dispatch_event (node_halted node_id halt_record) available_at_ns cp =
    note_interruption node_id available_at_ns cp
dispatch_event (prepare_ack node_id config) available_at_ns cp =
    if not (future_is false cp.pending_future)
    then some cp
    else note_prepare_ack node_id config available_at_ns cp

unfoldable pub observe_event : Forwarded → ControlPlane → Option ControlPlane
unfolding dispatch_event
observe_event forwarded cp =
    dispatch_event forwarded.event forwarded.available_at_ns
      (record cp { observed_events = cp.observed_events ++ forwarded ∷ [] })
