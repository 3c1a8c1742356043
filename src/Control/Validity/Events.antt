-- ===== src/Control/Validity/Events.antt =====
-- The events that sim/control/control_plane.py observes keep a valid state.
use syncons.Base.{
  all-append, ℕ, ◌+◌, ◌≡◌, ◌<◌, refl, true, false, not, ◌&&◌, Option, none, some, List, [], ◌∷◌,
  ◌++◌, arith, ◌==◌, if_cases, length, option_eq, lookup, is_some,
}
use syncons.Protocol.{
  event_node, PendingConfig, failed, Event, node_crashed, node_halted, prepare_ack,
}
use syncons.Protocol.Equality.{membership_eq}
use syncons.Control.{ControlPlane, commit_online_rejoin, add_member, schedule_action, Forwarded}
use syncons.Control.Episode.{mark_node_failed}
use syncons.Control.Actions.{future_is}
use syncons.Control.Events.{
  within_window, queue_interruption, note_interruption, covers, future_members, commit_scheduled,
  count_ack, note_prepare_ack, dispatch_event, observe_event,
}
use syncons.Control.Validity.{
  below, is_ordinary, IsValid, Returns, HasState-cases, all-add_member, all-keys-insert,
  all-keys-set_default, bind-Returns, some-Returns, episode_fits, IsSome-cases,
}
use syncons.Control.Validity.Windows.{begin-IsValid}

mark_node_failed-Returns :
    (n node_id : ℕ) (cp : ControlPlane)
    → node_id < n
    → IsValid n cp
    → Returns n (mark_node_failed node_id cp)
unfolding mark_node_failed
mark_node_failed-Returns n node_id cp inside v =
    let (count, positive, round_positive, has_state, ordinary, collecting, targets, queued, fit) =
      v in
    let (state, current, nodes) = HasState-cases n cp.current_state has_state in
    some-Returns n cp.current_state _ state current (
      if_cases (IsValid n)
        (option_eq membership_eq (lookup node_id state.node_states) (some failed)) (λ h. v)
        (λ h. (
          count,
          positive,
          round_positive,
          all-keys-insert (below n) node_id failed state.node_states (ground arith) nodes,
          ordinary,
          collecting,
          targets,
          queued,
          fit,
        )))

queue_interruption-IsValid :
    (n node_id at_ns : ℕ) (cp : ControlPlane)
    → node_id < n
    → IsValid n cp
    → IsValid n (queue_interruption node_id at_ns cp)
unfolding queue_interruption
queue_interruption-IsValid n node_id at_ns cp inside v =
    let (count, positive, round_positive, has_state, ordinary, collecting, targets, queued, fit) =
      v in
    if_cases (IsValid n)
      (within_window at_ns cp.collection_deadline_ns && length cp.episode_targets == 0)
      (λ h. (
        count,
        positive,
        round_positive,
        has_state,
        ordinary,
        all-add_member (below n) node_id cp.collecting_targets (ground arith) collecting,
        targets,
        queued,
        fit,
      ))
      (λ h. begin-IsValid n at_ns _ (
        count,
        positive,
        round_positive,
        has_state,
        ordinary,
        collecting,
        targets,
        all-keys-set_default (below n) node_id at_ns cp.queued_interruptions (ground arith) queued,
        fit,
      ))

note_interruption-Returns :
    (n node_id at_ns : ℕ) (cp : ControlPlane)
    → node_id < n
    → IsValid n cp
    → Returns n (note_interruption node_id at_ns cp)
unfolding note_interruption
note_interruption-Returns n node_id at_ns cp inside v =
    bind-Returns n (mark_node_failed node_id cp) _ (mark_node_failed-Returns n node_id cp inside v)
      (λ marked w. queue_interruption-IsValid n node_id at_ns marked inside w)

-- The acknowledgements come for an episode that is running.
count_ack-IsValid :
    (n node_id at_ns : ℕ) (future : PendingConfig) (cp : ControlPlane)
    → is_some cp.active_episode_id ≡ true
    → IsValid n cp
    → IsValid n (count_ack node_id at_ns future cp)
unfolding count_ack schedule_action
count_ack-IsValid n node_id at_ns future cp running v =
    let (count, positive, round_positive, has_state, ordinary, collecting, targets, queued, fit) =
      v in
    let acks = add_member node_id cp.prepare_acks in
    if_cases (IsValid n) (not (covers acks (future_members future cp))) (λ h. v)
      (λ h.
        if_cases (IsValid n)
          (commit_scheduled (record cp { prepare_acks = acks; last_prepare_acks = acks })) (λ k. v)
          (λ k. (
            count,
            positive,
            round_positive,
            has_state,
            ground (
              arith,
              all-append is_ordinary cp.scheduled (
                  record {
                    time_ns = at_ns + cp.timing.cp_decision_delay_ns;
                    action = commit_online_rejoin;
                    episode_id = cp.active_episode_id;
                  }
                  ∷ []),
            ),
            collecting,
            targets,
            queued,
            fit,
          )))

running_future :
    (active : Option ℕ) (o : Option PendingConfig) (future : PendingConfig) (targets : List ℕ)
    (bitmap round deadline : Option ℕ)
    → o ≡ some future
    → episode_fits active targets bitmap round deadline o ≡ true
    → is_some active ≡ true
running_future none none future targets bitmap round deadline e fit = cc
running_future none (some f) future targets bitmap round deadline e fit = absurd (ground arith)
running_future (some a) o future targets bitmap round deadline e fit = refl

note_prepare_ack-Returns :
    (n node_id at_ns : ℕ) (config future : PendingConfig) (cp : ControlPlane)
    → cp.pending_future ≡ some future
    → IsValid n cp
    → Returns n (note_prepare_ack node_id config at_ns cp)
unfolding note_prepare_ack
note_prepare_ack-Returns n node_id at_ns config future cp e v =
    some-Returns n cp.pending_future _ future e (
      if_cases (Returns n) (not (config.run_id == future.run_id)) (λ h. v)
        (λ h.
          if_cases (Returns n) (not (config.effective_round == future.effective_round)) (λ k. v)
            (λ k.
              count_ack-IsValid n node_id at_ns future cp
                (running_future cp.active_episode_id cp.pending_future future _ _ _ _ e v.8) v)))

dispatch_event-Returns :
    (n at_ns : ℕ) (event : Event) (cp : ControlPlane)
    → event_node event < n
    → IsValid n cp
    → Returns n (dispatch_event event at_ns cp)
unfolding dispatch_event
dispatch_event-Returns n at_ns (node_crashed node_id) cp inside v =
    note_interruption-Returns n node_id at_ns cp inside v
dispatch_event-Returns n at_ns (node_halted node_id halt_record) cp inside v =
    note_interruption-Returns n node_id at_ns cp inside v
dispatch_event-Returns n at_ns (prepare_ack node_id config) cp inside v =
    if_cases (Returns n) (not (future_is false cp.pending_future)) (λ h. v)
      (λ h.
        let (future, e) = IsSome-cases cp.pending_future (ground arith) in
        note_prepare_ack-Returns n node_id at_ns config future cp e v)

-- An event of a node of the cluster is observed without an error.
pub observe_event-Returns :
    (n : ℕ) (forwarded : Forwarded) (cp : ControlPlane)
    → event_node forwarded.event < n
    → IsValid n cp
    → Returns n (observe_event forwarded cp)
unfolding observe_event
observe_event-Returns n forwarded cp inside v =
    dispatch_event-Returns n forwarded.available_at_ns forwarded.event
      (record cp { observed_events = cp.observed_events ++ forwarded ∷ [] }) inside v
