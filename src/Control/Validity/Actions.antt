-- ===== src/Control/Validity/Actions.antt =====
-- The actions of sim/control/control_plane.py keep a valid state, and none of their assertions
-- fails.
use syncons.Base.{
  all-filter, ℕ, zero, suc, ◌+◌, ◌≡◌, refl, Bool, true, false, not, Option, none, some, List, [],
  ◌∷◌, arith, Dict, ◌==◌, if_cases, length, all, keys, is_some, tabulate, range_from,
}
use syncons.Protocol.{ControlPlaneState, MembershipState, PendingConfig, recovering, rejoin_pending}
use syncons.Control.{
  ControlPlane, Scheduled, Action, mark_recovering, prepare_online_rejoin, commit_online_rejoin,
  abort_online_rejoin, activate_online_rejoin, union, record_applied_action,
}
use syncons.Control.Episode.{
  floor_div, with_targets, clear_episode_state, without_episode, install_pending_future,
}
use syncons.Control.Actions.{
  apply_mark_recovering, apply_prepare, commit_future, apply_commit, aborted_at, abort_episode,
  apply_abort, future_is, requeue, dispatch, is_stale, apply_action,
}
use syncons.Control.Validity.{
  below, is_known, is_ordinary, episode_fits, IsFit, IsValid, Returns, HasState-cases, all-union,
  all-keys-insert, all-keys-set_default, floor_div-some, IsSome-cases, some-Returns,
}
use syncons.Control.Validity.Windows.{begin-IsValid}

all-with_targets :
    (p : ℕ → Bool) (m : MembershipState) (targets : List ℕ) (d : Dict MembershipState)
    → all p targets ≡ true
    → all p (keys d) ≡ true
    → all p (keys (with_targets m targets d)) ≡ true
unfolding with_targets
all-with_targets p m [] d h k = k
all-with_targets p m (t ∷ targets) d h k =
    all-with_targets p m targets _ (ground arith) (all-keys-insert p t m d (ground arith) k)

all-requeue :
    (p : ℕ → Bool) (at_ns : ℕ) (targets : List ℕ) (d : Dict ℕ)
    → all p targets ≡ true
    → all p (keys d) ≡ true
    → all p (keys (requeue at_ns targets d)) ≡ true
unfolding requeue
all-requeue p at_ns [] d h k = k
all-requeue p at_ns (t ∷ targets) d h k =
    all-requeue p at_ns targets _ (ground arith) (all-keys-set_default p t at_ns d (ground arith) k)

pub all-without_episode :
    (p : Scheduled → Bool) (cleared : Option ℕ) (scheduled : List Scheduled)
    → all p scheduled ≡ true
    → all p (without_episode cleared scheduled) ≡ true
unfolding without_episode
all-without_episode p none scheduled h = h
all-without_episode p (some e) scheduled h = all-filter p _ scheduled h

pub below-tabulate :
    {V : Type 0} (f : ℕ → V) (n i k : ℕ)
    → i + k ≡ n
    → all (below n) (keys (tabulate f (range_from i k))) ≡ true
below-tabulate f n i zero h = refl
below-tabulate f n i (suc k) h = ground (arith, below-tabulate f n (suc i) k)

-- What an action that is not stale finds.
abbrev IsRunning : ControlPlane → Type 0
IsRunning cp = is_some cp.active_episode_id ≡ true

-- What the invariant says of an episode that runs.
record Runs (cp : ControlPlane) : Type 0 where
  targeted : (length cp.episode_targets == 0) ≡ false
  bitmap : ℕ
  is_bitmap : cp.episode_members_bitmap ≡ some bitmap
  round : ℕ
  is_round : cp.prepare_round ≡ some round
  refit :
      (future : Option PendingConfig)
      → episode_fits cp.active_episode_id cp.episode_targets cp.episode_members_bitmap
          cp.prepare_round cp.collection_deadline_ns future
        ≡ true

runs : (cp : ControlPlane) → IsFit cp → IsRunning cp → Runs cp
runs cp fit running =
    let (bitmap, is_bitmap) = IsSome-cases cp.episode_members_bitmap (ground arith) in
    let (round, is_round) = IsSome-cases cp.prepare_round (ground arith) in
    record {
      targeted = ground arith;
      bitmap = bitmap;
      is_bitmap = is_bitmap;
      round = round;
      is_round = is_round;
      refit = λ future. ground arith;
    }

module _ (n at_ns : ℕ) (state : ControlPlaneState) (cp : ControlPlane) where
  mark-Returns :
      IsValid n cp
      → all (below n) (keys state.node_states) ≡ true
      → IsRunning cp
      → Returns n (apply_mark_recovering at_ns state cp)
  unfolding apply_mark_recovering record_applied_action
  mark-Returns v nodes running =
      let (count, positive, round_positive, has_state, ordinary, collecting, targets, queued, fit) =
        v in
      let r = runs cp fit running in
      rw r.targeted (
        count,
        positive,
        round_positive,
        all-with_targets (below n) recovering cp.episode_targets state.node_states targets nodes,
        ordinary,
        collecting,
        targets,
        queued,
        fit,
      )

  prepare-Returns :
      IsValid n cp
      → all (below n) (keys state.node_states) ≡ true
      → IsRunning cp
      → Returns n (apply_prepare at_ns state cp)
  unfolding apply_prepare record_applied_action
  prepare-Returns v nodes running =
      let (count, positive, round_positive, has_state, ordinary, collecting, targets, queued, fit) =
        v in
      let r = runs cp fit running in
      rw (r.is_round, r.is_bitmap)
        (
          count,
          positive,
          round_positive,
          all-with_targets (below n) rejoin_pending cp.episode_targets state.node_states targets
              nodes,
          ordinary,
          collecting,
          targets,
          queued,
          ground (arith, r.refit none),
        )

  commit-Returns :
      (future : Option PendingConfig)
      → IsValid n cp
      → all (below n) (keys state.node_states) ≡ true
      → IsRunning cp
      → Returns n (commit_future future at_ns state cp)
  unfolding commit_future record_applied_action install_pending_future
  commit-Returns none v nodes running = v
  commit-Returns (some future) v nodes running =
      let (count, positive, round_positive, has_state, ordinary, collecting, targets, queued, fit) =
        v in
      let r = runs cp fit running in
      let (round, is_round) =
        IsSome-cases (floor_div at_ns cp.timing.round_length_ns)
          (floor_div-some at_ns cp.timing.round_length_ns round_positive) in
      rw is_round (
        count,
        positive,
        round_positive,
        nodes,
        ordinary,
        collecting,
        targets,
        queued,
        r.refit (some _),
      )

  aborted-IsValid : IsValid n cp → IsValid n (aborted_at at_ns state cp)
  unfolding aborted_at record_applied_action clear_episode_state
  aborted-IsValid v =
      let (count, positive, round_positive, has_state, ordinary, collecting, targets, queued, fit) =
        v in
      (
        count,
        positive,
        round_positive,
        below-tabulate _ n 0 cp.node_count (ground arith),
        all-without_episode is_ordinary cp.active_episode_id cp.scheduled ordinary,
        collecting,
        refl,
        all-requeue (below n) at_ns (union cp.episode_targets (keys cp.queued_interruptions))
            cp.queued_interruptions
            (all-union (below n) cp.episode_targets (keys cp.queued_interruptions) targets queued)
            queued,
        refl,
      )

  abort-Returns : IsValid n cp → Returns n (apply_abort at_ns state cp)
  unfolding apply_abort abort_episode
  abort-Returns v =
      if_cases (Returns n) (not (future_is false cp.pending_future)) (λ h. v)
        (λ h. begin-IsValid n at_ns (aborted_at at_ns state cp) (aborted-IsValid v))

  dispatch-Returns :
      (action : Action)
      → is_known action ≡ true
      → IsValid n cp
      → all (below n) (keys state.node_states) ≡ true
      → IsRunning cp
      → Returns n (dispatch action at_ns state cp)
  unfolding dispatch apply_commit
  dispatch-Returns mark_recovering known v nodes running = mark-Returns v nodes running
  dispatch-Returns prepare_online_rejoin known v nodes running = prepare-Returns v nodes running
  dispatch-Returns commit_online_rejoin known v nodes running =
      commit-Returns cp.pending_future v nodes running
  dispatch-Returns abort_online_rejoin known v nodes running = abort-Returns v
  dispatch-Returns activate_online_rejoin known v nodes running = absurd (ground arith)

not_stale : (a b : Option ℕ) → is_some a ≡ true → is_stale a b ≡ false → is_some b ≡ true
not_stale none b h k = absurd (ground arith)
not_stale (some a) none h k = absurd (ground arith)
not_stale (some a) (some b) h k = refl

-- An action of an episode is applied to a valid control plane without an error.
pub apply_action-Returns :
    (n : ℕ) (item : Scheduled) (cp : ControlPlane)
    → is_ordinary item ≡ true
    → IsValid n cp
    → Returns n (apply_action item cp)
unfolding apply_action
apply_action-Returns n item cp known v =
    let (state, current, nodes) = HasState-cases n cp.current_state v.3 in
    some-Returns n cp.current_state _ state current (
      if_cases (Returns n) (cp.node_count == 0) (λ h. absurd (ground arith))
        (λ h.
          if_cases (Returns n) (is_stale item.episode_id cp.active_episode_id) (λ k. v)
            (λ k.
              dispatch-Returns n item.time_ns state cp item.action (ground arith) v nodes
                (not_stale item.episode_id cp.active_episode_id (ground arith) k))))
