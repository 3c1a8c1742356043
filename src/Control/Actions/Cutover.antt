-- ===== src/Control/Actions/Cutover.antt =====
-- The contract of `_maybe_activate_cutover` of sim/control/control_plane.py.
use syncons.Base.{
  ℕ, ◌≤◌, ◌≡◌, refl, ◌⊎◌, inl, inr, Option, none, some, [], arith, if_cases, lookup,
  lookup-tabulate, range, if◌then◌else◌, not, ltb, ◌||◌, length, ◌==◌, ◌*◌,
}
use syncons.Bitmap.{has_bit}
use syncons.Bitmap.Sets.{elem-range}
use syncons.Protocol.{ControlPlaneState, PendingConfig, active, failed, committed}
use syncons.Protocol.Equality.{pending_status_eq}
use syncons.Control.{ControlPlane, record_applied_action, episode_active}
use syncons.Control.Episode.{clear_episode_state, begin_collection_window}
use syncons.Control.Actions.{
  installed_state, ended_at, cut_over, cut_over_if_due, maybe_activate_cutover,
}

-- The control plane runs the future config, and the episode is over.
pub record IsInstalled (future : PendingConfig) (node_count : ℕ) (after : ControlPlane)
    : Type 0 where
  pub state : ControlPlaneState
  pub current : after.current_state ≡ some state
  pub epoch : state.installed_config.membership_epoch ≡ future.membership_epoch
  pub members : state.installed_config.members_bitmap ≡ future.members_bitmap
  pub run : state.installed_config.run_id ≡ future.run_id
  pub nodes :
      (node_id : ℕ)
      → lookup node_id state.node_states ≡ (
          if ltb node_id node_count
          then some (if has_bit future.members_bitmap node_id then active else failed)
          else none)
  pub no_pending : state.pending_config ≡ none
  pub no_future : after.pending_future ≡ none
  pub no_episode : after.active_episode_id ≡ none
  pub no_targets : after.episode_targets ≡ []
  pub no_acks : after.prepare_acks ≡ []
  pub kept_count : after.node_count ≡ node_count

begin-IsInstalled :
    (future : PendingConfig) (node_count time_ns : ℕ) (cp : ControlPlane)
    → IsInstalled future node_count cp
    → IsInstalled future node_count (begin_collection_window time_ns cp)
unfolding begin_collection_window
begin-IsInstalled future node_count time_ns cp i =
    if_cases (IsInstalled future node_count)
      (not (length cp.collecting_targets == 0) || episode_active cp) (λ h. i)
      (λ h.
        if_cases (IsInstalled future node_count) (length cp.queued_interruptions == 0) (λ k. i)
          (λ k. record {
            state = i.state;
            current = i.current;
            epoch = i.epoch;
            members = i.members;
            run = i.run;
            nodes = i.nodes;
            no_pending = i.no_pending;
            no_future = i.no_future;
            no_episode = i.no_episode;
            no_targets = i.no_targets;
            no_acks = i.no_acks;
            kept_count = i.kept_count;
          }))

cut_over-IsInstalled :
    (future : PendingConfig) (round_id : ℕ) (cp : ControlPlane)
    → IsInstalled future cp.node_count (cut_over future round_id cp)
unfolding cut_over ended_at installed_state clear_episode_state record_applied_action
cut_over-IsInstalled future round_id cp =
    begin-IsInstalled future cp.node_count (round_id * cp.timing.round_length_ns)
      (ended_at future round_id cp)
      (record {
        state = installed_state future cp.node_count;
        current = refl;
        epoch = refl;
        members = refl;
        run = refl;
        nodes = λ node_id. ground (
          arith,
          lookup-tabulate node_id (λ m. if has_bit future.members_bitmap m then active else failed)
              (range cp.node_count),
          elem-range node_id cp.node_count,
        );
        no_pending = refl;
        no_future = refl;
        no_episode = refl;
        no_targets = refl;
        no_acks = refl;
        kept_count = refl;
      })

-- The config is committed, and its round has come.
abbrev pub IsDue : ℕ → PendingConfig → Type 0
IsDue round_id future = (future.status ≡ committed) × (future.effective_round ≤ round_id)

abbrev pub CutOver : ℕ → Option PendingConfig → ControlPlane → ControlPlane → Type 0
CutOver round_id none before after = after ≡ before
CutOver round_id (some future) before after =
    (IsDue round_id future × IsInstalled future before.node_count after)
    ⊎ ((¬ IsDue round_id future) × (after ≡ before))

cut_over_if_due-CutOver :
    (future : Option PendingConfig) (round_id : ℕ) (cp : ControlPlane)
    → CutOver round_id future cp (cut_over_if_due future round_id cp)
unfolding cut_over_if_due
cut_over_if_due-CutOver none round_id cp = refl
cut_over_if_due-CutOver (some future) round_id cp =
    if_cases (CutOver round_id (some future) cp) (not (pending_status_eq future.status committed))
      (λ h. inr ((λ due. ground arith), refl))
      (λ h.
        if_cases (CutOver round_id (some future) cp) (ltb round_id future.effective_round)
          (λ k. inr ((λ due. ground arith), refl))
          (λ k. inl ((ground arith, ground arith), cut_over-IsInstalled future round_id cp)))

-- The control plane installs its future config at a round exactly when that is committed and its
-- effective round has come: then the nodes of the cluster are active or failed as the new
-- membership has them, and the episode is over. Otherwise it stays as it was.
pub maybe_activate_cutover-CutOver :
    (round_id : ℕ) (cp : ControlPlane)
    → CutOver round_id cp.pending_future cp (maybe_activate_cutover round_id cp)
unfolding maybe_activate_cutover
maybe_activate_cutover-CutOver round_id cp = cut_over_if_due-CutOver cp.pending_future round_id cp
