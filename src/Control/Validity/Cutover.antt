-- ===== src/Control/Validity/Cutover.antt =====
-- The cutover of sim/control/control_plane.py keeps a valid state.
use syncons.Base.{ℕ, ◌*◌, refl, not, Option, none, some, arith, ltb, if_cases}
use syncons.Protocol.{PendingConfig, committed}
use syncons.Protocol.Equality.{pending_status_eq}
use syncons.Control.{ControlPlane, record_applied_action}
use syncons.Control.Episode.{clear_episode_state}
use syncons.Control.Actions.{
  ended_at, cut_over, cut_over_if_due, maybe_activate_cutover, installed_state,
}
use syncons.Control.Validity.{is_ordinary, IsValid}
use syncons.Control.Validity.Windows.{begin-IsValid}
use syncons.Control.Validity.Actions.{below-tabulate, all-without_episode}

ended_at-IsValid :
    (n round_id : ℕ) (future : PendingConfig) (cp : ControlPlane)
    → IsValid n cp
    → IsValid n (ended_at future round_id cp)
unfolding ended_at record_applied_action clear_episode_state installed_state
ended_at-IsValid n round_id future cp v =
    let (count, positive, round_positive, has_state, ordinary, collecting, targets, queued, fit) =
      v in
    (
      count,
      positive,
      round_positive,
      below-tabulate _ n 0 cp.node_count (ground arith),
      all-without_episode is_ordinary cp.active_episode_id cp.scheduled ordinary,
      collecting,
      refl,
      queued,
      refl,
    )

cut_over_if_due-IsValid :
    (n round_id : ℕ) (future : Option PendingConfig) (cp : ControlPlane)
    → IsValid n cp
    → IsValid n (cut_over_if_due future round_id cp)
unfolding cut_over_if_due cut_over
cut_over_if_due-IsValid n round_id none cp v = v
cut_over_if_due-IsValid n round_id (some future) cp v =
    if_cases (IsValid n) (not (pending_status_eq future.status committed)) (λ h. v)
      (λ h.
        if_cases (IsValid n) (ltb round_id future.effective_round) (λ k. v)
          (λ k.
            begin-IsValid n (round_id * cp.timing.round_length_ns) (ended_at future round_id cp)
              (ended_at-IsValid n round_id future cp v)))

pub maybe_activate_cutover-IsValid :
    (n round_id : ℕ) (cp : ControlPlane)
    → IsValid n cp
    → IsValid n (maybe_activate_cutover round_id cp)
unfolding maybe_activate_cutover
maybe_activate_cutover-IsValid n round_id cp v =
    cut_over_if_due-IsValid n round_id cp.pending_future cp v
