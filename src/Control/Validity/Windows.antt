-- ===== src/Control/Validity/Windows.antt =====
-- Opening and closing a collection window of sim/control/control_plane.py keep a valid state.
use syncons.Base.{
  all-append, ℕ, ◌+◌, ◌≡◌, refl, true, false, not, ◌||◌, Option, none, some, [], arith, ltb, ◌==◌,
  if_cases, length, all, filter, keys, is_some, Bool-cases, inl, inr,
}
use syncons.Bitmap.{bitmap_set}
use syncons.Bitmap.Sets.{bitmap_set_raises}
use syncons.Protocol.{ControlPlaneState, MembershipState, active}
use syncons.Protocol.Equality.{membership_eq}
use syncons.Control.{ControlPlane, ◌>>=◌, sorted, schedule_action, episode_active}
use syncons.Control.Episode.{
  floor_div, begin_collection_window, schedule_episode, close_window, close_at,
  close_collection_window_if_due, episode_members,
}
use syncons.Control.Validity.{
  below, is_ordinary, IsValid, Returns, HasState-cases, all-union, all-keys-filter, all-sorted,
  floor_div-some, IsSome-cases,
}

pub begin-IsValid :
    (n time_ns : ℕ) (cp : ControlPlane)
    → IsValid n cp
    → IsValid n (begin_collection_window time_ns cp)
unfolding begin_collection_window episode_active
begin-IsValid n time_ns cp v =
    if_cases (IsValid n) (not (length cp.collecting_targets == 0) || episode_active cp) (λ h. v)
      (λ h. if_cases (IsValid n) (length cp.queued_interruptions == 0) (λ k. v) (λ k. ground arith))

-- The bitmap of the members of an episode can be built.
episode_members-bitmap_set :
    (n : ℕ) (state : ControlPlaneState) (cp : ControlPlane)
    → all (below n) (keys state.node_states) ≡ true
    → all (below n) cp.episode_targets ≡ true
    → is_some (bitmap_set n (sorted (episode_members state cp))) ≡ true
unfolding episode_members
episode_members-bitmap_set n state cp h k = ground (
  arith,
  bitmap_set_raises n (sorted (episode_members state cp)),
  all-sorted (below n) (episode_members state cp),
  all-union (below n) (keys (filter (λ e. membership_eq e.1 active) state.node_states))
      cp.episode_targets,
  all-keys-filter (below n) (λ (e : ℕ × MembershipState). membership_eq e.1 active)
      state.node_states,
)

-- The control plane at the end of a window, when the collected nodes become the targets.
abbrev pub collected : ControlPlane → ControlPlane
collected cp = record cp { episode_targets = cp.collecting_targets; collecting_targets = [] }

-- The end of a window that has targets starts an episode.
schedule_episode-Returns :
    (n deadline : ℕ) (cp : ControlPlane)
    → IsValid n cp
    → cp.collection_deadline_ns ≡ some deadline
    → (length cp.collecting_targets == 0) ≡ false
    → Returns n (
        schedule_episode deadline (collected cp)
        >>= (λ scheduled. some (record scheduled { collection_deadline_ns = none })))
unfolding schedule_episode schedule_action
schedule_episode-Returns n deadline cp v due some_targets =
    let (count, positive, round_positive, has_state, ordinary, collecting, targets, queued, fit) =
      v in
    let (state, current, nodes) = HasState-cases n cp.current_state has_state in
    let (bitmap, is_bitmap) =
      IsSome-cases (bitmap_set n (sorted (episode_members state (collected cp))))
        (episode_members-bitmap_set n state (collected cp) nodes collecting) in
    let prepare_at = deadline + cp.timing.cp_decision_delay_ns + cp.timing.repair_delay_ns in
    let (round, is_round) =
      IsSome-cases (floor_div prepare_at cp.timing.round_length_ns)
        (floor_div-some prepare_at cp.timing.round_length_ns round_positive) in
    rw (current, count, is_bitmap, is_round)
      (
        refl,
        positive,
        round_positive,
        nodes,
        simp (all-append is_ordinary, ordinary),
        refl,
        collecting,
        queued,
        ground arith,
      )

close_window-Returns :
    (n deadline time_ns : ℕ) (cp : ControlPlane)
    → IsValid n cp
    → cp.collection_deadline_ns ≡ some deadline
    → Returns n (close_window deadline time_ns cp)
unfolding close_window
close_window-Returns n deadline time_ns cp v due =
    if_cases (Returns n) (ltb time_ns deadline) (λ h. v)
      (λ h. elim (Bool-cases (length cp.collecting_targets == 0)) [
        | inl e ↦ rw e (ground arith)
        | inr e ↦ rw e (schedule_episode-Returns n deadline cp v due e)
      ])

close_at-Returns :
    (n time_ns : ℕ) (deadline : Option ℕ) (cp : ControlPlane)
    → IsValid n cp
    → cp.collection_deadline_ns ≡ deadline
    → Returns n (close_at deadline time_ns cp)
unfolding close_at
close_at-Returns n time_ns none cp v e = v
close_at-Returns n time_ns (some deadline) cp v e = close_window-Returns n deadline time_ns cp v e

pub close-Returns :
    (n time_ns : ℕ) (cp : ControlPlane)
    → IsValid n cp
    → Returns n (close_collection_window_if_due time_ns cp)
unfolding close_collection_window_if_due
close-Returns n time_ns cp v = close_at-Returns n time_ns cp.collection_deadline_ns cp v refl
