-- ===== src/Control/Validity/Clock.antt =====
-- The control plane of sim/control/control_plane.py : a clock step and a call return from a valid
-- state, and from the start.
use syncons.Base.{
  all-filter, ℕ, zero, suc, ◌+◌, ◌≤◌, ◌≡◌, ◌∙◌, subst, range_from, ◌<◌, refl, Bool, true, not, ◌&&◌,
  Option, none, some, List, [], ◌∷◌, arith, filter, all, range,
}
use syncons.Bitmap.{bitmap_set}
use syncons.Bitmap.Sets.{bitmap_set_raises}
use syncons.Protocol.{RepairSnapshot, ControlPlaneState, SimulationTiming}
use syncons.Control.{
  ControlPlane, Scheduled, ◌>>=◌, new_control_plane, initialise, initialise_from, initial_state,
}
use syncons.Control.Repair.{rebuild_repair_logs}
use syncons.Control.Episode.{begin_collection_window}
use syncons.Control.Actions.{apply_action, maybe_activate_cutover}
use syncons.Control.Clock.{
  sort_scheduled, sorted_actions, apply_actions, is_ready, turn_window, advance_to_time,
  control_state_at,
}
use syncons.Control.Validity.{
  below, is_ordinary, IsValid, Returns, HasState, HasState-cases, bind-Returns, some-Returns,
  IsSome-cases,
}
use syncons.Control.Validity.Windows.{begin-IsValid, close-Returns}
use syncons.Control.Validity.Actions.{apply_action-Returns, below-tabulate}
use syncons.Control.Validity.Cutover.{maybe_activate_cutover-IsValid}

all-sort_scheduled :
    (p : Scheduled → Bool) (a : Scheduled) (items : List Scheduled)
    → all p (sort_scheduled a items) ≡ (p a && all p items)
unfolding sort_scheduled
all-sort_scheduled p a [] = refl
all-sort_scheduled p a (b ∷ bs) = ground (arith, all-sort_scheduled p a bs)

all-sorted_actions :
    (p : Scheduled → Bool) (items : List Scheduled) → all p (sorted_actions items) ≡ all p items
unfolding sorted_actions
all-sorted_actions p [] = refl
all-sorted_actions p (a ∷ items) =
    ground (arith, all-sort_scheduled p a (sorted_actions items), all-sorted_actions p items)

apply_actions-Returns :
    (n : ℕ) (items : List Scheduled) (cp : ControlPlane)
    → all is_ordinary items ≡ true
    → IsValid n cp
    → Returns n (apply_actions items cp)
unfolding apply_actions
apply_actions-Returns n [] cp known v = v
apply_actions-Returns n (item ∷ items) cp known v =
    bind-Returns n (apply_action item cp) _ (apply_action-Returns n item cp (ground arith) v)
      (λ applied w. apply_actions-Returns n items applied (ground arith) w)

turn_window-Returns :
    (n time_ns : ℕ) (cp : ControlPlane) → IsValid n cp → Returns n (turn_window time_ns cp)
unfolding turn_window
turn_window-Returns n time_ns cp v =
    close-Returns n time_ns (begin_collection_window time_ns cp) (begin-IsValid n time_ns cp v)

rebuild_repair_logs-Returns :
    (n : ℕ) (snapshots : List RepairSnapshot) (cp : ControlPlane)
    → IsValid n cp
    → Returns n (rebuild_repair_logs snapshots cp)
unfolding rebuild_repair_logs
rebuild_repair_logs-Returns n snapshots cp v =
    let (count, positive, round_positive, has_state, ordinary, collecting, targets, queued, fit) =
      v in
    let (state, current, nodes) = HasState-cases n cp.current_state has_state in
    some-Returns n cp.current_state _ state current
      (count, positive, round_positive, nodes, ordinary, collecting, targets, queued, fit)

below_range : (n i k : ℕ) → i + k ≤ n → all (below n) (range_from i k) ≡ true
below_range n i zero h = refl
below_range n i (suc k) h = ground (arith, below_range n (suc i) k)

initialise_from-Returns :
    (n : ℕ) (cp : ControlPlane)
    → IsValid n cp
    → (o : Option ControlPlaneState) → cp.current_state ≡ o
    → Returns n (initialise_from o n cp)
unfolding initialise_from
initialise_from-Returns n cp v none e = absurd (subst (HasState n) e v.3)
initialise_from-Returns n cp v (some state) e = v

pub new-Returns :
    (n : ℕ) (timing : SimulationTiming)
    → 0 < n
    → 0 < timing.round_length_ns
    → Returns n (initialise n (new_control_plane timing))
unfolding initialise initialise_from initial_state new_control_plane
new-Returns n timing positive round_positive =
    let (bitmap, is_bitmap) =
      IsSome-cases (bitmap_set n (range n))
        (ground (arith, bitmap_set_raises n (range n), below_range n 0 n)) in
    rw is_bitmap (
      refl,
      positive,
      round_positive,
      below-tabulate _ n 0 n (ground arith),
      refl,
      refl,
      refl,
      refl,
      refl,
    )

-- The call returns a state, and leaves a valid control plane.
abbrev pub Answers : ℕ → Option (ControlPlaneState × ControlPlane) → Type 0
Answers n none = ⊥
Answers n (some answer) = IsValid n answer.1

bind-Answers :
    (n : ℕ) (r : Option ControlPlane) (f : ControlPlane → Option (ControlPlaneState × ControlPlane))
    → Returns n r
    → ((cp : ControlPlane) → IsValid n cp → Answers n (f cp))
    → Answers n (r >>= f)
bind-Answers n none f h k = h
bind-Answers n (some cp) f h k = k cp h

some-Answers :
    {A : Type 0} (n : ℕ) (o : Option A) (f : A → Option (ControlPlaneState × ControlPlane)) (a : A)
    → o ≡ some a
    → Answers n (f a)
    → Answers n (o >>= f)
some-Answers n o f a e h = rw e h

module _ (n time_ns : ℕ) (snapshots : List RepairSnapshot) where
  -- The scheduled actions that are due.
  abbrev apply_ready : ControlPlane → Option ControlPlane
  apply_ready opened =
      apply_actions (sorted_actions (filter (is_ready time_ns) opened.scheduled)) (record opened {
        scheduled = filter (λ item. not (is_ready time_ns item)) opened.scheduled;
      })

  ready-Returns : (opened : ControlPlane) → IsValid n opened → Returns n (apply_ready opened)
  ready-Returns opened v =
      let (count, positive, round_positive, has_state, ordinary, collecting, targets, queued, fit) =
        v in
      apply_actions-Returns n _ _
        (all-sorted_actions is_ordinary (filter (is_ready time_ns) opened.scheduled)
          ∙ all-filter is_ordinary (is_ready time_ns) opened.scheduled ordinary)
        (
          count,
          positive,
          round_positive,
          has_state,
          all-filter is_ordinary _ opened.scheduled ordinary,
          collecting,
          targets,
          queued,
          fit,
        )

  -- A clock step returns once the state is there.
  pub advance_from :
      (cp : ControlPlane)
      → Returns n (initialise n cp)
      → Returns n (advance_to_time snapshots time_ns n cp)
  unfolding advance_to_time
  advance_from cp started = bind-Returns n (initialise n cp) _ started (λ ready_state v.
      bind-Returns n (turn_window time_ns ready_state) _
        (turn_window-Returns n time_ns ready_state v)
        (λ opened w. bind-Returns n (apply_ready opened) _ (ready-Returns opened w) (λ applied x.
          bind-Returns n (turn_window time_ns applied) _ (turn_window-Returns n time_ns applied x)
            (λ closed y. rebuild_repair_logs-Returns n snapshots closed y))))

module _ (n : ℕ) (snapshots : List RepairSnapshot) where
  -- A call returns once the state is there.
  pub called_from :
      (cp : ControlPlane)
      → Returns n (initialise n cp)
      → (round_id : ℕ) → Answers n (control_state_at snapshots round_id n cp)
  unfolding control_state_at
  called_from cp started round_id = bind-Answers n (initialise n cp) _ started (λ ready_state v.
      bind-Answers n (rebuild_repair_logs snapshots (maybe_activate_cutover round_id ready_state)) _
        (rebuild_repair_logs-Returns n snapshots (maybe_activate_cutover round_id ready_state)
          (maybe_activate_cutover-IsValid n round_id ready_state v))
        (λ rebuilt w.
          let (state, current, nodes) = HasState-cases n rebuilt.current_state w.3 in
          some-Answers n rebuilt.current_state _ state current w))

pub IsValid-initialise : (n : ℕ) (cp : ControlPlane) → IsValid n cp → Returns n (initialise n cp)
unfolding initialise
IsValid-initialise n cp v = initialise_from-Returns n cp v cp.current_state refl
