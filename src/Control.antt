-- ===== src/Control.antt =====
-- sim/control/control_plane.py: the state of OnlineRejoinControlPlane. A method that asserts, or
-- that can raise, returns `none` there. Sets are lists without repetition. The snapshots that
-- `_repair_snapshot_source` reads are an argument of the methods that call it.
pub mod Repair
pub mod Episode
pub mod Actions
pub mod Events
pub mod Clock
pub mod Validity
mod Examples
use syncons.Base.{
  ℕ, Bool, Option, none, some, List, [], ◌∷◌, ◌++◌, Dict, elem, if◌then◌else◌, leb, filter, not,
  insert, tabulate, range, is_some, is_none, ◌||◌, length, ◌==◌,
}
use syncons.Bitmap.{bitmap_set}
use syncons.Protocol.{
  SimulationTiming, default_timing, ControlPlaneState, PendingConfig, Event, MembershipState,
  active, failed,
}

-- The strings of `_scheduled` and `_applied`.
pub data Action : Type 0 where
  abort_online_rejoin activate_online_rejoin commit_online_rejoin : Action
  mark_recovering prepare_online_rejoin : Action

-- A tuple of `_scheduled`.
pub record Scheduled : Type 0 where
  pub time_ns : ℕ
  pub action : Action
  pub episode_id : Option ℕ

-- A record of `_applied`, with the keys of its details.
pub record Applied : Type 0 where
  pub time_ns : ℕ
  pub action : Action
  pub node_ids : List ℕ
  pub members_bitmap : Option ℕ
  pub effective_round : Option ℕ

-- An event with the keys that the runtime adds.
pub record Forwarded : Type 0 where
  pub event : Event
  pub round : ℕ
  pub available_at_ns : ℕ

pub record ControlPlane : Type 0 where
  pub cutover_slack_rounds : ℕ
  pub timing : SimulationTiming
  pub node_count : ℕ
  pub current_state : Option ControlPlaneState
  pub scheduled : List Scheduled
  pub applied : List Applied
  pub observed_events : List Forwarded
  pub collecting_targets : List ℕ
  pub episode_targets : List ℕ
  pub queued_interruptions : Dict ℕ
  pub collection_deadline_ns : Option ℕ
  pub next_episode_id : ℕ
  pub active_episode_id : Option ℕ
  pub episode_members_bitmap : Option ℕ
  pub prepare_round : Option ℕ
  pub prepare_acks : List ℕ
  pub last_prepare_acks : List ℕ
  pub pending_future : Option PendingConfig

-- `OnlineRejoinControlPlane()` with `set_timing`.
unfoldable pub new_control_plane : SimulationTiming → ControlPlane
new_control_plane timing = record {
  cutover_slack_rounds = 10;
  timing = timing;
  node_count = 0;
  current_state = none;
  scheduled = [];
  applied = [];
  observed_events = [];
  collecting_targets = [];
  episode_targets = [];
  queued_interruptions = [];
  collection_deadline_ns = none;
  next_episode_id = 1;
  active_episode_id = none;
  episode_members_bitmap = none;
  prepare_round = none;
  prepare_acks = [];
  last_prepare_acks = [];
  pending_future = none;
}

infixl 5 ◌>>=◌
abbrev pub ◌>>=◌ {ℓ κ} : {A : Type ℓ} {B : Type κ} → Option A → (A → Option B) → Option B
none >>= f = none
some a >>= f = f a

-- `assert not xs == empty`; the caller goes on with the value.
abbrev pub assert {ℓ} : {A : Type ℓ} → Bool → A → Option A
assert test a = if test then some a else none

-- `a | {x}`
abbrev pub add_member : ℕ → List ℕ → List ℕ
add_member x xs = if elem x xs then xs else xs ++ x ∷ []

-- `a | b`
abbrev pub union : List ℕ → List ℕ → List ℕ
union xs [] = xs
union xs (y ∷ ys) = union (add_member y xs) ys

-- `sorted(a)`
abbrev pub sort_member : ℕ → List ℕ → List ℕ
sort_member x [] = x ∷ []
sort_member x (y ∷ ys) = if leb x y then x ∷ y ∷ ys else y ∷ sort_member x ys

abbrev pub sorted : List ℕ → List ℕ
sorted [] = []
sorted (x ∷ xs) = sort_member x (sorted xs)

unfoldable pub schedule_action : ℕ → Action → Option ℕ → ControlPlane → ControlPlane
schedule_action time_ns action episode_id cp = record cp {
  scheduled =
      cp.scheduled ++ record { time_ns = time_ns; action = action; episode_id = episode_id } ∷ [];
}

unfoldable pub record_applied_action : Applied → ControlPlane → ControlPlane
record_applied_action entry cp = record cp { applied = cp.applied ++ entry ∷ [] }

-- `_initial_state`
unfoldable pub initial_state : ℕ → Option ControlPlaneState
initial_state node_count = do
  full_membership ← bitmap_set node_count (range node_count)
  some (record {
    installed_config = record {
      membership_epoch = 0;
      members_bitmap = full_membership;
      run_id = 0;
    };
    node_states = tabulate (λ node_id. active) (range node_count);
    pending_config = none;
    repair_logs = [];
  })

unfoldable pub initialise_from : Option ControlPlaneState → ℕ → ControlPlane → Option ControlPlane
unfolding initial_state
initialise_from (some state) node_count cp = some cp
initialise_from none node_count cp = do
  state ← initial_state node_count
  some (record cp { node_count = node_count; current_state = some state })

-- The first lines of `advance_to_time` and `__call__`.
unfoldable pub initialise : ℕ → ControlPlane → Option ControlPlane
unfolding initialise_from
initialise node_count cp = initialise_from cp.current_state node_count cp

unfoldable pub episode_active : ControlPlane → Bool
episode_active cp =
    not (length cp.episode_targets == 0)
    || (is_some cp.pending_future || is_some cp.active_episode_id)
