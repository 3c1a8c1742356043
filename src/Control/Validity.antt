-- ===== src/Control/Validity.antt =====
-- A well-formed state of the control plane in sim/control/control_plane.py, with the
-- lemmas that the proofs on its methods share.
pub mod Windows
pub mod Actions
pub mod Events
pub mod Cutover
pub mod Clock
pub mod Driven
use syncons.Base.{
  all-append, ℕ, ◌+◌, ◌≤◌, ◌<◌, ◌≡◌, ◌≢◌, refl, Bool, true, false, not, ◌&&◌, ◌||◌, Option, none,
  some, List, [], ◌∷◌, ◌++◌, arith, Dict, ltb, ◌==◌, if◌then◌else◌, if_cases, length, all, filter,
  elem, keys, insert, set_default, has_key, is_some, is_none, lookup, Bool-cases, Option-cases, inl,
  inr, ap, map, tabulate,
}
use syncons.Bitmap.{bitmap_set}
use syncons.Bitmap.Sets.{bitmap_set_raises}
use syncons.Protocol.{ControlPlaneState, MembershipState, PendingConfig, active}
use syncons.Protocol.Equality.{membership_eq}
use syncons.Control.{
  ControlPlane, Scheduled, Action, activate_online_rejoin, abort_online_rejoin,
  commit_online_rejoin, mark_recovering, prepare_online_rejoin, ◌>>=◌, add_member, union, sorted,
  sort_member, schedule_action, episode_active,
}
use syncons.Control.Episode.{
  floor_div, begin_collection_window, schedule_episode, close_window, close_at,
  close_collection_window_if_due, episode_members,
}

abbrev pub below : ℕ → ℕ → Bool
below n node_id = ltb node_id n

abbrev pub is_known : Action → Bool
is_known activate_online_rejoin = false
is_known _ = true

-- An action of some episode, of a kind that the dispatch knows.
abbrev pub is_ordinary : Scheduled → Bool
is_ordinary item = is_some item.episode_id && is_known item.action

abbrev pub HasState : ℕ → Option ControlPlaneState → Type 0
HasState n none = ⊥
HasState n (some state) = all (below n) (keys state.node_states) ≡ true

-- An episode has targets, a bitmap and a round to prepare, and no window is open while it runs;
-- without an episode there are neither targets nor a future config.
abbrev pub episode_fits :
    Option ℕ → List ℕ → Option ℕ → Option ℕ → Option ℕ → Option PendingConfig → Bool
episode_fits none targets bitmap prepare_round deadline future =
    length targets == 0 && is_none future
episode_fits (some _) targets bitmap prepare_round deadline future =
    not (length targets == 0) && (is_some bitmap && (is_some prepare_round && is_none deadline))

abbrev pub IsFit : ControlPlane → Type 0
IsFit cp =
    episode_fits cp.active_episode_id cp.episode_targets cp.episode_members_bitmap cp.prepare_round
      cp.collection_deadline_ns cp.pending_future
    ≡ true

-- The invariant of a control plane over `n` nodes.
abbrev pub IsValid : ℕ → ControlPlane → Type 0
IsValid n cp =
    (cp.node_count ≡ n)
    × (0 < n)
    × (0 < cp.timing.round_length_ns)
    × HasState n cp.current_state
    × (all is_ordinary cp.scheduled ≡ true)
    × (all (below n) cp.collecting_targets ≡ true)
    × (all (below n) cp.episode_targets ≡ true)
    × (all (below n) (keys cp.queued_interruptions) ≡ true)
    × IsFit cp

-- The method returns, and what it returns is valid.
abbrev pub Returns : ℕ → Option ControlPlane → Type 0
Returns n none = ⊥
Returns n (some cp) = IsValid n cp

pub bind-Returns :
    (n : ℕ) (r : Option ControlPlane) (f : ControlPlane → Option ControlPlane)
    → Returns n r
    → ((cp : ControlPlane) → IsValid n cp → Returns n (f cp))
    → Returns n (r >>= f)
bind-Returns n none f h k = h
bind-Returns n (some cp) f h k = k cp h

pub Returns-cases :
    (n : ℕ) (r : Option ControlPlane)
    → Returns n r
    → (cp : ControlPlane) × (r ≡ some cp) × IsValid n cp
Returns-cases n none h = absurd h
Returns-cases n (some cp) h = (cp, refl, h)

-- A step on a value that is there.
pub some-Returns {ℓ} :
    {A : Type ℓ} (n : ℕ) (o : Option A) (f : A → Option ControlPlane) (a : A)
    → o ≡ some a
    → Returns n (f a)
    → Returns n (o >>= f)
some-Returns n o f a e h = rw e h

module _ (p : ℕ → Bool) where
  pub all-add_member :
      (x : ℕ) (xs : List ℕ) → p x ≡ true → all p xs ≡ true → all p (add_member x xs) ≡ true
  all-add_member x xs h k = ground (arith, all-append p xs (x ∷ []))

  pub all-union : (xs ys : List ℕ) → all p xs ≡ true → all p ys ≡ true → all p (union xs ys) ≡ true
  all-union xs [] h k = h
  all-union xs (y ∷ ys) h k =
      all-union (add_member y xs) ys (all-add_member y xs (ground arith) h) (ground arith)

  all-sort_member : (x : ℕ) (xs : List ℕ) → all p (sort_member x xs) ≡ (p x && all p xs)
  all-sort_member x [] = refl
  all-sort_member x (y ∷ ys) = ground (arith, all-sort_member x ys)

  pub all-sorted : (xs : List ℕ) → all p (sorted xs) ≡ all p xs
  all-sorted [] = refl
  all-sorted (x ∷ xs) = ground (arith, all-sort_member x (sorted xs), all-sorted xs)

  pub all-keys-filter :
      {V : Type 0} (q : ℕ × V → Bool) (d : Dict V)
      → all p (keys d) ≡ true
      → all p (keys (filter q d)) ≡ true
  all-keys-filter q [] h = refl
  all-keys-filter q (e ∷ d) h = ground (arith, all-keys-filter q d)

  pub all-keys-insert :
      {V : Type 0} (k : ℕ) (v : V) (d : Dict V)
      → p k ≡ true
      → all p (keys d) ≡ true
      → all p (keys (insert k v d)) ≡ true
  all-keys-insert k v [] h i = ground arith
  all-keys-insert k v (e ∷ d) h i = ground (arith, all-keys-insert k v d)

  pub all-keys-set_default :
      {V : Type 0} (k : ℕ) (v : V) (d : Dict V)
      → p k ≡ true
      → all p (keys d) ≡ true
      → all p (keys (set_default k v d)) ≡ true
  all-keys-set_default k v d h i = ground (arith, all-keys-insert k v d)

pub floor_div-some : (a b : ℕ) → 0 < b → is_some (floor_div a b) ≡ true
unfolding floor_div
floor_div-some a b h = ground arith

pub IsSome-cases {ℓ} : {A : Type ℓ} (o : Option A) → is_some o ≡ true → (a : A) × (o ≡ some a)
IsSome-cases none h = absurd (ground arith)
IsSome-cases (some a) h = (a, refl)

pub HasState-cases :
    (n : ℕ) (o : Option ControlPlaneState)
    → HasState n o
    → (state : ControlPlaneState) × (o ≡ some state)
      × (all (below n) (keys state.node_states) ≡ true)
HasState-cases n none h = absurd h
HasState-cases n (some state) h = (state, refl, h)
