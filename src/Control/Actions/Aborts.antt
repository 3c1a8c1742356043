-- ===== src/Control/Actions/Aborts.antt =====
-- That an abort of sim/control/control_plane.py forgets no node.
use syncons.Base.{
  Option, ltb, ℕ, ◌+◌, ◌≡◌, ◌∙◌, refl, Bool, true, false, not, ◌||◌, none, some, List, [], ◌∷◌,
  ◌++◌, arith, Dict, ◌==◌, option_eq, any, if◌then◌else◌, if_cases, length, elem, keys, lookup,
  has_key, set_default, lookup-insert, lookup-tabulate, range, filter, ◌⊎◌, inl, inr, Bool-cases,
}
use syncons.Bitmap.Sets.{elem-range}
use syncons.Protocol.{ControlPlaneState, active, failed}
use syncons.Control.{
  ControlPlane, Scheduled, episode_active, union, add_member, record_applied_action,
}
use syncons.Control.Episode.{begin_collection_window, clear_episode_state, without_episode}
use syncons.Control.Actions.{requeue, aborted_at, abort_episode, future_is, apply_abort}

elem-append : (j : ℕ) (xs ys : List ℕ) → elem j (xs ++ ys) ≡ (elem j xs || elem j ys)
elem-append j [] ys = refl
elem-append j (x ∷ xs) ys = ground (arith, elem-append j xs ys)

pub elem-add_member : (j x : ℕ) (xs : List ℕ) → elem j (add_member x xs) ≡ (elem j xs || j == x)
elem-add_member j x xs = ground (arith, elem-append j xs (x ∷ []))

pub elem-union : (j : ℕ) (xs ys : List ℕ) → elem j (union xs ys) ≡ (elem j xs || elem j ys)
elem-union j xs [] = ground arith
elem-union j xs (y ∷ ys) = ground (arith, elem-union j (add_member y xs) ys, elem-add_member j y xs)

pub elem-keys {ℓ} : {V : Type ℓ} (j : ℕ) (d : Dict V) → elem j (keys d) ≡ has_key j d
elem-keys j [] = refl
elem-keys j (e ∷ d) = ground (arith, elem-keys j d)

has_key-set_default :
    {V : Type 0} (j k : ℕ) (v : V) (d : Dict V)
    → has_key j (set_default k v d) ≡ (has_key j d || j == k)
has_key-set_default j k v d = ground (arith, lookup-insert j k v d)

has_key-requeue :
    (j at_ns : ℕ) (targets : List ℕ) (d : Dict ℕ)
    → has_key j (requeue at_ns targets d) ≡ (has_key j d || elem j targets)
unfolding requeue
has_key-requeue j at_ns [] d = ground arith
has_key-requeue j at_ns (t ∷ targets) d = ground (
  arith,
  has_key-requeue j at_ns targets (set_default t at_ns d),
  has_key-set_default j t at_ns d,
)

elem-empty : (j : ℕ) (xs : List ℕ) → (length xs == 0) ≡ true → elem j xs ≡ false
elem-empty j [] h = refl
elem-empty j (x ∷ xs) h = absurd (ground arith)

any-filter-not :
    {A : Type 0} (p : A → Bool) (xs : List A) → any p (filter (λ x. not (p x)) xs) ≡ false
any-filter-not p [] = refl
any-filter-not p (x ∷ xs) = ground (arith, any-filter-not p xs)

-- The node waits for an episode, in the open window or in the queue.
abbrev pub tracked : ℕ → ControlPlane → Bool
tracked node_id cp = elem node_id cp.collecting_targets || has_key node_id cp.queued_interruptions

-- The start of a collection window moves the queue into the window, and drops nobody.
pub tracked-begin_collection_window :
    (node_id time_ns : ℕ) (cp : ControlPlane)
    → tracked node_id (begin_collection_window time_ns cp) ≡ tracked node_id cp
unfolding begin_collection_window
tracked-begin_collection_window node_id time_ns cp =
    if_cases (λ after. tracked node_id after ≡ tracked node_id cp)
      (not (length cp.collecting_targets == 0) || episode_active cp) (λ h. refl)
      (λ h.
        if_cases (λ after. tracked node_id after ≡ tracked node_id cp)
          (length cp.queued_interruptions == 0) (λ k. refl)
          (λ k. ground (
            arith,
            elem-keys node_id cp.queued_interruptions,
            elem-empty node_id cp.collecting_targets,
          )))

-- The action belongs to the episode.
abbrev pub is_of : Option ℕ → Scheduled → Bool
is_of none item = false
is_of (some episode_id) item = option_eq ◌==◌ item.episode_id (some episode_id)

any-none : (xs : List Scheduled) → any (is_of none) xs ≡ false
any-none [] = refl
any-none (x ∷ xs) = any-none xs

any-without_episode :
    (cleared : Option ℕ) (xs : List Scheduled)
    → any (is_of cleared) (without_episode cleared xs) ≡ false
unfolding without_episode
any-without_episode none xs = any-none xs
any-without_episode (some e) xs = any-filter-not (is_of (some e)) xs

-- What an abort leaves, with the nodes that it retries.
pub record IsAborted (state : ControlPlaneState) (before after : ControlPlane) : Type 0 where
  pub tracks :
      (node_id : ℕ)
      → tracked node_id after ≡ (tracked node_id before || elem node_id before.episode_targets)
  pub now : ControlPlaneState
  pub current : after.current_state ≡ some now
  pub installed : now.installed_config ≡ state.installed_config
  pub nodes :
      (node_id : ℕ)
      → lookup node_id now.node_states ≡ (
          if ltb node_id before.node_count
          then some (
              if elem node_id before.episode_targets || has_key node_id before.queued_interruptions
              then failed
              else active)
          else none)
  pub no_pending : now.pending_config ≡ none
  pub no_future : after.pending_future ≡ none
  pub no_episode :
      (after.active_episode_id ≡ none)
      × (after.episode_targets ≡ [])
      × (after.episode_members_bitmap ≡ none)
      × (after.prepare_round ≡ none)
      × (after.prepare_acks ≡ [])
  pub no_actions : any (is_of before.active_episode_id) after.scheduled ≡ false

begin_keeps :
    (P : ControlPlane → Type 0) (time_ns : ℕ) (cp : ControlPlane)
    → P cp
    → P (record cp {
      collecting_targets = keys cp.queued_interruptions;
      queued_interruptions = [];
      collection_deadline_ns = some (time_ns + cp.timing.cp_collection_delay_ns);
    })
    → P (begin_collection_window time_ns cp)
unfolding begin_collection_window
begin_keeps P time_ns cp same opened =
    if_cases P (not (length cp.collecting_targets == 0) || episode_active cp) (λ h. same)
      (λ h. if_cases P (length cp.queued_interruptions == 0) (λ k. same) (λ k. opened))

begin-IsAborted :
    (time_ns : ℕ) (state : ControlPlaneState) (before cp : ControlPlane)
    → IsAborted state before cp
    → IsAborted state before (begin_collection_window time_ns cp)
begin-IsAborted time_ns state before cp i = record {
  tracks = λ node_id. tracked-begin_collection_window node_id time_ns cp ∙ i.tracks node_id;
  now = i.now;
  current = begin_keeps (λ c. c.current_state ≡ some i.now) time_ns cp i.current i.current;
  installed = i.installed;
  nodes = i.nodes;
  no_pending = i.no_pending;
  no_future = begin_keeps (λ c. c.pending_future ≡ none) time_ns cp i.no_future i.no_future;
  no_episode =
      begin_keeps
        (λ c.
          (c.active_episode_id ≡ none)
          × (c.episode_targets ≡ [])
          × (c.episode_members_bitmap ≡ none)
          × (c.prepare_round ≡ none)
          × (c.prepare_acks ≡ []))
        time_ns cp i.no_episode i.no_episode;
  no_actions =
      begin_keeps (λ c. any (is_of before.active_episode_id) c.scheduled ≡ false) time_ns cp
        i.no_actions i.no_actions;
}

aborted_at-IsAborted :
    (at_ns : ℕ) (state : ControlPlaneState) (cp : ControlPlane)
    → IsAborted state cp (aborted_at at_ns state cp)
unfolding aborted_at clear_episode_state record_applied_action without_episode
aborted_at-IsAborted at_ns state cp = record {
  tracks = λ node_id. ground (
    arith,
    has_key-requeue node_id at_ns (union cp.episode_targets (keys cp.queued_interruptions))
        cp.queued_interruptions,
    elem-union node_id cp.episode_targets (keys cp.queued_interruptions),
    elem-keys node_id cp.queued_interruptions,
  );
  now = _;
  current = refl;
  installed = refl;
  nodes = λ node_id. ground (
    arith,
    lookup-tabulate node_id
        (λ m.
          if elem m (union cp.episode_targets (keys cp.queued_interruptions))
          then failed
          else active)
        (range cp.node_count),
    elem-range node_id cp.node_count,
    elem-union node_id cp.episode_targets (keys cp.queued_interruptions),
    elem-keys node_id cp.queued_interruptions,
  );
  no_pending = refl;
  no_future = refl;
  no_episode = (refl, refl, refl, refl, refl);
  no_actions = any-without_episode cp.active_episode_id cp.scheduled;
}

-- An abort of the prepared config drops that config, the episode with its targets, members,
-- prepare round and acknowledgements, and all its actions, keeps the installed config, and forgets
-- nobody: a node waits for an episode after it exactly if it did so before or was a target. Of the
-- nodes of the cluster, the targets and the queued ones are failed and all others active. Without
-- a prepared config an abort does nothing.
pub apply_abort-IsAborted :
    (at_ns : ℕ) (state : ControlPlaneState) (cp : ControlPlane)
    → (after : ControlPlane) × (apply_abort at_ns state cp ≡ some after)
      × ((future_is false cp.pending_future ≡ true) × IsAborted state cp after
          ⊎ (future_is false cp.pending_future ≡ false) × (after ≡ cp))
unfolding apply_abort abort_episode
apply_abort-IsAborted at_ns state cp = elim (Bool-cases (future_is false cp.pending_future)) [
  | inl e ↦ (
    abort_episode at_ns state cp,
    rw e refl,
    inl (
      e,
      begin-IsAborted at_ns state cp (aborted_at at_ns state cp)
          (aborted_at-IsAborted at_ns state cp),
    ),
  )
  | inr e ↦ (cp, rw e refl, inr (e, refl))
]
