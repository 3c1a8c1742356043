-- ===== src/Node/Config/Cutover.antt =====
-- The contracts of the configuration steps of sim/protocol/node.py: when a pending config takes
-- effect, and what a repair log leaves behind.
use text.Mathlib.TextEquality.{eq_iff}
use syncons.Base.{
  ℕ, ℤ, pos, negsuc, ◌≤◌, ◌≡◌, refl, ◌≢◌, ◌⊎◌, inl, inr, true, false, Option, none, some, List, [],
  ◌∷◌, arith, length, int_eq, if_cases, ◌==◌,
}
use syncons.Protocol.{active, committed, PendingConfig, RepairLog}
use syncons.Node.{Node}
use syncons.Node.Digest.{Hashing, digest_for_committed_rounds}
use syncons.Node.Config.{
  activate, is_due, activate_if_due, activate_pending_config_if_due, repair_frontier,
  should_install_repair_log, install_repair_log, repair,
}
use syncons.Node.Config.Stages.{IsBlank}

-- The node runs the pending config, and has nothing left of the one before.
pub record IsCutOver (pending : PendingConfig) (before after : Node) : Type 0 where
  pub epoch : after.installed_membership_epoch ≡ pending.membership_epoch
  pub members : after.installed_membership ≡ pending.members_bitmap
  pub sound : after.current_sound_set ≡ pending.members_bitmap
  pub run : after.run_id ≡ pending.run_id
  pub done : after.pending_config ≡ none
  pub is_active : after.membership_state ≡ active
  pub current : IsBlank after.current_stage
  pub previous : IsBlank after.previous_stage
  pub same_frontier : after.committed_frontier ≡ before.committed_frontier
  pub same_digest : after.commit_digest ≡ before.commit_digest
  pub same_status : after.status ≡ before.status

activate-IsCutOver :
    (pending : PendingConfig) (node : Node) → IsCutOver pending node (activate pending node)
unfolding activate
activate-IsCutOver pending node = ground arith

-- The config is committed, and its round has come.
abbrev pub IsDue : ℕ → PendingConfig → Type 0
IsDue round_id pending = (pending.status ≡ committed) × (pending.effective_round ≤ round_id)

is_due-IsDue : (r : ℕ) (p : PendingConfig) → is_due r p ≡ true → IsDue r p
unfolding is_due
is_due-IsDue r p h = ground arith

IsDue-is_due : (r : ℕ) (p : PendingConfig) → IsDue r p → is_due r p ≡ true
unfolding is_due
IsDue-is_due r p h = ground arith

abbrev pub CutOver : ℕ → Option PendingConfig → Node → Node → Type 0
CutOver r none before after = after ≡ before
CutOver r (some pending) before after =
    (IsDue r pending × IsCutOver pending before after) ⊎ ((¬ IsDue r pending) × (after ≡ before))

activate_if_due-CutOver :
    (r : ℕ) (pending : Option PendingConfig) (node : Node)
    → CutOver r pending node (activate_if_due r pending node)
unfolding activate_if_due
activate_if_due-CutOver r none node = refl
activate_if_due-CutOver r (some pending) node =
    if_cases (CutOver r (some pending) node) (is_due r pending)
      (λ h. inl (is_due-IsDue r pending h, activate-IsCutOver pending node))
      (λ h. inr (λ d. cc (h, IsDue-is_due r pending d), refl))

-- A node goes over to its pending config at a round exactly when that config is committed and
-- its effective round has come; then it starts with blank stages and keeps its log. Otherwise it
-- stays as it was.
pub activate_pending_config_if_due-CutOver :
    (r : ℕ) (node : Node)
    → CutOver r node.pending_config node (activate_pending_config_if_due r node)
unfolding activate_pending_config_if_due
activate_pending_config_if_due-CutOver r node = activate_if_due-CutOver r node.pending_config node

int_eq→eq : (a b : ℤ) → int_eq a b ≡ true → a ≡ b
int_eq→eq (pos a) (pos b) h = ground arith
int_eq→eq (pos a) (negsuc b) h = cc
int_eq→eq (negsuc a) (pos b) h = cc
int_eq→eq (negsuc a) (negsuc b) h = ground arith

module _ (hashing : Hashing) where
  -- A node that takes a repair log with at least one entry ends at that log's frontier and
  -- digest, whether it had to install the log or already held it.
  pub repair_lem :
      (log : RepairLog) (node : Node)
      → log.entries ≢ []
      → ((repair hashing (some log) node).committed_frontier ≡ repair_frontier log)
        × ((repair hashing (some log) node).commit_digest
            ≡ digest_for_committed_rounds hashing log.entries)
  unfolding repair should_install_repair_log install_repair_log
  repair_lem log node some_entry = ground (
    arith,
    some_entry,
    nonempty log.entries,
    int_eq→eq (repair_frontier log) node.committed_frontier,
    eq_iff (digest_for_committed_rounds hashing log.entries) node.commit_digest,
  )
    where
      nonempty : {A : Type 0} (xs : List A) → xs ≢ [] → (length xs == 0) ≡ false
      nonempty [] h = absurd (h refl)
      nonempty (x ∷ xs) h = ground arith

  -- An empty repair log never rolls a node back.
  pub repair_empty :
      (log : RepairLog) (node : Node) → log.entries ≡ [] → repair hashing (some log) node ≡ node
  unfolding repair install_repair_log
  repair_empty log node e =
      if_cases (λ n. n ≡ node) (should_install_repair_log hashing log node) (λ _. rw e refl)
        (λ _. refl)
