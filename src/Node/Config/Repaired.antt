-- ===== src/Node/Config/Repaired.antt =====
-- What a repair log makes of what a node of sim/protocol/node.py knows of its log.
use syncons.Base.{
  ℕ, String, ◌≡◌, refl, sym, ◌∙◌, ◌⊎◌, inl, inr, true, false, Option, none, some, List, [], ◌∷◌,
  arith, ◌==◌, Option-cases, if_cases, length, get_last?, ℤ,
}
use syncons.Protocol.{MembershipState, CommittedRoundRecord, RepairLog, PendingConfig}
use syncons.Node.{Node, emit_control_plane_event}
use syncons.Node.Digest.{Hashing, digest_for_committed_rounds}
use syncons.Campaign.Values.{int_eq_sound}
use text.Mathlib.TextEquality.{eq_iff}
use syncons.Node.Config.{
  repair_frontier, reboot, acknowledge, should_install_repair_log, install_repair_log, repair,
}

-- What a node knows of its log.
pub record History : Type 0 where
  pub frontier : ℤ
  pub digest : String
  pub sound : Option ℕ

abbrev pub history : Node → History
history node = record {
  frontier = node.committed_frontier;
  digest = node.commit_digest;
  sound = node.last_committed_sound_set;
}

-- What a repair log makes of the history of a node: with entries, the node stands at the last of
-- them, with the digest of all, and with no sound set unless it already stood there.
pub data IsRepaired (hashing : Hashing) (before after : History) : Option RepairLog → Type 0 where
  no_log : after ≡ before → IsRepaired hashing before after none
  no_entries :
      (log : RepairLog)
      → log.entries ≡ []
      → after ≡ before
      → IsRepaired hashing before after (some log)
  restored :
      (log : RepairLog) (last : CommittedRoundRecord)
      → get_last? log.entries ≡ some last
      → after.frontier ≡ last.round
      → after.digest ≡ digest_for_committed_rounds hashing log.entries
      → (after.sound ≡ none) ⊎ (after ≡ before)
      → IsRepaired hashing before after (some log)

pub history-reboot :
    (state : MembershipState) (node : Node) → history (reboot state node) ≡ history node
unfolding reboot
history-reboot state node = if_cases (λ n. history n ≡ history node) _ (λ _. refl) (λ _. refl)

pub history-acknowledge :
    (old now : Option PendingConfig) (node : Node)
    → history (acknowledge old now node) ≡ history node
unfolding acknowledge emit_control_plane_event
history-acknowledge old none node = refl
history-acknowledge old (some pending) node =
    if_cases (λ n. history n ≡ history node) _ (λ _. refl) (λ _. refl)

last_missing : (entries : List CommittedRoundRecord) → get_last? entries ≡ none → entries ≡ []
last_missing [] h = refl
last_missing (e ∷ []) h = absurd (cc h)
last_missing (e ∷ f ∷ es) h = absurd (cc (last_missing (f ∷ es) h))

frontier_lem :
    (log : RepairLog) (last : CommittedRoundRecord)
    → get_last? log.entries ≡ some last
    → repair_frontier log ≡ last.round
unfolding repair_frontier
frontier_lem log last h = rw (h, repair_frontier) refl

missing_last : (entries : List CommittedRoundRecord) → (length entries == 0) ≡ true → entries ≡ []
missing_last [] h = refl
missing_last (e ∷ es) h = absurd (ground arith)

module _ (hashing : Hashing) where
  install_repair_log-IsRepaired :
      (log : RepairLog) (last : CommittedRoundRecord) (node : Node)
      → get_last? log.entries ≡ some last
      → IsRepaired hashing (history node) (history (install_repair_log hashing log node)) (some log)
  unfolding install_repair_log repair_frontier
  install_repair_log-IsRepaired log last node h =
      if_cases (λ n. IsRepaired hashing (history node) (history n) (some log)) _
        (λ e. no_entries log (missing_last log.entries e) refl)
        (λ _. restored log last h (frontier_lem log last h) refl (inl refl))

  installed_empty :
      (log : RepairLog) (node : Node)
      → log.entries ≡ []
      → history (install_repair_log hashing log node) ≡ history node
  unfolding install_repair_log
  installed_empty log node empty = rw empty refl

  kept_log :
      (log : RepairLog) (last : CommittedRoundRecord) (node : Node)
      → get_last? log.entries ≡ some last
      → should_install_repair_log hashing log node ≡ false
      → IsRepaired hashing (history node) (history node) (some log)
  unfolding should_install_repair_log repair_frontier
  kept_log log last node h e =
      let same = int_eq_sound (repair_frontier log) node.committed_frontier (ground arith) in
      let digest =
        (eq_iff (digest_for_committed_rounds hashing log.entries) node.commit_digest).0
          (ground arith) in
      restored log last h (sym same ∙ frontier_lem log last h) (sym digest) (inr refl)

  pub repair-IsRepaired :
      (log : Option RepairLog) (node : Node)
      → IsRepaired hashing (history node) (history (repair hashing log node)) log
  unfolding repair
  repair-IsRepaired none node = no_log refl
  repair-IsRepaired (some log) node = elim (Option-cases (get_last? log.entries)) [
    | inl absent ↦
        let empty = last_missing log.entries absent in
        if_cases (λ n. IsRepaired hashing (history node) (history n) (some log)) _
          (λ _. no_entries log empty (installed_empty log node empty))
          (λ _. no_entries log empty refl)
    | inr (last, present) ↦
        if_cases (λ n. IsRepaired hashing (history node) (history n) (some log)) _
          (λ _. install_repair_log-IsRepaired log last node present)
          (λ e. kept_log log last node present e)
  ]
