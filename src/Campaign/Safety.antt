-- ===== src/Campaign/Safety.antt =====
-- What it means that `safety_violations` of sim/runtime/random_campaign.py finds nothing.
use mathlib.Core.List.{Memᴰ}
use syncons.Base.{
  ℕ, ◌≡◌, ◌↔◌, ◌∙◌, refl, sym, ap, Bool, true, false, ◌&&◌, Option, none, some, List, [], ◌∷◌, ◌++◌,
  arith, ◌==◌, &&_elim, length, all, Bool-cases, inl, inr,
}
use syncons.Protocol.{CommittedRoundRecord}
use syncons.Cluster.Rounds.{NodeResult, RunResult}
use syncons.Campaign.{
  CommittedValue, committed_value, Violation, conflicting, non_prefix, find_round, Checked,
  check_value, check_entry, check_entries, rounds_of, is_prefix, check_prefix, check_nodes,
  safety_violations,
}
use syncons.Campaign.Pairs.{
  pairwise_compatible, agrees_with, agrees, noted_in, all_agree, all_noted, all_agree-append,
  all_agree-pairwise, pairwise-Agree,
}

abbrev is_clean : Checked → Bool
is_clean checked = length checked.violations == 0

clean-snoc : (vs : List Violation) (v : Violation) → (length (vs ++ v ∷ []) == 0) ≡ false
clean-snoc [] v = refl
clean-snoc (w ∷ vs) v = ground arith

check_value-is_clean :
    (i : ℕ) (e : CommittedRoundRecord) (found : Option CommittedValue) (checked : Checked)
    → is_clean (check_value i e.round (committed_value e) found checked)
      ≡ (is_clean checked && agrees_with found e)
unfolding check_value
check_value-is_clean i e none checked = ground arith
check_value-is_clean i e (some previous) checked =
    ground
      (arith, clean-snoc checked.violations (conflicting e.round i (committed_value e) previous))

check_value-committed :
    (i : ℕ) (e : CommittedRoundRecord) (found : Option CommittedValue) (checked : Checked)
    → (check_value i e.round (committed_value e) found checked).committed_by_round
      ≡ noted_in found e checked.committed_by_round
unfolding check_value
check_value-committed i e none checked = refl
check_value-committed i e (some previous) checked = ground arith

check_entries-lem :
    (i : ℕ) (es : List CommittedRoundRecord) (checked : Checked)
    → let after = check_entries i es checked in
      (is_clean after ≡ (is_clean checked && all_agree checked.committed_by_round es))
      × (after.committed_by_round ≡ all_noted es checked.committed_by_round)
unfolding check_entries check_entry
check_entries-lem i [] checked = (ground arith, refl)
check_entries-lem i (e ∷ es) checked =
    let found = find_round e.round checked.committed_by_round in
    let next = check_value i e.round (committed_value e) found checked in
    let (clean, committed) = check_entries-lem i es next in
    let noted_next = check_value-committed i e found checked in
    (
      clean ∙ rw (noted_next, check_value-is_clean i e found checked) (ground arith),
      committed ∙ ap (all_noted es) noted_next,
    )

check_prefix-lem :
    (node : NodeResult) (checked : Checked)
    → let after = check_prefix node checked in
      (is_clean after ≡ (is_clean checked && is_prefix node))
      × (after.committed_by_round ≡ checked.committed_by_round)
unfolding check_prefix
check_prefix-lem node checked = elim (Bool-cases (is_prefix node)) [
  | inl h ↦ rw h (ground arith, refl)
  | inr h ↦ rw h (
    clean-snoc checked.violations (non_prefix node.node_id (rounds_of node.committed_rounds))
        ∙ ground arith,
    refl,
  )
]

-- All entries of a result.
abbrev pub entries_of : List NodeResult → List CommittedRoundRecord
entries_of [] = []
entries_of (node ∷ nodes) = node.committed_rounds ++ entries_of nodes

check_nodes-is_clean :
    (nodes : List NodeResult) (checked : Checked)
    → is_clean (check_nodes nodes checked) ≡ (
        is_clean checked
        && (all is_prefix nodes && all_agree checked.committed_by_round (entries_of nodes)))
unfolding check_nodes
check_nodes-is_clean [] checked = ground arith
check_nodes-is_clean (node ∷ nodes) checked =
    let es = node.committed_rounds in
    let first = check_prefix-lem node checked in
    let second = check_entries-lem node.node_id es (check_prefix node checked) in
    check_nodes-is_clean nodes (check_entries node.node_id es (check_prefix node checked))
    ∙ rw
        (
          second.0,
          second.1,
          first.0,
          first.1,
          all_agree-append checked.committed_by_round es (entries_of nodes),
        )
        (ground arith)

violations_empty : (vs : List Violation) → (length vs == 0) ≡ true → vs ≡ []
violations_empty [] h = refl
violations_empty (v ∷ vs) h = absurd (ground arith)

checked_lem :
    (result : RunResult)
    → (length (safety_violations result) == 0)
      ≡ (all is_prefix result.nodes && pairwise_compatible (entries_of result.nodes))
unfolding safety_violations
checked_lem result =
    check_nodes-is_clean result.nodes (record { violations = []; committed_by_round = [] })
    ∙ ap (λ b. all is_prefix result.nodes && b)
        (all_agree-pairwise [] (entries_of result.nodes)
          ∙ rw (all-true (agrees []) (λ e. refl) (entries_of result.nodes)) refl)
  where
    all-true :
        (p : CommittedRoundRecord → Bool)
        → ((e : CommittedRoundRecord) → p e ≡ true)
        → (es : List CommittedRoundRecord) → all p es ≡ true
    all-true p h [] = refl
    all-true p h (e ∷ es) = ground (arith, h e, all-true p h es)

-- There is no violation exactly if the rounds of every node are 0, 1, 2, … without a gap, and no
-- two entries of one round, of one node or two, have different values.
pub safety_violations-compatible :
    (result : RunResult)
    → (safety_violations result ≡ [])
      ↔ ((all is_prefix result.nodes && pairwise_compatible (entries_of result.nodes)) ≡ true)
safety_violations-compatible result = (
  λ e. sym (checked_lem result) ∙ ap (λ (vs : List Violation). length vs == 0) e,
  λ h. violations_empty (safety_violations result) (checked_lem result ∙ h),
)

-- Where no violation is found, any two entries of the result that are of one round have the same
-- epoch, the same commit set and the same proposals.
pub safety_violations-committed_value :
    (result : RunResult) (a b : CommittedRoundRecord)
    → safety_violations result ≡ []
    → Memᴰ a (entries_of result.nodes)
    → Memᴰ b (entries_of result.nodes)
    → a.round ≡ b.round
    → committed_value a ≡ committed_value b
safety_violations-committed_value result a b clean m n e =
    let h = (safety_violations-compatible result).0 clean in
    pairwise-Agree (entries_of result.nodes)
      (&&_elim (all is_prefix result.nodes) (pairwise_compatible (entries_of result.nodes)) h).1 a b
      m n e
