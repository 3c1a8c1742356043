-- ===== src/Campaign/Bounds.antt =====
-- How the numbers in the summaries of sim/runtime/random_campaign.py bound each other.
use syncons.Base.{
  ℕ, zero, suc, ◌+◌, ◌-◌, ◌≤◌, ◌<◌, ◌≡◌, sym, subst, Bool, true, false, not, ◌&&◌, ◌||◌, Option,
  none, some, List, [], ◌∷◌, arith, Dict, if_cases, ltb, ◌==◌, length, count, count-le-length,
  range, range_from, lookup, lookup-insert,
}
use syncons.Protocol.{NodeStatus, running, halted, crashed}
use syncons.Protocol.Equality.{node_status_eq}
use syncons.Campaign.Faults.{
  first_crash, store_crash, draw_crash_rounds, is_before, random_node_fault_model,
}
use syncons.Campaign.Summary.{TrialSummary, CampaignSummary, summarize_campaign}

-- Every trial is counted as all running, or among the halted or the crashed ones; those may overlap.
pub record AreCounted (s : CampaignSummary) : Type 0 where
  pub violations_below : s.safety_violation_runs ≤ s.trials
  pub halted_apart : s.halted_runs + s.all_running_runs ≤ s.trials
  pub crashed_apart : s.crashed_runs + s.all_running_runs ≤ s.trials
  pub all_counted : s.trials ≤ s.halted_runs + s.crashed_runs + s.all_running_runs

count_apart {ℓ} :
    {A : Type ℓ} (p q : A → Bool) (xs : List A)
    → ((x : A) → (p x && q x) ≡ false)
    → count p xs + count q xs ≤ length xs
count_apart p q [] h = omega arith
count_apart p q (x ∷ xs) h = ground (arith, h x, count_apart p q xs h)

count_cover {ℓ} :
    {A : Type ℓ} (p q r : A → Bool) (xs : List A)
    → ((x : A) → (p x || (q x || r x)) ≡ true)
    → length xs ≤ count p xs + count q xs + count r xs
count_cover p q r [] h = omega arith
count_cover p q r (x ∷ xs) h = ground (arith, h x, count_cover p q r xs h)

-- The summary of as many trials as were asked for counts each of them: as one in which all nodes
-- run, or as one in which a node halted or crashed, but not as both.
pub summarize_campaign-AreCounted :
    (n node_count : ℕ) (trials : List TrialSummary)
    → length trials ≡ n
    → AreCounted (summarize_campaign n node_count trials)
unfolding summarize_campaign
summarize_campaign-AreCounted n node_count trials h =
    let violated = λ (t : TrialSummary). not (length t.violations == 0) in
    let halt = λ (t : TrialSummary). ltb 0 t.halted_nodes in
    let crash = λ (t : TrialSummary). ltb 0 t.crashed_nodes in
    let calm = λ (t : TrialSummary). t.halted_nodes == 0 && t.crashed_nodes == 0 in
    record {
      violations_below = omega (arith, count-le-length violated trials, h);
      halted_apart = omega (arith, count_apart halt calm trials (λ t. ground arith), h);
      crashed_apart = omega (arith, count_apart crash calm trials (λ t. ground arith), h);
      all_counted = omega (arith, count_cover halt crash calm trials (λ t. ground arith), h);
    }

-- Each node of a trial is counted as halted or crashed, or it runs.
pub count_statuses :
    (statuses : List NodeStatus)
    → count (λ s. node_status_eq s halted) statuses
        + count (λ s. node_status_eq s crashed) statuses
        + count (λ s. node_status_eq s running) statuses
      ≡ length statuses
count_statuses [] = omega arith
count_statuses (running ∷ statuses) = omega (arith, count_statuses statuses)
count_statuses (halted ∷ statuses) = omega (arith, count_statuses statuses)
count_statuses (crashed ∷ statuses) = omega (arith, count_statuses statuses)

-- A crash comes no earlier than the first round of the loop.
abbrev IsLate : Option ℕ → Type 0
IsLate none = Unit {0}
IsLate (some r) = 0 < r

first_crash-IsLate :
    (drawn : ℕ → Bool) (i k : ℕ) → 0 < i → IsLate (first_crash drawn (range_from i k))
unfolding first_crash
first_crash-IsLate drawn i zero h = tt
first_crash-IsLate drawn i (suc k) h =
    if_cases IsLate (drawn i) (λ _. h) (λ _. first_crash-IsLate drawn (suc i) k (omega arith))

store-IsLate :
    (i j : ℕ) (o : Option ℕ) (d : Dict ℕ)
    → IsLate o
    → IsLate (lookup i d)
    → IsLate (lookup i (store_crash j o d))
store-IsLate i j none d h k = k
store-IsLate i j (some r) d h k =
    subst IsLate (sym (lookup-insert i j r d)) (if_cases IsLate (i == j) (λ _. h) (λ _. k))

draw-IsLate :
    (drawn : ℕ → ℕ → Bool) (rounds : ℕ) (nodes : List ℕ) (d : Dict ℕ) (i : ℕ)
    → IsLate (lookup i d)
    → IsLate (lookup i (draw_crash_rounds drawn rounds nodes d))
unfolding draw_crash_rounds
draw-IsLate drawn rounds [] d i h = h
draw-IsLate drawn rounds (j ∷ nodes) d i h = draw-IsLate drawn rounds nodes _ i (
    store-IsLate i j (first_crash (drawn j) (range_from 1 (rounds - 1))) d
      (first_crash-IsLate (drawn j) 1 (rounds - 1) (omega arith)) h)

stays :
    (o : Option ℕ) (r later : ℕ)
    → IsLate o
    → is_before r o ≡ false
    → r ≤ later
    → (0 < r) × (is_before later o ≡ false)
stays none r later h k le = absurd (ground arith)
stays (some c) r later h k le = ground arith

-- A node that a random crash has stopped is stopped in all later rounds, and none is stopped in
-- round zero.
pub random_node_fault_model_stays :
    (drawn : ℕ → ℕ → Bool) (node_count rounds i r later : ℕ)
    → random_node_fault_model drawn node_count rounds i r ≡ false
    → r ≤ later
    → (0 < r) × (random_node_fault_model drawn node_count rounds i later ≡ false)
unfolding random_node_fault_model
random_node_fault_model_stays drawn node_count rounds i r later h le =
    stays (lookup i (draw_crash_rounds drawn rounds (range node_count) [])) r later
      (draw-IsLate drawn rounds (range node_count) [] i tt) h le
