-- ===== src/Campaign.antt =====
-- sim/runtime/random_campaign.py: the check of a run for safety violations. The messages of the
-- violations are kept as their contents.
pub mod Values
pub mod Pairs
pub mod Safety
pub mod Violations
pub mod Faults
pub mod Duplicates
pub mod Summary
pub mod Bounds
pub mod Trials
mod Examples
use syncons.Base.{
  ℕ, zero, suc, ◌+◌, ◌*◌, ◌-◌, min, max, Bool, true, false, not, ◌&&◌, Option, none, some, List, [],
  ◌∷◌, ◌++◌, map, Dict, if◌then◌else◌, insert, ltb, ◌==◌, length, count, filter, range, range_from,
  elem, lookup, ℤ, pos, int_eq, String, str_eq, option_eq, is_some,
}
use syncons.Protocol.{
  CommittedRoundRecord, NodeStatus, running, halted, crashed, NetworkFaultModel, NodeFaultModel,
  Packet, Delivery, PayloadFactory, default_timing,
}
use syncons.Protocol.Equality.{node_status_eq}
use syncons.Control.{◌>>=◌}
use syncons.Node.Digest.{Hashing}
use syncons.Cluster.{Settings}
use syncons.Cluster.Rounds.{NodeResult, RunResult, run}

-- The result of `committed_value`.
pub record CommittedValue : Type 0 where
  pub membership_epoch : ℕ
  pub commit_set : ℕ
  pub proposals : List (ℕ × String)

-- `sorted(items)`, of a dict's items: no two of them have the same key.
abbrev pub sort_proposal : ℕ × String → List (ℕ × String) → List (ℕ × String)
sort_proposal item [] = item ∷ []
sort_proposal item (other ∷ items) =
    if ltb other.0 item.0 then other ∷ sort_proposal item items else item ∷ other ∷ items

abbrev pub sorted_proposals : Dict String → List (ℕ × String)
sorted_proposals [] = []
sorted_proposals (item ∷ items) = sort_proposal item (sorted_proposals items)

unfoldable pub committed_value : CommittedRoundRecord → CommittedValue
committed_value entry = record {
  membership_epoch = entry.membership_epoch;
  commit_set = entry.commit_set;
  proposals = sorted_proposals entry.proposals;
}

abbrev pub items_eq : List (ℕ × String) → List (ℕ × String) → Bool
items_eq [] [] = true
items_eq (a ∷ as') (b ∷ bs) = a.0 == b.0 && (str_eq a.1 b.1 && items_eq as' bs)
items_eq _ _ = false

abbrev pub value_eq : CommittedValue → CommittedValue → Bool
value_eq a b =
    a.membership_epoch == b.membership_epoch
    && (a.commit_set == b.commit_set && items_eq a.proposals b.proposals)

abbrev pub rounds_eq : List ℤ → List ℤ → Bool
rounds_eq [] [] = true
rounds_eq (a ∷ as') (b ∷ bs) = int_eq a b && rounds_eq as' bs
rounds_eq _ _ = false

-- `list(range(n))`
abbrev pub first_rounds : ℕ → List ℤ
first_rounds n = map pos (range n)

-- The two messages.
pub data Violation : Type 0 where
  non_prefix : ℕ → List ℤ → Violation
  conflicting : ℤ → ℕ → CommittedValue → CommittedValue → Violation

-- `committed_by_round`, in the order of insertion.
abbrev pub Committed : Type 0
Committed = List (ℤ × CommittedValue)

abbrev pub find_round : ℤ → Committed → Option CommittedValue
find_round round [] = none
find_round round (e ∷ committed) = if int_eq round e.0 then some e.1 else find_round round committed

-- The state of the loops.
pub record Checked : Type 0 where
  pub violations : List Violation
  pub committed_by_round : Committed

-- `setdefault`, and the test on what it returns.
unfoldable pub check_value : ℕ → ℤ → CommittedValue → Option CommittedValue → Checked → Checked
check_value node_id round value none checked = record checked {
  committed_by_round = checked.committed_by_round ++ (round, value) ∷ [];
}
check_value node_id round value (some previous) checked =
    if not (value_eq value previous)
    then record checked {
      violations = checked.violations ++ conflicting round node_id value previous ∷ [];
    }
    else checked

unfoldable pub check_entry : ℕ → CommittedRoundRecord → Checked → Checked
unfolding check_value committed_value
check_entry node_id entry checked =
    check_value node_id entry.round (committed_value entry)
      (find_round entry.round checked.committed_by_round) checked

unfoldable pub check_entries : ℕ → List CommittedRoundRecord → Checked → Checked
unfolding check_entry
check_entries node_id [] checked = checked
check_entries node_id (entry ∷ entries) checked =
    check_entries node_id entries (check_entry node_id entry checked)

abbrev pub rounds_of : List CommittedRoundRecord → List ℤ
rounds_of entries = map (λ entry. entry.round) entries

-- `rounds == list(range(len(rounds)))`
abbrev pub is_prefix : NodeResult → Bool
is_prefix node =
    let rounds = rounds_of node.committed_rounds in rounds_eq rounds (first_rounds (length rounds))

unfoldable pub check_prefix : NodeResult → Checked → Checked
check_prefix node checked =
    if not (is_prefix node)
    then record checked {
      violations =
          checked.violations ++ non_prefix node.node_id (rounds_of node.committed_rounds) ∷ [];
    }
    else checked

unfoldable pub check_nodes : List NodeResult → Checked → Checked
unfolding check_prefix check_entries
check_nodes [] checked = checked
check_nodes (node ∷ nodes) checked =
    check_nodes nodes (check_entries node.node_id node.committed_rounds (check_prefix node checked))

unfoldable pub safety_violations : RunResult → List Violation
unfolding check_nodes
safety_violations result =
    (check_nodes result.nodes (record { violations = []; committed_by_round = [] })).violations
