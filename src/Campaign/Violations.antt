-- ===== src/Campaign/Violations.antt =====
-- What it means that `safety_violations` of sim/runtime/random_campaign.py finds nothing, said of
-- the rounds and proposals of the nodes and not of the values that it compares.
use mathlib.Core.List.{Memᴰ}
use syncons.Base.{
  ℕ, suc, String, ◌≡◌, refl, sym, ap, subst, ◌∙◌, ◌↔◌, true, List, [], ◌∷◌, map, arith, &&_elim,
  length, all, range, Dict, lookup, pos,
}
use syncons.Protocol.{CommittedRoundRecord}
use syncons.Cluster.Rounds.{NodeResult, RunResult}
use syncons.Campaign.{
  committed_value, rounds_of, first_rounds, is_prefix, safety_violations, sorted_proposals,
  sort_proposal, rounds_eq,
}
use syncons.Campaign.Pairs.{pairwise_compatible, pairwise-Agree, Agree-pairwise, all-Memᴰ, Memᴰ-all}
use syncons.Campaign.Safety.{entries_of, safety_violations-compatible}
use syncons.Expectations.Equality.{rounds_eq_refl, rounds_eq_sound}

-- Two entries that say the same of a round: the same epoch and commit set, and of every node the
-- same proposal or none.
pub record SaysTheSame (a b : CommittedRoundRecord) : Type 0 where
  pub epoch : a.membership_epoch ≡ b.membership_epoch
  pub commit_set : a.commit_set ≡ b.commit_set
  pub items : sorted_proposals a.proposals ≡ sorted_proposals b.proposals
  pub proposals : (k : ℕ) → lookup k a.proposals ≡ lookup k b.proposals

-- The rounds of every node are 0, 1, 2, … without a gap, and any two entries of one round, of one
-- node or two, say the same.
pub record IsSafe (nodes : List NodeResult) : Type 0 where
  pub numbered :
      (node : NodeResult)
      → Memᴰ node nodes
      → map (λ (e : CommittedRoundRecord). e.round) node.committed_rounds
        ≡ map pos (range (length node.committed_rounds))
  pub agree :
      (a b : CommittedRoundRecord)
      → Memᴰ a (entries_of nodes)
      → Memᴰ b (entries_of nodes)
      → a.round ≡ b.round
      → SaysTheSame a b

lookup-sort_proposal :
    (k : ℕ) (item : ℕ × String) (items : List (ℕ × String))
    → lookup k (sort_proposal item items) ≡ lookup k (item ∷ items)
lookup-sort_proposal k item [] = refl
lookup-sort_proposal k item (other ∷ items) = ground (arith, lookup-sort_proposal k item items)

-- Sorting moves no proposal to another node.
lookup-sorted_proposals : (k : ℕ) (d : Dict String) → lookup k (sorted_proposals d) ≡ lookup k d
lookup-sorted_proposals k [] = refl
lookup-sorted_proposals k (item ∷ d) =
    lookup-sort_proposal k item (sorted_proposals d) ∙ ground (arith, lookup-sorted_proposals k d)

committed_value-SaysTheSame :
    (a b : CommittedRoundRecord) → committed_value a ≡ committed_value b → SaysTheSame a b
unfolding committed_value
committed_value-SaysTheSame a b e =
    let same : sorted_proposals a.proposals ≡ sorted_proposals b.proposals =
      ap (λ v. v.proposals) e in
    record {
      epoch = ap (λ v. v.membership_epoch) e;
      commit_set = ap (λ v. v.commit_set) e;
      items = same;
      proposals = λ k.
          sym (lookup-sorted_proposals k a.proposals)
          ∙ ap (lookup k) same
          ∙ lookup-sorted_proposals k b.proposals;
    }

SaysTheSame-committed_value :
    (a b : CommittedRoundRecord) → SaysTheSame a b → committed_value a ≡ committed_value b
unfolding committed_value
SaysTheSame-committed_value a b s = cc (s.epoch, s.commit_set, s.items)

length-rounds_of : (es : List CommittedRoundRecord) → length (rounds_of es) ≡ length es
length-rounds_of [] = refl
length-rounds_of (e ∷ es) = ap suc (length-rounds_of es)

is_prefix_iff :
    (node : NodeResult)
    → (is_prefix node ≡ true)
      ↔ (rounds_of node.committed_rounds ≡ map pos (range (length node.committed_rounds)))
is_prefix_iff node =
    let rounds = rounds_of node.committed_rounds in
    let as_long : first_rounds (length rounds) ≡ first_rounds (length node.committed_rounds) =
      ap first_rounds (length-rounds_of node.committed_rounds) in
    (
      λ h. rounds_eq_sound rounds (first_rounds (length rounds)) h ∙ as_long,
      λ e. subst (λ r. rounds_eq rounds r ≡ true) (e ∙ sym as_long) (rounds_eq_refl rounds),
    )

-- There is no violation exactly if the rounds of every node are 0, 1, 2, … without a gap, and any
-- two entries of one round, of one node or two, have the same epoch, the same commit set and the
-- same proposals.
pub safety_violations_iff :
    (result : RunResult) → (safety_violations result ≡ []) ↔ IsSafe result.nodes
safety_violations_iff result =
    let entries = entries_of result.nodes in
    let (there, back) = safety_violations-compatible result in
    (
      λ clean.
          let (numbered, agree) =
            &&_elim (all is_prefix result.nodes) (pairwise_compatible entries) (there clean) in
          record {
            numbered =
                λ node m. (is_prefix_iff node).0 (all-Memᴰ is_prefix node result.nodes numbered m);
            agree = λ a b m n e.
                committed_value-SaysTheSame a b (pairwise-Agree entries agree a b m n e);
          },
      λ (safe : IsSafe result.nodes). back (
          rw
            (Memᴰ-all is_prefix result.nodes
              (λ node m. (is_prefix_iff node).1 (safe.numbered node m)))
            (Agree-pairwise entries
              (λ a b m n e. SaysTheSame-committed_value a b (safe.agree a b m n e)))),
    )
