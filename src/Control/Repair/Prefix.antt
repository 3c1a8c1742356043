-- ===== src/Control/Repair/Prefix.antt =====
-- Which prefix sim/control/control_plane.py repairs from.
use syncons.Base.{
  ◌≤◌, ◌≡◌, refl, ap, ◌⊎◌, inl, inr, true, false, List, [], ◌∷◌, map, length, arith, Bool-cases,
  none, ◌∙◌,
}
use syncons.Protocol.{CommittedRoundRecord, RepairSnapshot}
use syncons.Protocol.Records.{with_timing}
use syncons.Control.Repair.{clone_repair_prefix, is_better, best_of, select_repair_prefix}

-- A snapshot of the list.
abbrev pub In : RepairSnapshot → List RepairSnapshot → Type 0
In s [] = ⊥
In s (t ∷ ts) = (s ≡ t) ⊎ In s ts

clones : (es : List CommittedRoundRecord) → map (λ e. with_timing e none none) es ≡ es
unfolding with_timing
clones [] = refl
clones (e ∷ es) = ap (e ∷◌) (clones es)

-- At least as many rounds, and the smaller id where they are as many.
abbrev pub IsAhead : RepairSnapshot → RepairSnapshot → Type 0
IsAhead a b =
    (length b.committed_rounds ≤ length a.committed_rounds)
    × (length a.committed_rounds ≡ length b.committed_rounds → a.node_id ≤ b.node_id)

-- The chosen source.
pub record IsBest (best : RepairSnapshot) (snapshots : List RepairSnapshot) : Type 0 where
  pub is_in : In best snapshots
  pub is_ahead : (s : RepairSnapshot) → In s snapshots → IsAhead best s

IsAhead-trans : (a b c : RepairSnapshot) → IsAhead a b → IsAhead b c → IsAhead a c
IsAhead-trans a b c h k = (omega arith, λ e. ground arith)

IsAhead-refl : (a : RepairSnapshot) → IsAhead a a
IsAhead-refl a = (omega arith, λ e. omega arith)

is_better-IsAhead : (s t : RepairSnapshot) → is_better s t ≡ true → IsAhead s t
unfolding is_better
is_better-IsAhead s t h = (ground arith, λ e. ground arith)

not-better-IsAhead : (s t : RepairSnapshot) → is_better s t ≡ false → IsAhead t s
unfolding is_better
not-better-IsAhead s t h = (ground arith, λ e. ground arith)

-- A source that is best once `kept` stands for `best` and `s` is best of all.
widen :
    (r kept best s : RepairSnapshot) (ss : List RepairSnapshot)
    → (kept ≡ best) ⊎ (kept ≡ s)
    → IsAhead kept best
    → IsAhead kept s
    → IsBest r (kept ∷ ss)
    → IsBest r (best ∷ s ∷ ss)
widen r kept best s ss which over_best over_s is_best = record {
  is_in = elim is_best.is_in [
    | inl e ↦ elim which [ inl k ↦ inl (e ∙ k) | inr k ↦ inr (inl (e ∙ k)) ]
    | inr i ↦ inr (inr i)
  ];
  is_ahead = λ t i. elim i [
    | inl e ↦ rw e (IsAhead-trans r kept best (is_best.is_ahead kept (inl refl)) over_best)
    | inr (inl e) ↦ rw e (IsAhead-trans r kept s (is_best.is_ahead kept (inl refl)) over_s)
    | inr (inr j) ↦ is_best.is_ahead t (inr j)
  ];
}

best_of-IsBest :
    (best : RepairSnapshot) (ss : List RepairSnapshot) → IsBest (best_of best ss) (best ∷ ss)
unfolding best_of
best_of-IsBest best [] = record {
  is_in = inl refl;
  is_ahead = λ t i. elim i [ inl e ↦ rw e (IsAhead-refl best) | inr x ↦ absurd x ];
}
best_of-IsBest best (s ∷ ss) = elim (Bool-cases (is_better s best)) [
  | inl e ↦ rw e (
      widen (best_of s ss) s best s ss (inr refl) (is_better-IsAhead s best e) (IsAhead-refl s)
        (best_of-IsBest s ss))
  | inr e ↦ rw e (
      widen (best_of best ss) best best s ss (inl refl) (IsAhead-refl best)
        (not-better-IsAhead s best e) (best_of-IsBest best ss))
]

-- With at least one snapshot, the repair prefix is the whole log of one of them, times included:
-- of one that committed at least as many rounds as any other, with the smallest id among those.
pub select_repair_prefix-IsBest :
    (s : RepairSnapshot) (ss : List RepairSnapshot)
    → (source : RepairSnapshot) × IsBest source (s ∷ ss)
      × ((select_repair_prefix (s ∷ ss)).entries ≡ source.committed_rounds)
unfolding select_repair_prefix clone_repair_prefix
select_repair_prefix-IsBest s ss =
    (best_of s ss, best_of-IsBest s ss, clones ((best_of s ss).committed_rounds))
