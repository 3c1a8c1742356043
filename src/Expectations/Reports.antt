-- ===== src/Expectations/Reports.antt =====
-- _compact_round_list of sim/runtime/cli.py, as the ranges that it prints: a range of one round is
-- printed as that round, any other as its first and last.
use syncons.Base.{
  ℕ, zero, suc, ◌+◌, ◌-◌, ◌≤◌, ◌≡◌, refl, ap, ◌∙◌, true, false, List, [], ◌∷◌, ◌++◌, arith, ◌==◌,
  range_from, Bool-cases, inl, inr, append_assoc,
}

-- The loop, with `start` and `end`.
unfoldable pub compact_from : ℕ → ℕ → List ℕ → List (ℕ × ℕ)
compact_from start end [] = (start, end) ∷ []
compact_from start end (value ∷ rounds) = elim (value == end + 1) [
  | true ↦ compact_from start value rounds
  | false ↦ (start, end) ∷ compact_from value value rounds
]

unfoldable pub compact_round_list : List ℕ → List (ℕ × ℕ)
unfolding compact_from
compact_round_list [] = []
compact_round_list (first ∷ rounds) = compact_from first first rounds

-- The rounds that ranges stand for.
abbrev pub expand : List (ℕ × ℕ) → List ℕ
expand [] = []
expand ((start, end) ∷ ranges) = range_from start (end + 1 - start) ++ expand ranges

range_from-snoc : (i n : ℕ) → range_from i (suc n) ≡ range_from i n ++ (i + n) ∷ []
range_from-snoc i zero = ap (λ j. j ∷ []) (omega arith)
range_from-snoc i (suc n) =
    ap (λ xs. i ∷ xs)
      (range_from-snoc (suc i) n ∙ ap (λ j. range_from (suc i) n ++ j ∷ []) (omega arith))

one_round : (start : ℕ) → start + 1 - start ≡ 1
one_round start = omega arith

-- A range that takes in the next round.
grown :
    (start end value : ℕ) (rounds : List ℕ)
    → start ≤ end
    → value ≡ end + 1
    → range_from start (value + 1 - start) ++ rounds
      ≡ range_from start (end + 1 - start) ++ value ∷ rounds
grown start end value rounds h next =
    let longer : value + 1 - start ≡ suc (end + 1 - start) = omega arith in
    let added : start + (end + 1 - start) ≡ value = omega arith in
    ap (λ n. range_from start n ++ rounds) longer
    ∙ ap (λ xs. xs ++ rounds) (range_from-snoc start (end + 1 - start))
    ∙ append_assoc (range_from start (end + 1 - start)) ((start + (end + 1 - start)) ∷ []) rounds
    ∙ ap (λ v. range_from start (end + 1 - start) ++ v ∷ rounds) added

compact_next :
    (start end value : ℕ) (rounds : List ℕ)
    → (value == end + 1) ≡ true
    → compact_from start end (value ∷ rounds) ≡ compact_from start value rounds
unfolding compact_from
compact_next start end value rounds next = ground arith

compact_gap :
    (start end value : ℕ) (rounds : List ℕ)
    → (value == end + 1) ≡ false
    → compact_from start end (value ∷ rounds) ≡ (start, end) ∷ compact_from value value rounds
unfolding compact_from
compact_gap start end value rounds gap = ground arith

expand-compact_from :
    (start end : ℕ) (rounds : List ℕ)
    → start ≤ end
    → expand (compact_from start end rounds) ≡ range_from start (end + 1 - start) ++ rounds
unfolding compact_from
expand-compact_from start end [] h = refl
expand-compact_from start end (value ∷ rounds) h = elim (Bool-cases (value == end + 1)) [
  | inl next ↦
      ap expand (compact_next start end value rounds next)
      ∙ expand-compact_from start value rounds (ground arith)
      ∙ grown start end value rounds h (ground arith)
  | inr gap ↦
      ap expand (compact_gap start end value rounds gap)
      ∙ ap (λ xs. range_from start (end + 1 - start) ++ xs)
          (expand-compact_from value value rounds (omega arith)
            ∙ ap (λ n. range_from value n ++ rounds) (one_round value))
]

-- The ranges of any list of rounds stand for that list, in its order.
pub expand-compact_round_list : (rounds : List ℕ) → expand (compact_round_list rounds) ≡ rounds
unfolding compact_round_list
expand-compact_round_list [] = refl
expand-compact_round_list (first ∷ rounds) =
    expand-compact_from first first rounds (omega arith)
    ∙ ap (λ n. range_from first n ++ rounds) (one_round first)
