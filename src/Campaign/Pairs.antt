-- ===== src/Campaign/Pairs.antt =====
-- Pairs of entries that `safety_violations` of sim/runtime/random_campaign.py compares.
use mathlib.Core.List.{Memᴰ}
use mathlib.Core.List.Memᴰ
use syncons.Base.{
  all-and, ◌≡◌, ◌∙◌, refl, sym, ap, subst, Bool, true, not, ◌&&◌, ◌||◌, Option, none, some, List,
  [], ◌∷◌, ◌++◌, arith, if◌then◌else◌, &&_elim, all, ℤ, int_eq, Bool-cases, Option-cases, inl, inr,
}
use syncons.Protocol.{CommittedRoundRecord}
use syncons.Campaign.{CommittedValue, committed_value, value_eq, Committed, find_round}
use syncons.Campaign.Values.{int_eq_refl, int_eq_sound, value_eq_refl, value_eq_sound}

-- The two entries are not of one round, or their values are equal.
abbrev pub compatible : CommittedRoundRecord → CommittedRoundRecord → Bool
compatible a b = not (int_eq b.round a.round) || value_eq (committed_value b) (committed_value a)

abbrev pub pairwise_compatible : List CommittedRoundRecord → Bool
pairwise_compatible [] = true
pairwise_compatible (e ∷ es) = all (compatible e) es && pairwise_compatible es

-- The entry agrees with what the dict has for its round.
abbrev pub agrees_with : Option CommittedValue → CommittedRoundRecord → Bool
agrees_with none e = true
agrees_with (some previous) e = value_eq (committed_value e) previous

abbrev pub agrees : Committed → CommittedRoundRecord → Bool
agrees committed e = agrees_with (find_round e.round committed) e

abbrev pub noted_in : Option CommittedValue → CommittedRoundRecord → Committed → Committed
noted_in none e committed = committed ++ (e.round, committed_value e) ∷ []
noted_in (some _) e committed = committed

abbrev pub noted : CommittedRoundRecord → Committed → Committed
noted e committed = noted_in (find_round e.round committed) e committed

-- The loop over entries, without its messages.
abbrev pub all_agree : Committed → List CommittedRoundRecord → Bool
all_agree committed [] = true
all_agree committed (e ∷ es) = agrees committed e && all_agree (noted e committed) es

abbrev pub all_noted : List CommittedRoundRecord → Committed → Committed
all_noted [] committed = committed
all_noted (e ∷ es) committed = all_noted es (noted e committed)

pub all_agree-append :
    (committed : Committed) (xs ys : List CommittedRoundRecord)
    → all_agree committed (xs ++ ys)
      ≡ (all_agree committed xs && all_agree (all_noted xs committed) ys)
all_agree-append committed [] ys = refl
all_agree-append committed (x ∷ xs) ys = ground (arith, all_agree-append (noted x committed) xs ys)

find_round-snoc :
    (round r : ℤ) (v : CommittedValue) (committed : Committed)
    → find_round round (committed ++ (r, v) ∷ []) ≡ (elim (find_round round committed) [
      | some p ↦ some p
      | none ↦ if int_eq round r then some v else none
    ])
find_round-snoc round r v [] = refl
find_round-snoc round r v (e ∷ committed) = ground (arith, find_round-snoc round r v committed)

-- Once an entry has agreed, a later one agrees with the dict that has noted it exactly if it
-- agreed with the dict before and is compatible.
agrees-noted :
    (committed : Committed) (e later : CommittedRoundRecord)
    → agrees committed e ≡ true
    → agrees (noted e committed) later ≡ (agrees committed later && compatible e later)
agrees-noted committed e later h = elim (Option-cases (find_round e.round committed)) [
  | inl absent ↦ elim (Bool-cases (int_eq later.round e.round)) [
    | inl same ↦
        let absent' : find_round later.round committed ≡ none =
          ap (λ r. find_round r committed) (int_eq_sound later.round e.round same) ∙ absent in
        rw
          (absent, find_round-snoc later.round e.round (committed_value e) committed, absent', same)
          refl
    | inr other ↦
        rw (absent, find_round-snoc later.round e.round (committed_value e) committed, other)
          (ground arith)
  ]
  | inr (previous, present) ↦ elim (Bool-cases (int_eq later.round e.round)) [
    | inl same ↦
        let present' : find_round later.round committed ≡ some previous =
          ap (λ r. find_round r committed) (int_eq_sound later.round e.round same) ∙ present in
        let equal =
          value_eq_sound (committed_value e) previous
            (ap (λ o. agrees_with o e) (sym present) ∙ h) in
        rw (present, present', same, equal) (ground arith)
    | inr other ↦ rw (present, other) (ground arith)
  ]
]

module _ {ℓ} {A : Type ℓ} where
  all-ext : (p q : A → Bool) (xs : List A) → ((x : A) → p x ≡ q x) → all p xs ≡ all q xs
  all-ext p q [] h = refl
  all-ext p q (x ∷ xs) h = ground (arith, h x, all-ext p q xs h)

-- What the loop finds does not depend on the order in which it meets the entries.
pub all_agree-pairwise :
    (committed : Committed) (es : List CommittedRoundRecord)
    → all_agree committed es ≡ (all (agrees committed) es && pairwise_compatible es)
all_agree-pairwise committed [] = refl
all_agree-pairwise committed (e ∷ es) = elim (Bool-cases (agrees committed e)) [
  | inl h ↦
      rw
        (
          h,
          all_agree-pairwise (noted e committed) es,
          all-ext (agrees (noted e committed)) (λ x. agrees committed x && compatible e x) es
              (λ x. agrees-noted committed e x h),
          all-and (agrees committed) (compatible e) es,
        )
        (ground arith)
  | inr h ↦ rw h refl
]

pub all-Memᴰ {ℓ} :
    {A : Type ℓ} (p : A → Bool) (x : A) (xs : List A) → all p xs ≡ true → Memᴰ x xs → p x ≡ true
all-Memᴰ p x [] h m = absurd (Memᴰ.not-nil m)
all-Memᴰ p x (y ∷ ys) h m = elim (Memᴰ.cases_cons m) [
  | inl e ↦ subst (λ z. p z ≡ true) (sym e) (ground arith)
  | inr rest ↦ all-Memᴰ p x ys (ground arith) rest
]

pub Memᴰ-all {ℓ} :
    {A : Type ℓ} (p : A → Bool) (xs : List A) → ((x : A) → Memᴰ x xs → p x ≡ true) → all p xs ≡ true
Memᴰ-all p [] h = refl
Memᴰ-all p (x ∷ xs) h =
    ground (arith, h x (Memᴰ.head refl), Memᴰ-all p xs (λ y m. h y (Memᴰ.tail m)))

-- Any two of the entries that are of one round have equal values.
abbrev pub Agree : List CommittedRoundRecord → Type 0
Agree es =
    (a b : CommittedRoundRecord)
    → Memᴰ a es
    → Memᴰ b es
    → a.round ≡ b.round
    → committed_value a ≡ committed_value b

compatible_value :
    (a b : CommittedRoundRecord)
    → compatible a b ≡ true
    → b.round ≡ a.round
    → committed_value b ≡ committed_value a
compatible_value a b h e =
    value_eq_sound (committed_value b) (committed_value a)
      (ground (arith, ap (int_eq b.round) e, int_eq_refl b.round))

pub pairwise-Agree : (es : List CommittedRoundRecord) → pairwise_compatible es ≡ true → Agree es
pairwise-Agree [] h a b m n e = absurd (Memᴰ.not-nil m)
pairwise-Agree (x ∷ xs) h a b m n e =
    let (first, rest) = &&_elim (all (compatible x) xs) (pairwise_compatible xs) h in
    elim (Memᴰ.cases_cons m) [
      | inl a_first ↦ elim (Memᴰ.cases_cons n) [
        | inl b_first ↦ ap committed_value (a_first ∙ sym b_first)
        | inr b_rest ↦
            ap committed_value a_first
            ∙ sym (
                compatible_value x b (all-Memᴰ (compatible x) b xs first b_rest)
                  (sym e ∙ ap (λ c. c.round) a_first))
      ]
      | inr a_rest ↦ elim (Memᴰ.cases_cons n) [
        | inl b_first ↦
            compatible_value x a (all-Memᴰ (compatible x) a xs first a_rest)
              (e ∙ ap (λ c. c.round) b_first)
            ∙ ap committed_value (sym b_first)
        | inr b_rest ↦ pairwise-Agree xs rest a b a_rest b_rest e
      ]
    ]

pub Agree-pairwise : (es : List CommittedRoundRecord) → Agree es → pairwise_compatible es ≡ true
Agree-pairwise [] h = refl
Agree-pairwise (x ∷ xs) h =
    rw
      (Memᴰ-all (compatible x) xs (λ y m. elim (Bool-cases (int_eq y.round x.round)) [
        | inl same ↦
            rw (same, h y x (Memᴰ.tail m) (Memᴰ.head refl) (int_eq_sound y.round x.round same))
              (value_eq_refl (committed_value x))
        | inr other ↦ rw other refl
      ]))
      (Agree-pairwise xs (λ a b m n. h a b (Memᴰ.tail m) (Memᴰ.tail n)))
