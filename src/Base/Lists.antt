-- ===== src/Base/Lists.antt =====
-- Python's lists: `len`, comprehensions, `range`, `any`, `all`, indexing and membership.
use Prim.Native.Nat.{ℕ, zero, suc, ◌+◌, ◌≤◌, ◌<◌}
use mathlib.Core.Path.{◌≡◌, refl, ap}
use mathlib.Core.Logic.{inl, inr}
use mathlib.Core.Bool.{Bool, true, false, not, ◌&&◌, ◌||◌}
use mathlib.Core.Option.{Option, none, some}
use mathlib.Core.List.{List, [], ◌∷◌, ◌++◌}
use native.Mathlib.Omega.{arith}
use syncons.Base.Tests.{◌==◌, if◌then◌else◌, Bool-cases}

module _ {ℓ} {A : Type ℓ} where
  abbrev pub length : List A → ℕ
  length [] = 0
  length (x ∷ xs) = suc (length xs)

  -- `[x for x in xs if p(x)]`
  abbrev pub filter : (A → Bool) → List A → List A
  filter p [] = []
  filter p (x ∷ xs) = if p x then x ∷ filter p xs else filter p xs

  -- `sum(1 for x in xs if p(x))`
  abbrev pub count : (A → Bool) → List A → ℕ
  count p [] = 0
  count p (x ∷ xs) = if p x then suc (count p xs) else count p xs

  abbrev pub all : (A → Bool) → List A → Bool
  all p [] = true
  all p (x ∷ xs) = p x && all p xs

  abbrev pub any : (A → Bool) → List A → Bool
  any p [] = false
  any p (x ∷ xs) = p x || any p xs

  abbrev pub get_elem? : List A → ℕ → Option A
  get_elem? [] i = none
  get_elem? (x ∷ xs) zero = some x
  get_elem? (x ∷ xs) (suc i) = get_elem? xs i

  -- `xs[-1]`
  abbrev pub get_last? : List A → Option A
  get_last? [] = none
  get_last? (x ∷ []) = some x
  get_last? (x ∷ y ∷ xs) = get_last? (y ∷ xs)

  pub length-append : (xs ys : List A) → length (xs ++ ys) ≡ length xs + length ys
  length-append [] ys = omega arith
  length-append (x ∷ xs) ys = omega (arith, length-append xs ys)

  pub count-le-length : (p : A → Bool) (xs : List A) → count p xs ≤ length xs
  count-le-length p [] = omega arith
  count-le-length p (x ∷ xs) = ground (arith, count-le-length p xs)

  -- Two counts that together exceed the length have an element in common.
  pub count_inter :
      (p q : A → Bool) (xs : List A)
      → count p xs + count q xs ≤ length xs + count (λ x. p x && q x) xs
  count_inter p q [] = omega arith
  count_inter p q (x ∷ xs) = ground (arith, count_inter p q xs)

  pub count_pos : (p : A → Bool) (xs : List A) → 0 < count p xs → (x : A) × (p x ≡ true)
  count_pos p [] h = absurd (omega arith)
  count_pos p (x ∷ xs) h = elim (Bool-cases (p x)) [
    | inl e ↦ (x, e)
    | inr e ↦ count_pos p xs (ground arith)
  ]

  pub count-filter :
      (p q : A → Bool) (xs : List A) → count p (filter q xs) ≡ count (λ x. q x && p x) xs
  count-filter p q [] = refl
  count-filter p q (x ∷ xs) = ground (arith, count-filter p q xs)

-- `range(i, i + n)`
abbrev pub range_from : ℕ → ℕ → List ℕ
range_from i zero = []
range_from i (suc n) = i ∷ range_from (suc i) n

-- `range(n)`
abbrev pub range : ℕ → List ℕ
range n = range_from 0 n

-- `x in xs`
abbrev pub elem : ℕ → List ℕ → Bool
elem a [] = false
elem a (x ∷ xs) = a == x || elem a xs

pub length-range_from : (i n : ℕ) → length (range_from i n) ≡ n
length-range_from i zero = refl
length-range_from i (suc n) = ap suc (length-range_from (suc i) n)

pub elem-range_from : (a i n : ℕ) → i ≤ a → a < i + n → elem a (range_from i n) ≡ true
elem-range_from a i zero h k = absurd (omega arith)
elem-range_from a i (suc n) h k = ground (arith, elem-range_from a (suc i) n)

pub elem-filter : (a : ℕ) (p : ℕ → Bool) (xs : List ℕ) → elem a (filter p xs) ≡ (p a && elem a xs)
elem-filter a p [] = ground arith
elem-filter a p (x ∷ xs) = ground (arith, elem-filter a p xs, ap p)

-- Where nothing passes the test, no element fails its negation.
pub any-not :
    (p : ℕ → Bool) (k : ℕ) (ks : List ℕ)
    → any (λ x. not (p x)) ks ≡ false
    → elem k ks ≡ true
    → p k ≡ true
any-not p k [] h i = cc
any-not p k (x ∷ ks) h i = ground (arith, any-not p k ks, ap p)

pub count-ext : (p q : ℕ → Bool) (xs : List ℕ) → ((x : ℕ) → p x ≡ q x) → count p xs ≡ count q xs
count-ext p q [] h = refl
count-ext p q (x ∷ xs) h = ground (arith, h x, count-ext p q xs h)

pub not-any :
    (p : ℕ → Bool) (ks : List ℕ)
    → ((k : ℕ) → elem k ks ≡ true → p k ≡ true)
    → any (λ x. not (p x)) ks ≡ false
not-any p [] h = refl
not-any p (x ∷ ks) h = ground (arith, h x, not-any p ks (λ k i. h k (ground arith)))

-- `all` of lists that are put together or filtered.
module _ {ℓ} {A : Type ℓ} (p : A → Bool) where
  pub all-append : (xs ys : List A) → all p (xs ++ ys) ≡ (all p xs && all p ys)
  all-append [] ys = refl
  all-append (x ∷ xs) ys = ground (arith, all-append xs ys)

  pub all-snoc : (xs : List A) (x : A) → p x ≡ true → all p xs ≡ true → all p (xs ++ x ∷ []) ≡ true
  all-snoc xs x h k = ground (arith, all-append xs (x ∷ []))

  pub all-filter : (q : A → Bool) (xs : List A) → all p xs ≡ true → all p (filter q xs) ≡ true
  all-filter q [] h = refl
  all-filter q (x ∷ xs) h = ground (arith, all-filter q xs)

  pub all-filter_same : (xs : List A) → all p (filter p xs) ≡ true
  all-filter_same [] = refl
  all-filter_same (x ∷ xs) = ground (arith, all-filter_same xs)

  pub all-and : (q : A → Bool) (xs : List A) → all (λ x. p x && q x) xs ≡ (all p xs && all q xs)
  all-and q [] = refl
  all-and q (x ∷ xs) = ground (arith, all-and q xs)
