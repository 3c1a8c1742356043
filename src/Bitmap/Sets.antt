-- ===== src/Bitmap/Sets.antt =====
-- `bitmap_set` and `bitmap_members` of sim/protocol/types.py against the sets they stand for.
use syncons.Base.{
  ℕ, zero, suc, ◌+◌, ◌^◌, ◌≤◌, ◌<◌, bit_or, ◌≡◌, refl, Bool, true, false, ◌&&◌, ◌||◌, arith, ltb,
  ◌∙◌, Option, none, some, List, [], ◌∷◌, is_some, filter, range, range_from, elem, all,
  elem-filter, elem-range_from,
}
use syncons.Bitmap.{has_bit, bitmap_set, set_members, bitmap_members}
use syncons.Bitmap.Laws.{has_bit-zero, has_bit-or, has_bit-two_pow, has_bit-ext}

elem-range_above : (a i n : ℕ) → i + n ≤ a → elem a (range_from i n) ≡ false
elem-range_above a i zero h = refl
elem-range_above a i (suc n) h = ground (arith, elem-range_above a (suc i) n)

pub elem-range : (a n : ℕ) → elem a (range n) ≡ ltb a n
elem-range a n = ground (arith, elem-range_from a 0 n, elem-range_above a 0 n)

-- The listed members are the ones below the cluster size that the bitmap holds.
pub elem-bitmap_members : (b n i : ℕ) → elem i (bitmap_members b n) ≡ (has_bit b i && ltb i n)
unfolding bitmap_members
elem-bitmap_members b n i = rw (elem-filter i (has_bit b) (range n), elem-range i n)

set_members-has_bit :
    (n v : ℕ) (ms : List ℕ) (b i : ℕ)
    → set_members n v ms ≡ some b
    → has_bit b i ≡ (has_bit v i || elem i ms)
unfolding set_members
set_members-has_bit n v [] b i e = ground arith
set_members-has_bit n v (m ∷ ms) b i e = ground (
  arith,
  set_members-has_bit n (bit_or v (2 ^ m)) ms b i,
  has_bit-or v (2 ^ m) i,
  has_bit-two_pow m i,
)

-- A bitmap that `bitmap_set` returns holds exactly the members it was given.
pub bitmap_set-has_bit :
    (n : ℕ) (ms : List ℕ) (b i : ℕ) → bitmap_set n ms ≡ some b → has_bit b i ≡ elem i ms
unfolding bitmap_set
bitmap_set-has_bit n ms b i e = ground (arith, set_members-has_bit n 0 ms b i e, has_bit-zero i)

set_members_raises : (n v : ℕ) (ms : List ℕ) → is_some (set_members n v ms) ≡ all (λ m. ltb m n) ms
unfolding set_members
set_members_raises n v [] = refl
set_members_raises n v (m ∷ ms) = ground (arith, set_members_raises n (bit_or v (2 ^ m)) ms)

-- `bitmap_set` raises exactly when a member lies outside the cluster.
pub bitmap_set_raises : (n : ℕ) (ms : List ℕ) → is_some (bitmap_set n ms) ≡ all (λ m. ltb m n) ms
unfolding bitmap_set
bitmap_set_raises n ms = set_members_raises n 0 ms

all_below_range :
    (p : ℕ → Bool) (n i k : ℕ) → i + k ≤ n → all (λ m. ltb m n) (filter p (range_from i k)) ≡ true
all_below_range p n i zero h = refl
all_below_range p n i (suc k) h = ground (arith, all_below_range p n (suc i) k)

pub bitmap_members_below : (b n : ℕ) → all (λ m. ltb m n) (bitmap_members b n) ≡ true
unfolding bitmap_members
bitmap_members_below b n = all_below_range (has_bit b) n 0 n (omega arith)

-- The members of a bitmap give the bitmap back, if it has none outside the cluster.
pub bitmap_set-bitmap_members :
    (b n : ℕ) → ((i : ℕ) → has_bit b i ≡ true → i < n) → bitmap_set n (bitmap_members b n) ≡ some b
unfolding bitmap_members
bitmap_set-bitmap_members b n inside = found (bitmap_set n (bitmap_members b n)) refl
  where
    total : is_some (bitmap_set n (bitmap_members b n)) ≡ true
    total =
        bitmap_set_raises n (bitmap_members b n) ∙ all_below_range (has_bit b) n 0 n (omega arith)

    point : (c i : ℕ) → bitmap_set n (bitmap_members b n) ≡ some c → has_bit c i ≡ has_bit b i
    point c i e = ground (
      arith,
      bitmap_set-has_bit n (bitmap_members b n) c i e,
      elem-bitmap_members b n i,
      inside i,
    )

    found :
        (r : Option ℕ)
        → bitmap_set n (bitmap_members b n) ≡ r
        → bitmap_set n (bitmap_members b n) ≡ some b
    found none e = ground (arith, total)
    found (some c) e = rw e (rw (has_bit-ext c b (λ i. point c i e)))
