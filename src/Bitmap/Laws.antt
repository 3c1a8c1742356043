-- ===== src/Bitmap/Laws.antt =====
-- What membership in a bitmap computes to under `|`, `&`, `1 << i` and `(1 << n) - 1`.
use native.Mathlib.Nat.{pow-suc, one-le-pow}
use syncons.Base.{
  ℕ, zero, suc, ◌+◌, ◌-◌, ◌*◌, ◌/◌, ◌%◌, ◌^◌, ◌≤◌, bit_and, bit_or, ◌≡◌, refl, Bool, true, false,
  ◌&&◌, ◌||◌, arith, ltb, ◌==◌, sym, ap, ◌∙◌, ◌<◌,
}
use syncons.Bitmap.Digits.{bit_and-halves, bit_or-halves}
use syncons.Bitmap.{has_bit, is_subset}

-- Membership by the digits of the bitmap.
abbrev bit_at : ℕ → ℕ → Bool
bit_at b zero = b % 2 == 1
bit_at b (suc i) = bit_at (b / 2) i

-- By induction on a bound of the bitmap.
bit_and_nothing : (bound b : ℕ) → b ≤ bound → bit_and b 0 ≡ 0
bit_and_nothing bound zero below = refl
bit_and_nothing zero (suc b) below = absurd (omega arith)
bit_and_nothing (suc bound) (suc b) below =
    let half = bit_and_nothing bound (suc b / 2) (omega arith) in
    omega (arith, half, bit_and-halves (suc b) 0)

bit_and-zero : (b : ℕ) → bit_and b 0 ≡ 0
bit_and-zero b = bit_and_nothing (b + 0) b (omega arith)

bit_and-two_pow : (b i : ℕ) → (bit_and b (2 ^ suc i) ≡ bit_and (b / 2) (2 ^ i) * 2)
bit_and-two_pow b i =
    let e : 2 ^ suc i ≡ 2 * 2 ^ i = omega (arith, pow-suc 2 i) in
    let half : 2 * 2 ^ i / 2 ≡ 2 ^ i = omega arith in
    rw e (rw (bit_and-halves b (2 * 2 ^ i)) (rw half (omega arith)))

-- The test of the source reads one digit.
has_bit-bit_at : (b i : ℕ) → has_bit b i ≡ bit_at b i
unfolding has_bit
has_bit-bit_at b zero = ground (arith, bit_and-halves b 1, bit_and-zero (b / 2))
has_bit-bit_at b (suc i) = ground (arith, bit_and-two_pow b i, has_bit-bit_at (b / 2) i)

bit_at-zero : (i : ℕ) → bit_at 0 i ≡ false
bit_at-zero zero = refl
bit_at-zero (suc i) = bit_at-zero i

bit_at-or : (a b i : ℕ) → bit_at (bit_or a b) i ≡ (bit_at a i || bit_at b i)
bit_at-or a b zero = ground (arith, bit_or-halves a b)
bit_at-or a b (suc i) =
    let e : bit_or a b / 2 ≡ bit_or (a / 2) (b / 2) = omega (arith, bit_or-halves a b) in
    rw e (bit_at-or (a / 2) (b / 2) i)

bit_at-and : (a b i : ℕ) → bit_at (bit_and a b) i ≡ (bit_at a i && bit_at b i)
bit_at-and a b zero = ground (arith, bit_and-halves a b)
bit_at-and a b (suc i) =
    let e : bit_and a b / 2 ≡ bit_and (a / 2) (b / 2) = omega (arith, bit_and-halves a b) in
    rw e (bit_at-and (a / 2) (b / 2) i)

bit_at-two_pow : (k i : ℕ) → bit_at (2 ^ k) i ≡ (i == k)
bit_at-two_pow zero zero = refl
bit_at-two_pow zero (suc i) = ground (arith, bit_at-zero i)
bit_at-two_pow (suc k) zero = ground (arith, pow-suc 2 k)
bit_at-two_pow (suc k) (suc i) =
    let e : 2 ^ suc k / 2 ≡ 2 ^ k = omega (arith, pow-suc 2 k) in
    rw e (ground (arith, bit_at-two_pow k i))

bit_at-ones : (n i : ℕ) → bit_at (2 ^ n - 1) i ≡ ltb i n
bit_at-ones zero i = ground (arith, bit_at-zero i)
bit_at-ones (suc n) zero = ground (arith, pow-suc 2 n, one-le-pow n 2)
bit_at-ones (suc n) (suc i) =
    let e : (2 ^ suc n - 1) / 2 ≡ 2 ^ n - 1 = omega (arith, pow-suc 2 n, one-le-pow n 2) in
    rw e (ground (arith, bit_at-ones n i))

pub has_bit-zero : (i : ℕ) → has_bit 0 i ≡ false
has_bit-zero i = has_bit-bit_at 0 i ∙ bit_at-zero i

pub has_bit-or : (a b i : ℕ) → has_bit (bit_or a b) i ≡ (has_bit a i || has_bit b i)
has_bit-or a b i = simp has_bit-bit_at (bit_at-or a b i)

pub has_bit-and : (a b i : ℕ) → has_bit (bit_and a b) i ≡ (has_bit a i && has_bit b i)
has_bit-and a b i = simp has_bit-bit_at (bit_at-and a b i)

pub has_bit-two_pow : (k i : ℕ) → has_bit (2 ^ k) i ≡ (i == k)
has_bit-two_pow k i = simp has_bit-bit_at (bit_at-two_pow k i)

pub has_bit-ones : (n i : ℕ) → has_bit (2 ^ n - 1) i ≡ ltb i n
has_bit-ones n i = simp has_bit-bit_at (bit_at-ones n i)

ext_fuel : (n a b : ℕ) → a ≤ n → b ≤ n → ((i : ℕ) → bit_at a i ≡ bit_at b i) → a ≡ b
ext_fuel zero a b h k e = omega arith
ext_fuel (suc n) a b h k e =
    ground (arith, e 0, ext_fuel n (a / 2) (b / 2) (omega arith) (omega arith) (λ i. e (suc i)))

-- A bitmap is the set of its members.
pub has_bit-ext : (a b : ℕ) → ((i : ℕ) → has_bit a i ≡ has_bit b i) → a ≡ b
has_bit-ext a b e =
    ext_fuel (a + b) a b (omega arith) (omega arith)
      (λ i. sym (has_bit-bit_at a i) ∙ e i ∙ has_bit-bit_at b i)

-- `a & b == a` holds only if every member of `a` is one of `b`.
pub is_subset_sound : (a b i : ℕ) → is_subset a b ≡ true → has_bit a i ≡ true → has_bit b i ≡ true
unfolding is_subset
is_subset_sound a b i h m = ground (arith, has_bit-and a b i, ap (λ c. has_bit c i) (equal h))
  where
    equal : (bit_and a b == a) ≡ true → bit_and a b ≡ a
    equal t = ground arith

-- And it holds if every member of `a` is one of `b`.
pub is_subset_complete :
    (a b : ℕ) → ((i : ℕ) → has_bit a i ≡ true → has_bit b i ≡ true) → is_subset a b ≡ true
unfolding is_subset
is_subset_complete a b h = ground (arith, has_bit-ext (bit_and a b) a point)
  where
    point : (i : ℕ) → has_bit (bit_and a b) i ≡ has_bit a i
    point i = ground (arith, has_bit-and a b i, h i)

bit_or-zero : (b : ℕ) → bit_or b 0 ≡ b
bit_or-zero b = has_bit-ext (bit_or b 0) b (λ i. ground (arith, has_bit-or b 0 i, has_bit-zero i))

-- A word above and one of `k` digits below are put together by `|`.
pub bit_or_words : (k high low : ℕ) → low < 2 ^ k → bit_or (high * 2 ^ k) low ≡ high * 2 ^ k + low
bit_or_words zero high low below =
    let e : low ≡ 0 = omega arith in
    let one : high * 2 ^ 0 ≡ high = omega arith in rw e (rw one (omega (arith, bit_or-zero high)))
bit_or_words (suc k) high low below =
    let e : high * 2 ^ suc k ≡ high * 2 ^ k * 2 =
      omega (arith, pow-suc 2 k, ap (λ x. high * x) (pow-suc 2 k)) in
    let half : high * 2 ^ k * 2 / 2 ≡ high * 2 ^ k = omega arith in
    let rest = bit_or_words k high (low / 2) (omega (arith, pow-suc 2 k)) in
    rw e (rw (bit_or-halves (high * 2 ^ k * 2) low) (rw half (omega (arith, rest))))
