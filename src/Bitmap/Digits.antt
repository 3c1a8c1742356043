-- ===== src/Bitmap/Digits.antt =====
-- The native `bit_and` and `bit_or` at variables: one equation for the lowest digit of each.
use Prim.Native.Nat.{digits, bitwise, bit_and-bitwise, bit_or-bitwise}
use native.Mathlib.Nat.{le_refl}
use syncons.Base.{
  ℕ, zero, suc, ◌+◌, ◌*◌, ◌/◌, ◌%◌, ◌≤◌, min, max, bit_and, bit_or, ◌≡◌, refl, arith,
}

-- The digits do not depend on the fuel, once it covers the number.
module _ (rest : ℕ → ℕ) (op : ℕ → ℕ → ℕ) where
  digits-fuel : (n m a b : ℕ) → a ≤ n → a ≤ m → digits rest op n a b ≡ digits rest op m a b
  digits-fuel zero zero zero b h k = refl
  digits-fuel zero (suc m) zero b h k = refl
  digits-fuel (suc n) zero zero b h k = refl
  digits-fuel (suc n) (suc m) zero b h k = refl
  digits-fuel zero m (suc a) b h k = absurd (omega arith)
  digits-fuel (suc n) zero (suc a) b h k = absurd (omega arith)
  digits-fuel (suc n) (suc m) (suc a) b h k =
      rw (digits-fuel n m (suc a / 2) (b / 2) (omega arith) (omega arith))

  lowest :
      (a b : ℕ)
      → bitwise rest op (suc a) b ≡ bitwise rest op (suc a / 2) (b / 2) * 2 + op (suc a % 2) (b % 2)
  lowest a b =
      omega (arith, digits-fuel a (suc a / 2) (suc a / 2) (b / 2) (omega arith) (le_refl _))

pub bit_and-halves : (a b : ℕ) → bit_and a b ≡ bit_and (a / 2) (b / 2) * 2 + min (a % 2) (b % 2)
bit_and-halves zero b = simp bit_and-bitwise (omega arith)
bit_and-halves (suc a) b = simp bit_and-bitwise (lowest (λ _. 0) min a b)

pub bit_or-halves : (a b : ℕ) → bit_or a b ≡ bit_or (a / 2) (b / 2) * 2 + max (a % 2) (b % 2)
bit_or-halves zero b = simp bit_or-bitwise (omega arith)
bit_or-halves (suc a) b = simp bit_or-bitwise (lowest (λ y. y) max a b)
