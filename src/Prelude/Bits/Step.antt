-- ===== src/Prelude/Bits/Step.antt =====
-- One binary digit of `&`, `|` and `^`: the native operations mean a recursion on digits with
-- fuel, and the first operand is always fuel enough.
use Prim.Native.Nat.{ℕ, zero, suc, ◌+◌, ◌*◌, ◌/◌, ◌%◌, ◌≤◌, min, max, digits, bitwise, differ}
use Prim.Native.Nat.{bit_and, bit_or, bit_xor, bit_and-bitwise, bit_or-bitwise, bit_xor-bitwise}
use mathlib.Core.Path.{◌≡◌, refl, ap}
use native.Mathlib.Omega.{arith}

module _ (z : ℕ → ℕ) (f : ℕ → ℕ → ℕ) where
  -- Any two amounts of fuel that cover the first operand give the same digits.
  same_digits : (k l a b : ℕ) → a ≤ k → a ≤ l → digits z f k a b ≡ digits z f l a b
  same_digits zero zero a b p q = refl
  same_digits zero (suc l) zero b p q = refl
  same_digits (suc k) zero zero b p q = refl
  same_digits (suc k) (suc l) zero b p q = refl
  same_digits zero (suc l) (suc a) b p q = absurd (omega arith)
  same_digits (suc k) zero (suc a) b p q = absurd (omega arith)
  same_digits (suc k) (suc l) (suc a) b p q =
      ap (λ (t : ℕ). t * 2 + f (suc a % 2) (b % 2))
        (same_digits k l (suc a / 2) (b / 2) (omega arith) (omega arith))

  -- The recursion of `bitwise` without its fuel.
  bitwise_step :
      (a b : ℕ)
      → bitwise z f (suc a) b ≡ bitwise z f (suc a / 2) (b / 2) * 2 + f (suc a % 2) (b % 2)
  bitwise_step a b =
      ap (λ (t : ℕ). t * 2 + f (suc a % 2) (b % 2))
        (same_digits a (suc a / 2) (suc a / 2) (b / 2) (omega arith) (omega arith))

pub bit_and_step : (a b : ℕ) → bit_and a b ≡ bit_and (a / 2) (b / 2) * 2 + min (a % 2) (b % 2)
bit_and_step zero b = omega (arith, bit_and-bitwise 0 b, bit_and-bitwise 0 (b / 2))
bit_and_step (suc a) b = simp bit_and-bitwise (bitwise_step (λ _. 0) min a b)

pub bit_or_step : (a b : ℕ) → bit_or a b ≡ bit_or (a / 2) (b / 2) * 2 + max (a % 2) (b % 2)
bit_or_step zero b = omega (arith, bit_or-bitwise 0 b, bit_or-bitwise 0 (b / 2))
bit_or_step (suc a) b = simp bit_or-bitwise (bitwise_step (λ y. y) max a b)

pub bit_xor_step : (a b : ℕ) → bit_xor a b ≡ bit_xor (a / 2) (b / 2) * 2 + differ (a % 2) (b % 2)
bit_xor_step zero b = omega (arith, bit_xor-bitwise 0 b, bit_xor-bitwise 0 (b / 2))
bit_xor_step (suc a) b = simp bit_xor-bitwise (bitwise_step (λ y. y) differ a b)
