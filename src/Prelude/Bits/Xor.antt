-- ===== src/Prelude/Bits/Xor.antt =====
-- `^` is an abelian group in which every number is its own inverse.
use Prim.Native.Nat.{ℕ, zero, suc, ◌/◌, ◌%◌, ◌≤◌, ◌<◌, differ, bit_xor, bit_xor-bitwise}
use mathlib.Core.Path.{◌≡◌, refl, ap, sym, ◌∙◌}
use native.Mathlib.Omega.{arith}
use zvbi.Prelude.Bits.Step.{bit_xor_step}

-- Induction from `n / 2` to `n`.
halving_below {ℓ} :
    (P : ℕ → Type ℓ) → P 0 → ((n : ℕ) → P (suc n / 2) → P (suc n)) → (k n : ℕ) → n ≤ k → P n
halving_below P base up k zero h = base
halving_below P base up zero (suc n) h = absurd (omega arith)
halving_below P base up (suc k) (suc n) h =
    up n (halving_below P base up k (suc n / 2) (omega arith))

pub halving {ℓ} : (P : ℕ → Type ℓ) → P 0 → ((n : ℕ) → P (suc n / 2) → P (suc n)) → (n : ℕ) → P n
halving P base up n = halving_below P base up n n (omega arith)

pub differ-lt : (x y : ℕ) → x < 2 → y < 2 → differ x y < 2
differ-lt zero y p q = q
differ-lt (suc x) zero p q = p
differ-lt (suc zero) (suc zero) p q = omega arith
differ-lt (suc zero) (suc (suc y)) p q = absurd (omega arith)
differ-lt (suc (suc x)) (suc y) p q = absurd (omega arith)

differ_comm : (x y : ℕ) → differ x y ≡ differ y x
differ_comm zero zero = refl
differ_comm zero (suc y) = refl
differ_comm (suc x) zero = refl
differ_comm (suc x) (suc y) = differ_comm x y

differ_self : (x : ℕ) → differ x x ≡ 0
differ_self zero = refl
differ_self (suc x) = differ_self x

differ_assoc : (x y z : ℕ) → x < 2 → y < 2 → z < 2 → differ (differ x y) z ≡ differ x (differ y z)
differ_assoc zero y z p q r = refl
differ_assoc (suc zero) zero z p q r = refl
differ_assoc (suc zero) (suc zero) zero p q r = refl
differ_assoc (suc zero) (suc zero) (suc zero) p q r = refl
differ_assoc (suc zero) (suc zero) (suc (suc z)) p q r = absurd (omega arith)
differ_assoc (suc zero) (suc (suc y)) z p q r = absurd (omega arith)
differ_assoc (suc (suc x)) y z p q r = absurd (omega arith)

bit_xor-half :
    (a b : ℕ)
    → (bit_xor a b / 2 ≡ bit_xor (a / 2) (b / 2)) × (bit_xor a b % 2 ≡ differ (a % 2) (b % 2))
bit_xor-half a b =
    omega (arith, bit_xor_step a b, differ-lt (a % 2) (b % 2) (omega arith) (omega arith))

pub zero-bit_xor : (b : ℕ) → bit_xor 0 b ≡ b
zero-bit_xor b = bit_xor-bitwise 0 b

pub bit_xor-zero : (a : ℕ) → bit_xor a 0 ≡ a
bit_xor-zero =
    halving (λ a. bit_xor a 0 ≡ a) refl
      (λ n ih. omega (arith, bit_xor_step (suc n) 0, ih, differ_comm (suc n % 2) 0))

pub bit_xor_self : (a : ℕ) → bit_xor a a ≡ 0
bit_xor_self =
    halving (λ a. bit_xor a a ≡ 0) refl
      (λ n ih. omega (arith, bit_xor_step (suc n) (suc n), ih, differ_self (suc n % 2)))

pub bit_xor_comm : (a b : ℕ) → bit_xor a b ≡ bit_xor b a
bit_xor_comm =
    halving (λ a. (b : ℕ) → bit_xor a b ≡ bit_xor b a) (λ b. zero-bit_xor b ∙ sym (bit_xor-zero b))
      (λ n ih b. omega (
        arith,
        bit_xor_step (suc n) b,
        bit_xor_step b (suc n),
        ih (b / 2),
        differ_comm (suc n % 2) (b % 2),
      ))

pub bit_xor_assoc : (a b c : ℕ) → bit_xor (bit_xor a b) c ≡ bit_xor a (bit_xor b c)
bit_xor_assoc =
    halving (λ a. (b c : ℕ) → bit_xor (bit_xor a b) c ≡ bit_xor a (bit_xor b c))
      (λ b c. ap (λ (t : ℕ). bit_xor t c) (zero-bit_xor b) ∙ sym (zero-bit_xor (bit_xor b c)))
      (λ n ih b c. ground (
        arith,
        bit_xor_step (bit_xor (suc n) b) c,
        bit_xor_step (suc n) (bit_xor b c),
        bit_xor-half (suc n) b,
        bit_xor-half b c,
        ih (b / 2) (c / 2),
        differ_assoc (suc n % 2) (b % 2) (c % 2),
      ))

-- The two middle terms of four change places.
pub bit_xor_swap :
    (a b c d : ℕ) → bit_xor (bit_xor a b) (bit_xor c d) ≡ bit_xor (bit_xor a c) (bit_xor b d)
bit_xor_swap a b c d =
    bit_xor_assoc a b (bit_xor c d)
    ∙ ap (bit_xor a) (
        sym (bit_xor_assoc b c d)
        ∙ ap (λ (t : ℕ). bit_xor t d) (bit_xor_comm b c)
        ∙ bit_xor_assoc c b d)
    ∙ sym (bit_xor_assoc a c (bit_xor b d))

pub bit_xor-eq-zero : (a b : ℕ) → bit_xor a b ≡ 0 → a ≡ b
bit_xor-eq-zero a b h =
    sym (bit_xor-zero a)
    ∙ ap (bit_xor a) (sym (bit_xor_self b))
    ∙ sym (bit_xor_assoc a b b)
    ∙ ap (λ (t : ℕ). bit_xor t b) h
    ∙ zero-bit_xor b
