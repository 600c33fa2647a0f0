-- ===== src/Prelude/Bits/Single.antt =====
-- Single bits of words.
use Prim.Native.Nat.{ℕ, zero, suc, ◌-◌, ◌*◌, ◌/◌, ◌%◌, ◌^◌, ◌≤◌, ◌<◌, min, max}
use Prim.Native.Nat.{◌+◌, differ, bit_and, bit_or, bit_xor, bit_and-bitwise}
use zvbi.Prelude.Bits.Xor.{halving, bit_xor-zero}
use mathlib.Core.Path.{◌≡◌, refl, ap, ◌∙◌, sym}
use mathlib.Core.Bool.{not}
use native.Mathlib.Omega.{arith}
use native.Mathlib.Nat.{one-le-pow, pow-suc, div-div-eq-div-mul, mod-add-div', mul-add-div_right}
use zvbi.Prelude.Tests.{◌==◌}
use zvbi.Prelude.Words.{u32, ◌<<<◌, has_bits, complement}
use zvbi.Prelude.Sweep.{all_below, eq_below}
use zvbi.Prelude.Bits.Step.{bit_and_step, bit_or_step, bit_xor_step}
use zvbi.Prelude.Bits.Fields.{
  bit_and_fields, bit_or_fields, bit_and_mask, bit_or-lt, parts, bit_xor-div-mod,
}

abbrev pub bit_at : ℕ → ℕ → ℕ
bit_at x k = x / 2 ^ k % 2

pub bit_or-bit_at : (k a b : ℕ) → bit_at (bit_or a b) k ≡ max (bit_at a k) (bit_at b k)
bit_or-bit_at k a b = ground (
  arith,
  one-le-pow k 2,
  bit_or_fields k (a / 2 ^ k) (b / 2 ^ k) (a % 2 ^ k) (b % 2 ^ k),
  bit_or-lt k (a % 2 ^ k) (b % 2 ^ k),
  parts (2 ^ k) (bit_or (a / 2 ^ k) (b / 2 ^ k)) (bit_or (a % 2 ^ k) (b % 2 ^ k)),
  bit_or_step (a / 2 ^ k) (b / 2 ^ k),
)

single_bit : (k : ℕ) → k < 32 → u32 (1 <<< k) ≡ 2 ^ k
unfolding all_below
single_bit = eq_below 32 (λ k. u32 (1 <<< k)) (λ k. 2 ^ k) refl

field_zero : (v n : ℕ) → v < 2 → 1 ≤ n → not (v * n == 0) ≡ (v == 1)
field_zero zero n h k = ground arith
field_zero (suc zero) n h k = ground arith
field_zero (suc (suc v)) n h k = absurd (omega arith)

-- C's test of one bit.
pub has_bits-bit_at : (x k : ℕ) → k < 32 → has_bits x (u32 (1 <<< k)) ≡ (bit_at x k == 1)
has_bits-bit_at x k h =
    let mask : u32 (1 <<< k) ≡ (2 ^ 1 - 1) * 2 ^ k = single_bit k h ∙ omega arith in
    ap (λ (t : ℕ). not (t == 0)) (ap (bit_and x) mask ∙ bit_and_mask 1 k x)
    ∙ field_zero (bit_at x k) (2 ^ k) (omega arith) (omega (arith, one-le-pow k 2))

zero-bit_and : (b : ℕ) → bit_and 0 b ≡ 0
zero-bit_and b = bit_and-bitwise 0 b

pub bit_and-le : (a b : ℕ) → bit_and a b ≤ a
bit_and-le =
    halving (λ a. (b : ℕ) → bit_and a b ≤ a) (λ b. omega (arith, zero-bit_and b))
      (λ n ih b. omega (arith, bit_and_step (suc n) b, ih (b / 2)))

pub bit_and-bit_at : (k a b : ℕ) → bit_at (bit_and a b) k ≡ min (bit_at a k) (bit_at b k)
bit_and-bit_at k a b = ground (
  arith,
  one-le-pow k 2,
  bit_and_fields k (a / 2 ^ k) (b / 2 ^ k) (a % 2 ^ k) (b % 2 ^ k),
  bit_and-le (a % 2 ^ k) (b % 2 ^ k),
  parts (2 ^ k) (bit_and (a / 2 ^ k) (b / 2 ^ k)) (bit_and (a % 2 ^ k) (b % 2 ^ k)),
  bit_and_step (a / 2 ^ k) (b / 2 ^ k),
)

bit_at-suc : (x k : ℕ) → bit_at x (suc k) ≡ bit_at (x / 2) k
bit_at-suc x k = ap (λ (t : ℕ). t % 2) (div-pow-suc x k)
  where
    div-pow-suc : (y n : ℕ) → y / 2 ^ suc n ≡ y / 2 / 2 ^ n
    div-pow-suc y n =
        let swap : 2 ^ n * 2 ≡ 2 * 2 ^ n = omega arith in
        ap (λ (t : ℕ). y / t) (pow-suc 2 n)
        ∙ (ap (λ (t : ℕ). y / t) swap ∙ sym (div-div-eq-div-mul y 2 (2 ^ n)))

bit_at-not : (j x k : ℕ) → x < 2 ^ j → k < j → bit_at (2 ^ j - 1 - x) k ≡ 1 - bit_at x k
bit_at-not zero x k h lt = absurd (omega arith)
bit_at-not (suc j) x zero h lt = omega (arith, pow-suc 2 j)
bit_at-not (suc j) x (suc k) h lt =
    let half : (2 ^ suc j - 1 - x) / 2 ≡ 2 ^ j - 1 - x / 2 = omega (arith, pow-suc 2 j) in
    bit_at-suc (2 ^ suc j - 1 - x) k
    ∙ ap (λ (t : ℕ). bit_at t k) half
    ∙ bit_at-not j (x / 2) k (omega (arith, pow-suc 2 j)) (omega arith)
    ∙ ap (λ (t : ℕ). 1 - t) (sym (bit_at-suc x k))

pub complement-bit_at : (x k : ℕ) → x < 2 ^ 32 → k < 32 → bit_at (complement x) k ≡ 1 - bit_at x k
complement-bit_at x k h lt = bit_at-not 32 x k h lt

pub zero-bit_at : (k : ℕ) → bit_at 0 k ≡ 0
zero-bit_at zero = omega arith
zero-bit_at (suc k) = bit_at-suc 0 k ∙ zero-bit_at k

differ_bits : (p q : ℕ) → p < 2 → q < 2 → bit_xor p q ≡ (p + q) % 2
differ_bits zero zero h k = refl
differ_bits zero (suc zero) h k = refl
differ_bits (suc zero) zero h k = refl
differ_bits (suc zero) (suc zero) h k = refl
differ_bits zero (suc (suc q)) h k = absurd (omega arith)
differ_bits (suc zero) (suc (suc q)) h k = absurd (omega arith)
differ_bits (suc (suc p)) q h k = absurd (omega arith)

pub bit_xor-bit_at : (k a b : ℕ) → bit_at (bit_xor a b) k ≡ (bit_at a k + bit_at b k) % 2
bit_xor-bit_at k a b =
    ap (λ (t : ℕ). t % 2) (bit_xor-div-mod k a b).0
    ∙ (bit_xor-div-mod 1 (a / 2 ^ k) (b / 2 ^ k)).1
    ∙ differ_bits (bit_at a k) (bit_at b k) (omega arith) (omega arith)

-- The carry into a bit of a sum.
pub carry_bit : (x y n : ℕ) → 1 ≤ n → (x + y) / n % 2 ≡ (x / n + y / n + (x % n + y % n) / n) % 2
carry_bit x y n h =
    let whole : x + y ≡ (x / n + y / n) * n + (x % n + y % n) =
      omega (arith, mod-add-div' x n, mod-add-div' y n) in
    ap (λ (t : ℕ). t % 2)
      (ap (λ (t : ℕ). t / n) whole ∙ mul-add-div_right h (x / n + y / n) (x % n + y % n))

-- A mask with one bit of every four takes that bit of each digit.
digit_first : (x m : ℕ) → bit_and x (m * 16 + 1) ≡ x % 2 + bit_and (x / 16) m * 16
digit_first x m = ground (
  arith,
  bit_and_step x (m * 16 + 1),
  bit_and_step (x / 2) (m * 8),
  bit_and_step (x / 2 / 2) (m * 4),
  bit_and_step (x / 2 / 2 / 2) (m * 2),
)

pub bit_and_digit :
    (x n m : ℕ) → 1 ≤ n → bit_and (x / n) (m * 16 + 1) ≡ x / n % 2 + bit_and (x / (n * 16)) m * 16
bit_and_digit x n m h =
    digit_first (x / n) m ∙ ap (λ (t : ℕ). x / n % 2 + bit_and t m * 16) (div-div-eq-div-mul x n 16)

pub bit_and_digit_zero : (x m : ℕ) → bit_and x (m * 16) ≡ bit_and (x / 16) m * 16
bit_and_digit_zero x m = ground (
  arith,
  bit_and_step x (m * 16),
  bit_and_step (x / 2) (m * 8),
  bit_and_step (x / 2 / 2) (m * 4),
  bit_and_step (x / 2 / 2 / 2) (m * 2),
)

differ_one : (p : ℕ) → p < 2 → differ p 1 ≡ 1 - p
differ_one zero h = refl
differ_one (suc zero) h = refl
differ_one (suc (suc p)) h = absurd (omega arith)

-- `^` with ones turns every bit over.
pub bit_xor-ones : (k x : ℕ) → x < 2 ^ k → bit_xor x (2 ^ k - 1) ≡ 2 ^ k - 1 - x
bit_xor-ones zero x h = omega (arith, bit_xor-zero x)
bit_xor-ones (suc k) x h =
    let p = one-le-pow k 2 in
    let half : (2 ^ suc k - 1) / 2 ≡ 2 ^ k - 1 = omega (arith, pow-suc 2 k) in
    let odd : (2 ^ suc k - 1) % 2 ≡ 1 = omega (arith, pow-suc 2 k) in
    bit_xor_step x (2 ^ suc k - 1)
    ∙ rw
        (
          half,
          odd,
          bit_xor-ones k (x / 2) (omega (arith, pow-suc 2 k)),
          differ_one (x % 2) (omega arith),
        )
        (omega (arith, pow-suc 2 k))
