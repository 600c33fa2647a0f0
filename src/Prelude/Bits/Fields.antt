-- ===== src/Prelude/Bits/Fields.antt =====
-- `&`, `|` and `^` of words that are put together from fields: each works on the fields apart.
use Prim.Native.Nat.{ℕ, zero, suc, ◌+◌, ◌-◌, ◌*◌, ◌/◌, ◌%◌, ◌^◌, ◌≤◌, ◌<◌, min, max, differ}
use Prim.Native.Nat.{bit_and, bit_or, bit_xor, bit_or-bitwise}
use mathlib.Core.Path.{◌≡◌, refl, ap}
use mathlib.Core.Bool.{◌||◌}
use native.Mathlib.Omega.{arith}
use native.Mathlib.Nat.{
  pow-suc, one-le-pow, mul-add-div_right, mul-add-mod_self_right, div-eq_of_lt, mod-eq_of_lt,
}
use zvbi.Prelude.Words.{is_negative}
use zvbi.Prelude.Bits.Step.{bit_and_step, bit_or_step, bit_xor_step}
use zvbi.Prelude.Bits.Xor.{halving, differ-lt, bit_xor-zero}

pub mul-pow-suc : (q k : ℕ) → q * 2 ^ suc k ≡ 2 * (q * 2 ^ k)
mul-pow-suc q k = omega (arith, ap (λ (t : ℕ). q * t) (pow-suc 2 k))

module _ (op f : ℕ → ℕ → ℕ) (nothing : op 0 0 ≡ 0)
    (step : (a b : ℕ) → op a b ≡ op (a / 2) (b / 2) * 2 + f (a % 2) (b % 2)) where
  by_fields :
      (k p q r s : ℕ)
      → r < 2 ^ k
      → s < 2 ^ k
      → op (p * 2 ^ k + r) (q * 2 ^ k + s) ≡ op p q * 2 ^ k + op r s
  by_fields zero p q r s hr hs = ground (arith, nothing)
  by_fields (suc k) p q r s hr hs = ground (
    arith,
    pow-suc 2 k,
    mul-pow-suc p k,
    mul-pow-suc q k,
    mul-pow-suc (op p q) k,
    step (p * 2 ^ suc k + r) (q * 2 ^ suc k + s),
    step r s,
    by_fields k p q (r / 2) (s / 2) (omega (arith, pow-suc 2 k)) (omega (arith, pow-suc 2 k)),
  )

pub bit_xor_fields :
    (k p q r s : ℕ)
    → r < 2 ^ k
    → s < 2 ^ k
    → bit_xor (p * 2 ^ k + r) (q * 2 ^ k + s) ≡ bit_xor p q * 2 ^ k + bit_xor r s
bit_xor_fields = by_fields bit_xor differ refl bit_xor_step

pub bit_and_fields :
    (k p q r s : ℕ)
    → r < 2 ^ k
    → s < 2 ^ k
    → bit_and (p * 2 ^ k + r) (q * 2 ^ k + s) ≡ bit_and p q * 2 ^ k + bit_and r s
bit_and_fields = by_fields bit_and min refl bit_and_step

pub bit_or_fields :
    (k p q r s : ℕ)
    → r < 2 ^ k
    → s < 2 ^ k
    → bit_or (p * 2 ^ k + r) (q * 2 ^ k + s) ≡ bit_or p q * 2 ^ k + bit_or r s
bit_or_fields = by_fields bit_or max refl bit_or_step

pub zero-bit_or : (a : ℕ) → bit_or 0 a ≡ a
zero-bit_or a = bit_or-bitwise 0 a

pub bit_or-zero : (a : ℕ) → bit_or a 0 ≡ a
bit_or-zero = halving (λ a. bit_or a 0 ≡ a) refl (λ n ih. omega (arith, bit_or_step (suc n) 0, ih))

pub bit_and-zero : (a : ℕ) → bit_and a 0 ≡ 0
bit_and-zero =
    halving (λ a. bit_and a 0 ≡ 0) refl (λ n ih. omega (arith, bit_and_step (suc n) 0, ih))

-- `|` of a high and a low field is their sum, in either order.
pub bit_or-high : (k q r : ℕ) → r < 2 ^ k → bit_or (q * 2 ^ k) r ≡ q * 2 ^ k + r
bit_or-high k q r h =
    ground (arith, bit_or_fields k q 0 0 r, bit_or-zero q, zero-bit_or r, one-le-pow k 2)

pub bit_or-low : (k q r : ℕ) → r < 2 ^ k → bit_or r (q * 2 ^ k) ≡ q * 2 ^ k + r
bit_or-low k q r h =
    ground (arith, bit_or_fields k 0 q r 0, zero-bit_or q, bit_or-zero r, one-le-pow k 2)

ones : (k r : ℕ) → r < 2 ^ k → bit_and r (2 ^ k - 1) ≡ r
ones zero r h = ground (arith, bit_and-zero r)
ones (suc k) r h =
    ground (arith, pow-suc 2 k, one-le-pow k 2, bit_and_step r (2 ^ suc k - 1), ones k (r / 2))

-- A mask of the `k` lowest bits takes the remainder.
pub bit_and_low : (k x : ℕ) → bit_and x (2 ^ k - 1) ≡ x % 2 ^ k
bit_and_low k x = ground (
  arith,
  one-le-pow k 2,
  bit_and_fields k (x / 2 ^ k) 0 (x % 2 ^ k) (2 ^ k - 1),
  bit_and-zero (x / 2 ^ k),
  ones k (x % 2 ^ k),
)

-- A mask of `k` bits from bit `m` up takes that field, in place.
pub bit_and_mask : (k m x : ℕ) → bit_and x ((2 ^ k - 1) * 2 ^ m) ≡ x / 2 ^ m % 2 ^ k * 2 ^ m
bit_and_mask k m x = ground (
  arith,
  one-le-pow m 2,
  bit_and_fields m (x / 2 ^ m) (2 ^ k - 1) (x % 2 ^ m) 0,
  bit_and-zero (x % 2 ^ m),
  bit_and_low k (x / 2 ^ m),
)

pub le-bit_or : (a b : ℕ) → a ≤ bit_or a b
le-bit_or =
    halving (λ a. (b : ℕ) → a ≤ bit_or a b) (λ b. omega arith)
      (λ n ih b. omega (arith, bit_or_step (suc n) b, ih (b / 2)))

pub bit_or-lt : (k a b : ℕ) → a < 2 ^ k → b < 2 ^ k → bit_or a b < 2 ^ k
bit_or-lt zero a b ha hb = ground (arith, bit_or-zero a)
bit_or-lt (suc k) a b ha hb = omega (
  arith,
  pow-suc 2 k,
  bit_or_step a b,
  bit_or-lt k (a / 2) (b / 2) (omega (arith, pow-suc 2 k)) (omega (arith, pow-suc 2 k)),
)

pub bit_xor-lt : (k a b : ℕ) → a < 2 ^ k → b < 2 ^ k → bit_xor a b < 2 ^ k
bit_xor-lt zero a b ha hb = ground (arith, bit_xor-zero a)
bit_xor-lt (suc k) a b ha hb = omega (
  arith,
  pow-suc 2 k,
  bit_xor_step a b,
  differ-lt (a % 2) (b % 2) (omega arith) (omega arith),
  bit_xor-lt k (a / 2) (b / 2) (omega (arith, pow-suc 2 k)) (omega (arith, pow-suc 2 k)),
)

bit_or_bit : (p q : ℕ) → p < 2 → q < 2 → bit_or p q ≡ max p q
bit_or_bit zero q h k = omega (arith, zero-bit_or q)
bit_or_bit (suc zero) zero h k = refl
bit_or_bit (suc zero) (suc zero) h k = refl
bit_or_bit (suc zero) (suc (suc q)) h k = absurd (omega arith)
bit_or_bit (suc (suc p)) q h k = absurd (omega arith)

-- The sign of `a | b`.
pub bit_or_sign :
    (a b : ℕ) → a < 2 ^ 32 → b < 2 ^ 32 → is_negative (bit_or a b) ≡ is_negative a || is_negative b
bit_or_sign a b ha hb = ground (
  arith,
  bit_or_fields 31 (a / 2 ^ 31) (b / 2 ^ 31) (a % 2 ^ 31) (b % 2 ^ 31),
  bit_or-lt 31 (a % 2 ^ 31) (b % 2 ^ 31),
  bit_or_bit (a / 2 ^ 31) (b / 2 ^ 31),
)

pub parts : (n q r : ℕ) → r < n → ((q * n + r) / n ≡ q) × ((q * n + r) % n ≡ r)
parts n q r h =
    let pos : 0 < n = omega arith in
    (
      omega (arith, mul-add-div_right pos q r, div-eq_of_lt h),
      omega (arith, mul-add-mod_self_right q n r, mod-eq_of_lt h),
    )

-- A field of `a ^ b` is that of `a` `^` that of `b`.
pub bit_xor-div-mod :
    (k a b : ℕ)
    → (bit_xor a b / 2 ^ k ≡ bit_xor (a / 2 ^ k) (b / 2 ^ k))
      × (bit_xor a b % 2 ^ k ≡ bit_xor (a % 2 ^ k) (b % 2 ^ k))
bit_xor-div-mod k a b =
    let p = one-le-pow k 2 in
    ground (
      arith,
      bit_xor_fields k (a / 2 ^ k) (b / 2 ^ k) (a % 2 ^ k) (b % 2 ^ k),
      bit_xor-lt k (a % 2 ^ k) (b % 2 ^ k),
      parts (2 ^ k) (bit_xor (a / 2 ^ k) (b / 2 ^ k)) (bit_xor (a % 2 ^ k) (b % 2 ^ k)),
    )
