-- ===== src/Bcd/Carry.antt =====
-- The carries that the packed decimal functions of src/bcd.h look at: bit 4 k of `x + y` differs
-- from that of `x ^ y` where the lower digits carry.
use zvbi.Prelude.{
  ℕ, ◌+◌, ◌-◌, ◌*◌, ◌/◌, ◌%◌, ◌^◌, ◌≤◌, ◌<◌, ◌≡◌, refl, ◌∙◌, bit_and, bit_xor, complement, u32,
  arith,
}
use zvbi.Prelude.Bits.Fields.{bit_and_low, bit_xor-lt}
use zvbi.Prelude.Bits.Single.{
  bit_at, bit_xor-bit_at, carry_bit, complement-bit_at, bit_and_digit, bit_and_digit_zero,
}
use native.Mathlib.Nat.{mod-lt, div-lt_iff_lt-mul}

-- Bit 4 of each digit but the first.
pub bit_and_digits :
    (x : ℕ)
    → bit_and x 0x11111110
      ≡ x / 0x10 % 2 * 0x10
        + x / 0x100 % 2 * 0x100
        + x / 0x1000 % 2 * 0x1000
        + x / 0x10000 % 2 * 0x10000
        + x / 0x100000 % 2 * 0x100000
        + x / 0x1000000 % 2 * 0x1000000
        + x / 0x10000000 % 2 * 0x10000000
bit_and_digits x = omega (
  arith,
  bit_and_digit_zero x 0x1111111,
  bit_and_digit x 0x10 0x111111 (omega arith),
  bit_and_digit x 0x100 0x11111 (omega arith),
  bit_and_digit x 0x1000 0x1111 (omega arith),
  bit_and_digit x 0x10000 0x111 (omega arith),
  bit_and_digit x 0x100000 0x11 (omega arith),
  bit_and_digit x 0x1000000 1 (omega arith),
  bit_and_low 1 (x / 0x10000000),
)

-- The carry that the `k` lowest bits of `x` and `y` give.
abbrev pub carry : ℕ → ℕ → ℕ → ℕ
carry k x y = (x % 2 ^ k + y % 2 ^ k) / 2 ^ k

twice : (p q c : ℕ) → ((p + q + c) % 2 + (p % 2 + q % 2) % 2) % 2 ≡ c % 2
twice p q c = omega arith

carry_small : (k x y n : ℕ) → n ≡ 2 ^ k → 1 ≤ n → (x % n + y % n) / n < 2
carry_small k x y n h p = (div-lt_iff_lt-mul p).1 (omega (arith, mod-lt x p, mod-lt y p))

carry_lem :
    (k x y s : ℕ)
    → 1 ≤ 2 ^ k
    → bit_at s k ≡ bit_at (x + y) k
    → bit_at (bit_xor s (bit_xor x y)) k ≡ carry k x y
carry_lem k x y s h same = omega (
  arith,
  bit_xor-bit_at k s (bit_xor x y),
  bit_xor-bit_at k x y,
  carry_bit x y (2 ^ k) h,
  twice (x / 2 ^ k) (y / 2 ^ k) (carry k x y),
  carry_small k x y (2 ^ k) refl h,
)

-- `x + y` compared with `x ^ y`: the carries out of the digits but the last.
abbrev pub carries : ℕ → ℕ → ℕ
carries x y = bit_xor (u32 (x + y)) (bit_xor x y)

pub bit_and-carries :
    (x y : ℕ)
    → bit_and (carries x y) 0x11111110
      ≡ carry 4 x y * 0x10
        + carry 8 x y * 0x100
        + carry 12 x y * 0x1000
        + carry 16 x y * 0x10000
        + carry 20 x y * 0x100000
        + carry 24 x y * 0x1000000
        + carry 28 x y * 0x10000000
bit_and-carries x y =
    let s = u32 (x + y) in
    bit_and_digits (carries x y)
    ∙ rw (
      carry_lem 4 x y s (omega arith) (omega arith),
      carry_lem 8 x y s (omega arith) (omega arith),
      carry_lem 12 x y s (omega arith) (omega arith),
      carry_lem 16 x y s (omega arith) (omega arith),
      carry_lem 20 x y s (omega arith) (omega arith),
      carry_lem 24 x y s (omega arith) (omega arith),
      carry_lem 28 x y s (omega arith) (omega arith),
    )

-- The same for the places without a carry.
pub bit_and-complement-carries :
    (x y : ℕ)
    → x < 2 ^ 32
    → y < 2 ^ 32
    → bit_and (complement (carries x y)) 0x11111110
      ≡ (1 - carry 4 x y) * 0x10
        + (1 - carry 8 x y) * 0x100
        + (1 - carry 12 x y) * 0x1000
        + (1 - carry 16 x y) * 0x10000
        + (1 - carry 20 x y) * 0x100000
        + (1 - carry 24 x y) * 0x1000000
        + (1 - carry 28 x y) * 0x10000000
bit_and-complement-carries x y hx hy =
    let s = u32 (x + y) in
    let fits : carries x y < 2 ^ 32 =
      bit_xor-lt 32 s (bit_xor x y) (omega arith) (bit_xor-lt 32 x y hx hy) in
    bit_and_digits (complement (carries x y))
    ∙ rw (
      complement-bit_at (carries x y) 4 fits (omega arith),
      complement-bit_at (carries x y) 8 fits (omega arith),
      complement-bit_at (carries x y) 12 fits (omega arith),
      complement-bit_at (carries x y) 16 fits (omega arith),
      complement-bit_at (carries x y) 20 fits (omega arith),
      complement-bit_at (carries x y) 24 fits (omega arith),
      complement-bit_at (carries x y) 28 fits (omega arith),
      carry_lem 4 x y s (omega arith) (omega arith),
      carry_lem 8 x y s (omega arith) (omega arith),
      carry_lem 12 x y s (omega arith) (omega arith),
      carry_lem 16 x y s (omega arith) (omega arith),
      carry_lem 20 x y s (omega arith) (omega arith),
      carry_lem 24 x y s (omega arith) (omega arith),
      carry_lem 28 x y s (omega arith) (omega arith),
    )
