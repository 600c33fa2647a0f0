-- ===== src/Bcd/Digits.antt =====
-- The conversions of src/bcd.h against the digits of a number.
use zvbi.Bcd.{dec2bcd, bcd2dec}
use zvbi.Prelude.Bits.Fields.{bit_and_low}
use zvbi.Prelude.{ℕ, ◌+◌, ◌*◌, ◌/◌, ◌%◌, ◌≤◌, ◌<◌, ◌≡◌, ◌>>>◌, arith}

bcd2dec-digits : (bcd : ℕ) → bcd2dec bcd ≡ bcd % 16 + bcd / 16 % 16 * 10 + bcd / 256 % 16 * 100
unfolding bcd2dec
bcd2dec-digits bcd =
    omega (arith, bit_and_low 4 bcd, bit_and_low 4 (bcd >>> 4), bit_and_low 4 (bcd >>> 8))

dec2bcd-digits : (dec : ℕ) → dec2bcd dec ≡ dec % 10 + dec / 10 % 10 * 16 + dec / 100 % 10 * 256
unfolding dec2bcd
dec2bcd-digits dec = omega arith

three_digits :
    (d e h : ℕ) (n : ℕ)
    → d < 10
    → e < 10
    → h < 10
    → n ≡ d + e * 16 + h * 256
    → n % 16 + n / 16 % 16 * 10 + n / 256 % 16 * 100 ≡ d + e * 10 + h * 100
three_digits d e h n p q r s = omega arith

-- vbi_bcd2dec of vbi_dec2bcd is the number without its digits above the third.
pub bcd2dec-dec2bcd : (dec : ℕ) → bcd2dec (dec2bcd dec) ≡ dec % 1000
bcd2dec-dec2bcd dec = omega (
  arith,
  bcd2dec-digits (dec2bcd dec),
  three_digits (dec % 10) (dec / 10 % 10) (dec / 100 % 10) (dec2bcd dec) (omega arith) (omega arith)
      (omega arith) (dec2bcd-digits dec),
)

-- vbi_dec2bcd of vbi_bcd2dec is the number again, for a number below 0x1000 of three decimal
-- digits.
pub dec2bcd-bcd2dec :
    (bcd : ℕ)
    → bcd < 0x1000
    → bcd % 16 ≤ 9
    → bcd / 16 % 16 ≤ 9
    → bcd / 256 ≤ 9
    → dec2bcd (bcd2dec bcd) ≡ bcd
dec2bcd-bcd2dec bcd h a b c = omega (arith, bcd2dec-digits bcd, dec2bcd-digits (bcd2dec bcd))
