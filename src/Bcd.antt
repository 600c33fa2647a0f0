-- ===== src/Bcd.antt =====
-- src/bcd.h: packed decimal numbers.
pub mod Digits
mod Carry
mod Adder
pub mod Compare
pub mod Add
mod Tests
use zvbi.Prelude.{
  ℕ, zero, suc, ◌+◌, ◌-◌, ◌*◌, ◌/◌, ◌%◌, ◌^◌, ◌≤◌, Bool, not, bit_and, bit_or, bit_xor, u32, ◌>>>◌,
  has_bits, complement,
}

-- `vbi_dec2bcd`.
unfoldable pub dec2bcd : ℕ → ℕ
dec2bcd dec = u32 (dec % 10 + dec / 10 % 10 * 16 + dec / 100 % 10 * 256)

-- `vbi_bcd2dec`.
unfoldable pub bcd2dec : ℕ → ℕ
bcd2dec bcd = u32 (bit_and bcd 15 + bit_and (bcd >>> 4) 15 * 10 + bit_and (bcd >>> 8) 15 * 100)

-- `vbi_add_bcd`.
unfoldable pub add_bcd : ℕ → ℕ → ℕ
add_bcd a b =
    let a' = u32 (a + 0x06666666) in
    let t = u32 (a' + b) in
    let b' = bit_xor b (bit_xor a' t) in
    let b'' = bit_and (complement b') 0x11111110 >>> 3 in
    let b''' = bit_or b'' (u32 (b'' * 2)) in u32 (t + (2 ^ 32 - b'''))

-- `vbi_is_bcd`.
unfoldable pub is_bcd : ℕ → Bool
is_bcd bcd = not (has_bits (bit_xor (u32 (bcd + 0x06666666)) (bit_xor bcd 0x06666666)) 0x11111110)

-- `vbi_bcd_digits_greater`.
unfoldable pub bcd_digits_greater : ℕ → ℕ → Bool
bcd_digits_greater bcd maximum =
    let maximum' = bit_xor maximum (complement 0) in
    has_bits (bit_xor (bit_xor (u32 (bcd + maximum')) bcd) maximum') 0x11111110

-- What the last `k` digits of a packed number mean, and whether they are decimal digits.
unfoldable pub value : ℕ → ℕ → ℕ
value zero bcd = 0
value (suc k) bcd = bcd % 16 + 10 * value k (bcd / 16)

unfoldable pub AreDecimal : ℕ → ℕ → Type 0
AreDecimal zero bcd = Unit {0}
AreDecimal (suc k) bcd = (bcd % 16 ≤ 9) × AreDecimal k (bcd / 16)

-- No digit of the last `k` is greater than that of the maximum.
unfoldable pub AreAtMost : ℕ → ℕ → ℕ → Type 0
AreAtMost zero bcd maximum = Unit {0}
AreAtMost (suc k) bcd maximum = (bcd % 16 ≤ maximum % 16) × AreAtMost k (bcd / 16) (maximum / 16)
