-- ===== src/Bcd/Tests.antt =====
-- Runs of the functions of src/bcd.h, and the theorems about them at an input.
use zvbi.Bcd.Add.{add_bcd-value}
use zvbi.Bcd.Compare.{is_bcd-AreDecimal, bcd_digits_greater-AreAtMost}
use zvbi.Bcd.Digits.{bcd2dec-dec2bcd}
use zvbi.Bcd.{dec2bcd, bcd2dec, add_bcd, is_bcd, bcd_digits_greater, value, AreDecimal, AreAtMost}
use zvbi.Prelude.{◌≡◌, ◌↔◌, ◌+◌, ◌/◌, ◌%◌, ◌^◌, refl, true, false, arith}

dec2bcd_run : dec2bcd 899 ≡ 0x899
unfolding dec2bcd
dec2bcd_run = refl

-- 999 + 1, and -1 + 1 in ten's complement.
add_bcd_run : add_bcd 0x999 1 ≡ 0x1000
unfolding add_bcd
add_bcd_run = refl

add_bcd_negative : add_bcd 0xF9999999 1 ≡ 0
unfolding add_bcd
add_bcd_negative = refl

-- The first digit of eight is not looked at.
bcd_digits_greater_first : bcd_digits_greater 0x90000000 0x80000000 ≡ false
unfolding bcd_digits_greater
bcd_digits_greater_first = refl

bcd2dec-dec2bcd_example : bcd2dec (dec2bcd 1234) ≡ 1234 % 1000
bcd2dec-dec2bcd_example = bcd2dec-dec2bcd 1234

is_bcd-AreDecimal_example : (is_bcd 0x1A ≡ true) ↔ AreDecimal 7 0x1A
is_bcd-AreDecimal_example = is_bcd-AreDecimal 0x1A

bcd_digits_greater-AreAtMost_example :
    (bcd_digits_greater 0x235960 0x235959 ≡ false) ↔ AreAtMost 7 0x235960 0x235959
bcd_digits_greater-AreAtMost_example = bcd_digits_greater-AreAtMost 0x235960 0x235959 (omega arith)

decimal_199 : AreDecimal 7 0x199
unfolding AreDecimal
decimal_199 = (
  omega arith,
  (omega arith, (omega arith, (omega arith, (omega arith, (omega arith, (omega arith, tt)))))),
)

decimal_999 : AreDecimal 7 0xF9999999
unfolding AreDecimal
decimal_999 = (
  omega arith,
  (omega arith, (omega arith, (omega arith, (omega arith, (omega arith, (omega arith, tt)))))),
)

add_bcd-value_example :
    AreDecimal 7 (add_bcd 0x199 0xF9999999)
    × (value 7 (add_bcd 0x199 0xF9999999) ≡ (value 7 0x199 + value 7 0xF9999999) % 10 ^ 7)
    × (add_bcd 0x199 0xF9999999 / 16 ^ 7
        ≡ (0x199 / 16 ^ 7 + 0xF9999999 / 16 ^ 7 + (value 7 0x199 + value 7 0xF9999999) / 10 ^ 7)
          % 16)
add_bcd-value_example =
    add_bcd-value 0x199 0xF9999999 (omega arith) (omega arith) decimal_199 decimal_999
