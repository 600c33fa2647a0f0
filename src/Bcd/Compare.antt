-- ===== src/Bcd/Compare.antt =====
-- The tests of src/bcd.h on every digit at once.
use zvbi.Bcd.{is_bcd, bcd_digits_greater, AreDecimal, AreAtMost}
use zvbi.Bcd.Carry.{carries, bit_and-carries}
use zvbi.Prelude.Bits.Xor.{bit_xor_assoc}
use zvbi.Prelude.Bits.Single.{bit_xor-ones}
use zvbi.Prelude.{ℕ, ◌+◌, ◌^◌, ◌<◌, ◌≡◌, ◌↔◌, true, false, u32, bit_and, bit_xor, complement, arith}

-- vbi_is_bcd accepts a word exactly if its seven last digits are decimal.
pub is_bcd-AreDecimal : (bcd : ℕ) → (is_bcd bcd ≡ true) ↔ AreDecimal 7 bcd
unfolding is_bcd AreDecimal
is_bcd-AreDecimal bcd =
    let e = bit_and-carries bcd 0x06666666 in
    (
      (λ h.
          let z : bit_and (carries bcd 0x06666666) 0x11111110 ≡ 0 = ground arith in
          (
            omega arith,
            (
              omega arith,
              (omega arith, (omega arith, (omega arith, (omega arith, (omega arith, tt))))),
            ),
          )),
      (λ h. let z : bit_and (carries bcd 0x06666666) 0x11111110 ≡ 0 = omega arith in rw z),
    )

-- vbi_bcd_digits_greater, for a maximum below 2 ^ 32, finds a greater digit exactly if there
-- is one among the seven last.
pub bcd_digits_greater-AreAtMost :
    (bcd maximum : ℕ)
    → maximum < 2 ^ 32
    → (bcd_digits_greater bcd maximum ≡ false) ↔ AreAtMost 7 bcd maximum
unfolding bcd_digits_greater AreAtMost
bcd_digits_greater-AreAtMost bcd m h =
    let n = complement m in
    let e = bit_and-carries bcd n in
    let word : bit_xor (bit_xor (u32 (bcd + n)) bcd) n ≡ carries bcd n =
      bit_xor_assoc (u32 (bcd + n)) bcd n in
    rw (bit_xor-ones 32 m h, word)
      (
        (λ h'.
            let z : bit_and (carries bcd n) 0x11111110 ≡ 0 = ground arith in
            (
              omega arith,
              (
                omega arith,
                (omega arith, (omega arith, (omega arith, (omega arith, (omega arith, tt))))),
              ),
            )),
        (λ h'. let z : bit_and (carries bcd n) 0x11111110 ≡ 0 = omega arith in rw z),
      )
