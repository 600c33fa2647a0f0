-- ===== src/Pfc/Headers.antt =====
-- The structure header of a block, and the magazine in a page number.
use zvbi.Hamm.Code8.{unham16p-range}
use zvbi.Hamm.{unham16p}
use zvbi.Pfc.Decode.{structure_header}
use zvbi.Prelude.Bits.Fields.{bit_and_mask, bit_xor-div-mod}
use zvbi.Prelude.Bits.Xor.{bit_xor-eq-zero, bit_xor_self}
use zvbi.Prelude.{
  ℕ, ◌+◌, ◌*◌, ◌/◌, ◌%◌, ◌≡◌, ◌↔◌, ap, false, ◌&&◌, ◌||◌, bit_xor, ◌==◌, is_negative, has_bits,
  arith,
}

-- The sign that _vbi_pfc_demux_decode tests for an uncorrectable structure header is set
-- exactly if the second pair of bytes is bad, or the first pair is bad and the second pair is
-- zero.
pub structure_header-is_negative :
    (b0 b1 b2 b3 : ℕ)
    → is_negative (structure_header b0 b1 b2 b3)
      ≡ is_negative (unham16p b2 b3) || is_negative (unham16p b0 b1) && unham16p b2 b3 == 0
unfolding structure_header
structure_header-is_negative b0 b1 b2 b3 =
    ground (arith, unham16p-range b0 b1, unham16p-range b2 b3)

-- From two pairs of bytes without uncorrectable errors the structure header is their value,
-- little end first.
pub structure_header-value :
    (b0 b1 b2 b3 : ℕ)
    → is_negative (unham16p b0 b1) ≡ false
    → is_negative (unham16p b2 b3) ≡ false
    → structure_header b0 b1 b2 b3 ≡ unham16p b0 b1 + 256 * unham16p b2 b3
unfolding structure_header
structure_header-value b0 b1 b2 b3 h k = ground (arith, unham16p-range b0 b1, unham16p-range b2 b3)

pub same_magazine :
    (a b : ℕ) → (has_bits (bit_xor a b) 0xf00 ≡ false) ↔ (a / 256 % 16 ≡ b / 256 % 16)
same_magazine a b = (
  λ h. bit_xor-eq-zero (a / 256 % 16) (b / 256 % 16) (
      ground (
        arith,
        bit_and_mask 4 8 (bit_xor a b),
        bit_xor-div-mod 8 a b,
        bit_xor-div-mod 4 (a / 256) (b / 256),
      )),
  λ e. ground (
    arith,
    bit_and_mask 4 8 (bit_xor a b),
    bit_xor-div-mod 8 a b,
    bit_xor-div-mod 4 (a / 256) (b / 256),
    ap (bit_xor (a / 256 % 16)) e,
    bit_xor_self (a / 256 % 16),
  ),
)
