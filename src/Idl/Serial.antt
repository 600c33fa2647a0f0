-- ===== src/Idl/Serial.antt =====
-- The table driven sum of src/idl_demux.c against the shift register of EN 300 708 section 6.5.7.2.
use native.Mathlib.Nat.{pow-suc}
use zvbi.Prelude.Bits.Fields.{mul-pow-suc}
use zvbi.Idl.Crc.{crc16_entry, init_crc16_table, crc_loop}
use zvbi.Prelude.Bits.Fields.{bit_and_low, bit_xor-div-mod, bit_xor_fields, bit_xor-lt}
use zvbi.Prelude.Bits.Xor.{bit_xor-zero, zero-bit_xor, bit_xor_comm, bit_xor_assoc}
use zvbi.Prelude.{
  ℕ, zero, suc, ◌+◌, ◌*◌, ◌/◌, ◌%◌, ◌^◌, ◌≤◌, ◌<◌, ◌≡◌, refl, sym, ap, ap₂, ◌∙◌, inl, inr,
  Bool-cases, List, [], ◌∷◌, bit_and, bit_xor, ◌==◌, if◌then◌else◌, eq_below, all_below, AreBytes,
  get_or-lt, length, take, drop, get_or, get_or-for_below, length-for_below, u16, ◌>>>◌, returns,
  read-get_or, drop_next, arith,
}

-- One bit goes into the register of the polynomial x^16 + x^9 + x^7 + x^4 + 1.
abbrev pub shift_bit : ℕ → ℕ → ℕ
shift_bit crc b = if crc % 2 == b then crc / 2 else bit_xor (crc / 2) 0x8940

-- The `n` lowest bits of a byte, least significant first.
abbrev pub shift_bits : ℕ → ℕ → ℕ → ℕ
shift_bits zero crc b = crc
shift_bits (suc n) crc b = shift_bits n (shift_bit crc (b % 2)) (b / 2)

abbrev pub shift_bytes : ℕ → List ℕ → ℕ
shift_bytes crc [] = crc
shift_bytes crc (b ∷ bs) = shift_bytes (shift_bits 8 crc b) bs

bit_parity : (x y : ℕ) → x < 2 → y < 2 → (bit_xor x y == 0) ≡ (x == y)
bit_parity zero zero h k = refl
bit_parity zero (suc zero) h k = refl
bit_parity (suc zero) zero h k = refl
bit_parity (suc zero) (suc zero) h k = refl
bit_parity (suc (suc x)) y h k = absurd (omega arith)
bit_parity zero (suc (suc y)) h k = absurd (omega arith)
bit_parity (suc zero) (suc (suc y)) h k = absurd (omega arith)

swap_last : (a b c : ℕ) → bit_xor (bit_xor a b) c ≡ bit_xor (bit_xor a c) b
swap_last a b c =
    bit_xor_assoc a b c ∙ ap (bit_xor a) (bit_xor_comm b c) ∙ sym (bit_xor_assoc a c b)

-- A bit may be added to the register before the shift, and the bits above it left aside.
shift_bit-bit_xor : (c b : ℕ) → shift_bit (bit_xor c b) 0 ≡ bit_xor (shift_bit c (b % 2)) (b / 2)
shift_bit-bit_xor c b =
    let parts = bit_xor-div-mod 1 c b in
    let test : (bit_xor c b % 2 == 0) ≡ (c % 2 == b % 2) =
      ap (λ (t : ℕ). t == 0) parts.1 ∙ bit_parity (c % 2) (b % 2) (omega arith) (omega arith) in
    elim (Bool-cases (c % 2 == b % 2)) [
      | inl same ↦ rw (test, same) parts.0
      | inr differ ↦
          rw (test, differ)
            (ap (λ (t : ℕ). bit_xor t 0x8940) parts.0 ∙ swap_last (c / 2) (b / 2) 0x8940)
    ]

shift_bits-bit_xor : (n c b : ℕ) → b < 2 ^ n → shift_bits n c b ≡ shift_bits n (bit_xor c b) 0
shift_bits-bit_xor zero c b h =
    let none : b ≡ 0 = omega arith in sym (ap (bit_xor c) none ∙ bit_xor-zero c)
shift_bits-bit_xor (suc n) c b h =
    shift_bits-bit_xor n (shift_bit c (b % 2)) (b / 2) (omega (arith, pow-suc 2 n))
    ∙ ap (λ (t : ℕ). shift_bits n t 0) (sym (shift_bit-bit_xor c b))

-- The part above the bits that are shifted out stays as it is.
shift_bits-high :
    (n h m : ℕ) → shift_bits n (bit_xor (h * 2 ^ n) m) 0 ≡ bit_xor h (shift_bits n m 0)
shift_bits-high zero h m = let one : h * 2 ^ 0 ≡ h = omega arith in rw one
shift_bits-high (suc n) h m =
    let top = h * 2 ^ suc n in
    let even : top % 2 ≡ 0 = omega (arith, mul-pow-suc h n) in
    let half : top / 2 ≡ h * 2 ^ n = omega (arith, mul-pow-suc h n) in
    ap (λ (t : ℕ). shift_bits n t 0)
      (ap (λ (t : ℕ). shift_bit t 0) (bit_xor_comm top m)
        ∙ shift_bit-bit_xor m top
        ∙ ap₂ (λ (e d : ℕ). bit_xor (shift_bit m e) d) even half
        ∙ bit_xor_comm (shift_bit m 0) (h * 2 ^ n))
    ∙ shift_bits-high n h (shift_bit m 0)

split_byte : (c : ℕ) → c ≡ bit_xor (c / 256 * 2 ^ 8) (c % 256)
split_byte c =
    let high : c / 256 * 2 ^ 8 ≡ c / 256 * 2 ^ 8 + 0 = omega arith in
    let low : c % 256 ≡ 0 * 2 ^ 8 + c % 256 = omega arith in
    let fields = bit_xor_fields 8 (c / 256) 0 0 (c % 256) (omega arith) (omega arith) in
    sym (
      ap₂ bit_xor high low ∙ fields ∙ omega (arith, bit_xor-zero (c / 256), zero-bit_xor (c % 256)))

-- A byte at a time.
shift_byte :
    (c b : ℕ)
    → b < 256
    → shift_bits 8 c b ≡ bit_xor (c / 256) (shift_bits 8 (bit_xor (c % 256) b) 0)
shift_byte c b h =
    shift_bits-bit_xor 8 c b h
    ∙ ap (λ (t : ℕ). shift_bits 8 t 0)
        (ap (λ (t : ℕ). bit_xor t b) (split_byte c) ∙ bit_xor_assoc (c / 256 * 2 ^ 8) (c % 256) b)
    ∙ shift_bits-high 8 (c / 256) (bit_xor (c % 256) b)

entry-shift_bits : (x : ℕ) → x < 256 → u16 (crc16_entry 8 0x8940 0 x) ≡ shift_bits 8 x 0
unfolding crc16_entry all_below
entry-shift_bits = eq_below 256 (λ x. u16 (crc16_entry 8 0x8940 0 x)) (λ x. shift_bits 8 x 0) refl

module _ (memory : List ℕ) (size : length memory ≡ 256) where
  abbrev table : List ℕ
  table = init_crc16_table memory 0x8940

  pub length-table : length table ≡ 256
  unfolding init_crc16_table
  length-table = length-for_below (λ i. u16 (crc16_entry 8 0x8940 0 i)) 256 memory ∙ size

  get_or-table : (x : ℕ) → x < 256 → get_or table x 0 ≡ shift_bits 8 x 0
  unfolding init_crc16_table
  get_or-table x h =
      get_or-for_below (λ i. u16 (crc16_entry 8 0x8940 0 i)) 256 memory x (omega (arith, size)) h
      ∙ entry-shift_bits x h

  -- The sum that idl_a_demux_feed computes with the table of init_crc16_table, over n bytes
  -- of a packet from a column on, is what a shift register of the polynomial x^16 + x^9 + x^7
  -- + x^4 + 1 holds after the bits of those bytes, least significant first.
  pub crc_loop-shift_bytes :
      (n : ℕ) (buffer : List ℕ) (j crc : ℕ)
      → AreBytes buffer
      → j + n ≤ length buffer
      → crc_loop table n buffer j crc ≡ returns (shift_bytes crc (take n (drop j buffer)))
  unfolding crc_loop
  crc_loop-shift_bytes zero buffer j crc bytes h = refl
  crc_loop-shift_bytes (suc n) buffer j crc bytes h =
      let b = get_or buffer j 0 in
      let byte = get_or-lt buffer j bytes in
      let x = bit_xor (bit_and crc 0xff) b in
      let low : x < 256 =
        bit_xor-lt 8 (bit_and crc 0xff) b (omega (arith, bit_and_low 8 crc)) byte in
      let value : bit_xor (crc >>> 8) (get_or table x 0) ≡ shift_bits 8 crc b =
        ap (bit_xor (crc >>> 8))
          (get_or-table x low ∙ ap (λ (t : ℕ). shift_bits 8 (bit_xor t b) 0) (bit_and_low 8 crc))
        ∙ sym (shift_byte crc b byte) in
      rw
        (
          read-get_or buffer j (omega arith),
          read-get_or table x (omega (arith, length-table)),
          value,
        )
        (crc_loop-shift_bytes n buffer (j + 1) (shift_bits 8 crc b) bytes (omega arith)
          ∙ ap (λ (t : List ℕ). returns (shift_bytes crc (take (suc n) t)))
              (sym (drop_next buffer j (omega arith))))
