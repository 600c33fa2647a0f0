-- ===== src/Packet830/Fields.antt =====
-- The fields of packet 8/30 format 2 in the order of transmission.
use zvbi.Hamm.Code8.{unham16p-unham8}
use zvbi.Hamm.{reversed, rev8, unham8, unham16p}
use zvbi.Packet830.{cni_8302_of, decode_teletext_8302_cni, decode_teletext_8302_pdc, lci}
use zvbi.Prelude.Bits.Fields.{bit_and_low, bit_and_mask, bit_or-lt}
use zvbi.Prelude.{
  ℕ, ◌+◌, ◌*◌, ◌/◌, ◌%◌, ◌^◌, ◌<◌, ◌≤◌, ◌≡◌, refl, ap, ◌∙◌, false, List, bit_and, ◌==◌, u8,
  has_bits, get_or, is_negative, some, AreBytes, get_or-lt, all_below, eq_below, eq_below₂, arith,
}
use zvbi.Vps.{ProgramId, cni_8302, cleared}

-- The four bits of a byte in the order of transmission, the first one highest.
unfoldable pub nibble : List ℕ → ℕ → ℕ
nibble buffer i = reversed (unham8 (get_or buffer i 0)) / 16

-- The bytes of the packet that the decoders read are all correctable.
abbrev pub AllCorrectable : List ℕ → Type 0
AllCorrectable buffer = (i : ℕ) → 9 ≤ i → i ≤ 21 → unham8 (get_or buffer i 0) < 16

abbrev pub cni_field : List ℕ → ℕ
cni_field buffer =
    nibble buffer 11 * 2 ^ 12
    + nibble buffer 17 % 4 * 2 ^ 10
    + nibble buffer 18 / 4 * 2 ^ 8
    + nibble buffer 12 / 4 * 2 ^ 6
    + nibble buffer 18 % 4 * 2 ^ 4
    + nibble buffer 19

abbrev pub pil_field : List ℕ → ℕ
pil_field buffer =
    nibble buffer 12 % 4 * 2 ^ 18
    + nibble buffer 13 * 2 ^ 14
    + nibble buffer 14 * 2 ^ 10
    + nibble buffer 15 * 2 ^ 6
    + nibble buffer 16 * 2 ^ 2
    + nibble buffer 17 / 4

abbrev pub pid_fields : List ℕ → ProgramId
pid_fields buffer = record cleared {
  channel = lci (nibble buffer 9 / 4);
  cni_type = cni_8302;
  cni = cni_field buffer;
  pil = pil_field buffer;
  luf = nibble buffer 9 / 2 % 2 == 1;
  mi = nibble buffer 10 / 2 % 2 == 1;
  prf = nibble buffer 9 % 2 == 1;
  pcs_audio = nibble buffer 10 / 4;
  pty = nibble buffer 20 * 16 + nibble buffer 21;
}

reversed_pair :
    (x y : ℕ) → x < 16 → y < 16 → reversed (x + 16 * y) ≡ reversed x / 16 * 16 + reversed y / 16
unfolding all_below reversed
reversed_pair =
    eq_below₂ 16 16 (λ x y. reversed (x + 16 * y)) (λ x y. reversed x / 16 * 16 + reversed y / 16)
      refl

reversed_first : (x : ℕ) → x < 16 → rev8 x / 16 % 256 ≡ reversed x / 16
unfolding all_below reversed rev8
reversed_first = eq_below 16 (λ x. rev8 x / 16 % 256) (λ x. reversed x / 16) refl

nibble_small : (x : ℕ) → x < 16 → reversed x / 16 % 16 ≡ reversed x / 16
unfolding all_below reversed
nibble_small = eq_below 16 (λ x. reversed x / 16 % 16) (λ x. reversed x / 16) refl

pair_read :
    (p q : ℕ)
    → p < 256
    → q < 256
    → unham8 p < 16
    → unham8 q < 16
    → (unham16p p q < 256)
      × (rev8 (unham16p p q) ≡ reversed (unham8 p) / 16 * 16 + reversed (unham8 q) / 16)
unfolding rev8
pair_read p q hp hq h k =
    let both = unham16p-unham8 p q hp hq in
    let fine : is_negative (unham16p p q) ≡ false = ground (arith, both.0) in
    let value = both.1 fine in
    (
      omega (arith, value),
      ap (λ (x : ℕ). reversed (u8 x)) value
          ∙ ap reversed (omega arith)
          ∙ reversed_pair (unham8 p) (unham8 q) h k,
    )

cni_lem :
    (h7 l7 h8 l8 h10 l10 h11 l11 : ℕ)
    → l7 < 16
    → l8 < 16
    → l10 < 16
    → l11 < 16
    → h8 < 16
    → h11 < 16
    → cni_8302_of (h7 * 16 + l7) (h8 * 16 + l8) (h10 * 16 + l10) (h11 * 16 + l11)
      ≡ l7 * 2 ^ 12 + l10 % 4 * 2 ^ 10 + h11 / 4 * 2 ^ 8 + h8 / 4 * 2 ^ 6 + h11 % 4 * 2 ^ 4 + l11
unfolding cni_8302_of
cni_lem h7 l7 h8 l8 h10 l10 h11 l11 b7 b8 b10 b11 c8 c11 = omega (
  arith,
  bit_and_low 4 (h7 * 16 + l7),
  bit_and_low 2 (h10 * 16 + l10),
  bit_and_mask 2 6 (h11 * 16 + l11),
  bit_and_mask 2 6 (h8 * 16 + l8),
  bit_and_low 6 (h11 * 16 + l11),
)

pil_lem :
    (h8 l8 b9 h10 l10 : ℕ)
    → l8 < 16
    → l10 < 16
    → bit_and (h8 * 16 + l8) 0x3F * 2 ^ 14 + b9 * 2 ^ 6 + (h10 * 16 + l10) / 2 ^ 2
      ≡ h8 % 4 * 2 ^ 18 + l8 * 2 ^ 14 + b9 * 2 ^ 6 + h10 * 2 ^ 2 + l10 / 4
pil_lem h8 l8 b9 h10 l10 b8 b10 = omega (arith, bit_and_low 6 (h8 * 16 + l8))

flag_lem : (x : ℕ) → has_bits x 1 ≡ (x % 2 == 1)
flag_lem x = ground (arith, bit_and_low 1 x)

not_negative : (x : ℕ) → x < 2 ^ 8 → is_negative x ≡ false
not_negative x h = ground arith

word_lem : (h l : ℕ) → h < 16 → l < 16 → u8 (h * 16 + l) ≡ h * 16 + l
word_lem h l a b = omega arith

high_bits : (h l : ℕ) → l < 16 → h < 16 → bit_and ((h * 16 + l) / 2 ^ 6) 3 ≡ h / 4
high_bits h l a b = omega (arith, bit_and_low 2 ((h * 16 + l) / 2 ^ 6))

middle_bit : (h l : ℕ) → l < 16 → has_bits ((h * 16 + l) / 2 ^ 5) 1 ≡ (h / 2 % 2 == 1)
middle_bit h l a = flag_lem ((h * 16 + l) / 2 ^ 5) ∙ ap (λ (x : ℕ). x == 1) (omega arith)

module _ (buffer : List ℕ) (bytes : AreBytes buffer) (fine : AllCorrectable buffer) where
  small : (i : ℕ) → 9 ≤ i → i ≤ 21 → nibble buffer i < 16
  unfolding nibble
  small i h k = omega (arith, nibble_small (unham8 (get_or buffer i 0)) (fine i h k))

  -- The pair at bytes `i` and `j`.
  read_at :
      (i j : ℕ)
      → 9 ≤ i
      → i ≤ 21
      → 9 ≤ j
      → j ≤ 21
      → (unham16p (get_or buffer i 0) (get_or buffer j 0) < 256)
        × (rev8 (unham16p (get_or buffer i 0) (get_or buffer j 0))
            ≡ nibble buffer i * 16 + nibble buffer j)
  unfolding nibble
  read_at i j a b c d =
      pair_read (get_or buffer i 0) (get_or buffer j 0) (get_or-lt buffer i bytes)
        (get_or-lt buffer j bytes) (fine i a b) (fine j c d)

  word :
      (i j : ℕ)
      → 9 ≤ i
      → i ≤ 21
      → 9 ≤ j
      → j ≤ 21
      → u8 (nibble buffer i * 16 + nibble buffer j) ≡ nibble buffer i * 16 + nibble buffer j
  word i j a b c d = word_lem (nibble buffer i) (nibble buffer j) (small i a b) (small j c d)

  first_nibble : u8 (rev8 (unham8 (get_or buffer 9 0)) / 2 ^ 4) ≡ nibble buffer 9
  unfolding nibble
  first_nibble = reversed_first (unham8 (get_or buffer 9 0)) (fine 9 (omega arith) (omega arith))

  cni_words :
      cni_8302_of
        (nibble buffer 10 * 16 + nibble buffer 11)
        (nibble buffer 12 * 16 + nibble buffer 13)
        (nibble buffer 16 * 16 + nibble buffer 17)
        (nibble buffer 18 * 16 + nibble buffer 19)
      ≡ cni_field buffer
  cni_words =
      cni_lem (nibble buffer 10) (nibble buffer 11) (nibble buffer 12) (nibble buffer 13)
        (nibble buffer 16) (nibble buffer 17) (nibble buffer 18) (nibble buffer 19)
        (small 11 (omega arith) (omega arith)) (small 13 (omega arith) (omega arith))
        (small 17 (omega arith) (omega arith)) (small 19 (omega arith) (omega arith))
        (small 12 (omega arith) (omega arith)) (small 18 (omega arith) (omega arith))

  pil_words :
      bit_and (nibble buffer 12 * 16 + nibble buffer 13) 0x3F * 2 ^ 14
        + (nibble buffer 14 * 16 + nibble buffer 15) * 2 ^ 6
        + (nibble buffer 16 * 16 + nibble buffer 17) / 2 ^ 2
      ≡ pil_field buffer
  pil_words =
      pil_lem (nibble buffer 12) (nibble buffer 13) (nibble buffer 14 * 16 + nibble buffer 15)
        (nibble buffer 16) (nibble buffer 17) (small 13 (omega arith) (omega arith))
        (small 17 (omega arith) (omega arith))
      ∙ omega arith

  cni_of_packet : decode_teletext_8302_cni buffer ≡ some (cni_field buffer)
  unfolding decode_teletext_8302_cni
  cni_of_packet =
      let r7 = read_at 10 11 (omega arith) (omega arith) (omega arith) (omega arith) in
      let r8 = read_at 12 13 (omega arith) (omega arith) (omega arith) (omega arith) in
      let r10 = read_at 16 17 (omega arith) (omega arith) (omega arith) (omega arith) in
      let r11 = read_at 18 19 (omega arith) (omega arith) (omega arith) (omega arith) in
      let sum = bit_or-lt 8 _ _ (bit_or-lt 8 _ _ (bit_or-lt 8 _ _ r7.0 r8.0) r10.0) r11.0 in
      rw (not_negative _ sum, r7.1, r8.1, r10.1, r11.1) (ap some cni_words)

  pdc_of_packet : decode_teletext_8302_pdc buffer ≡ some (pid_fields buffer)
  unfolding decode_teletext_8302_pdc
  pdc_of_packet =
      let r7 = read_at 10 11 (omega arith) (omega arith) (omega arith) (omega arith) in
      let r8 = read_at 12 13 (omega arith) (omega arith) (omega arith) (omega arith) in
      let r9 = read_at 14 15 (omega arith) (omega arith) (omega arith) (omega arith) in
      let r10 = read_at 16 17 (omega arith) (omega arith) (omega arith) (omega arith) in
      let r11 = read_at 18 19 (omega arith) (omega arith) (omega arith) (omega arith) in
      let r12 = read_at 20 21 (omega arith) (omega arith) (omega arith) (omega arith) in
      let first : unham8 (get_or buffer 9 0) < 2 ^ 8 =
        omega (arith, fine 9 (omega arith) (omega arith)) in
      let sum =
        bit_or-lt 8 _ _
          (bit_or-lt 8 _ _
            (bit_or-lt 8 _ _
              (bit_or-lt 8 _ _ (bit_or-lt 8 _ _ (bit_or-lt 8 _ _ first r7.0) r8.0) r9.0) r10.0)
            r11.0)
          r12.0 in
      let channel : nibble buffer 9 / 2 ^ 2 % 2 ^ 2 ≡ nibble buffer 9 / 4 =
        omega (arith, small 9 (omega arith) (omega arith)) in
      rw
        (
          not_negative _ sum,
          r7.1,
          r8.1,
          r9.1,
          r10.1,
          r11.1,
          r12.1,
          word 10 11 (omega arith) (omega arith) (omega arith) (omega arith),
          word 12 13 (omega arith) (omega arith) (omega arith) (omega arith),
          word 14 15 (omega arith) (omega arith) (omega arith) (omega arith),
          word 16 17 (omega arith) (omega arith) (omega arith) (omega arith),
          word 18 19 (omega arith) (omega arith) (omega arith) (omega arith),
          word 20 21 (omega arith) (omega arith) (omega arith) (omega arith),
          first_nibble,
          bit_and_low 2 (nibble buffer 9 / 2 ^ 2),
          middle_bit (nibble buffer 10) (nibble buffer 11) (small 11 (omega arith) (omega arith)),
          high_bits (nibble buffer 10) (nibble buffer 11) (small 11 (omega arith) (omega arith))
              (small 10 (omega arith) (omega arith)),
          flag_lem (nibble buffer 9),
          flag_lem (nibble buffer 9 / 2 ^ 1),
        )
        (rw (channel, cni_words, pil_words) refl)

-- Where the bytes 9 to 21 of a packet of bytes are correctable, vbi_decode_teletext_8302_cni
-- and vbi_decode_teletext_8302_pdc succeed, with the same CNI: the fields are those that four
-- bits of each byte make, in the order of transmission.
pub decode_teletext_8302_lem :
    (buffer : List ℕ)
    → AreBytes buffer
    → AllCorrectable buffer
    → (decode_teletext_8302_cni buffer ≡ some (cni_field buffer))
      × (decode_teletext_8302_pdc buffer ≡ some (pid_fields buffer))
decode_teletext_8302_lem buffer bytes fine =
    (cni_of_packet buffer bytes fine, pdc_of_packet buffer bytes fine)
