-- ===== src/Vps/Cni.antt =====
-- `vbi_encode_vps_cni` and `vbi_decode_vps_cni`.
use zvbi.Prelude.Bits.Fields.{bit_or-high, bit_or-low}
use zvbi.Prelude.{
  ℕ, ◌+◌, ◌*◌, ◌/◌, ◌%◌, ◌≤◌, ◌≡◌, refl, ap, ◌∙◌, true, false, List, [], ◌∷◌, bit_and, bit_or, ltb,
  u8, ◌<<<◌, ◌>>>◌, length, arith,
}
use zvbi.Vps.Bytes.{by_elements, mask_3f, mask_c0, mask_03, mask_fc}
use zvbi.Vps.{shared_code, decode_vps_cni, encode_vps_cni}

-- The bytes that `vbi_encode_vps_cni` writes.
cni_byte_8 :
    (x cni : ℕ)
    → cni ≤ 0xfff
    → u8 (bit_or (bit_and x 0x3f) (bit_and cni 0xc0)) ≡ cni / 64 % 4 * 64 + x % 64
cni_byte_8 x cni h = ground (arith, mask_3f x, mask_c0 cni, bit_or-low 6 (cni / 64 % 4) (x % 64))

cni_byte_10 :
    (x cni : ℕ)
    → cni ≤ 0xfff
    → u8 (bit_or (bit_and x 0xfc) (cni >>> 10)) ≡ x / 4 % 64 * 4 + cni / 1024
cni_byte_10 x cni h = ground (arith, mask_fc x, bit_or-high 2 (x / 4 % 64) (cni / 1024))

cni_byte_11 :
    (cni : ℕ)
    → u8 (bit_or (bit_and cni 0x3f) (bit_and (cni >>> 2) 0xc0)) ≡ cni / 256 % 4 * 64 + cni % 64
cni_byte_11 cni =
    ground (arith, mask_3f cni, mask_c0 (cni >>> 2), bit_or-low 6 (cni / 256 % 4) (cni % 64))

-- The code that a packet carries, before that of two networks is told apart.
unfoldable pub cni_value : ℕ → ℕ → ℕ → ℕ
cni_value b8 b10 b11 = b10 % 4 * 1024 + b11 / 64 % 4 * 256 + b8 / 64 % 4 * 64 + b11 % 64

pub raw_cni :
    (b8 b10 b11 : ℕ)
    → (bit_and b10 0x03 <<< 10) + (bit_and b11 0xc0 <<< 2) + bit_and b8 0xc0 + bit_and b11 0x3f
      ≡ cni_value b8 b10 b11
unfolding cni_value
raw_cni b8 b10 b11 = ground (arith, mask_03 b10, mask_c0 b11, mask_c0 b8, mask_3f b11)

module _ (b0 b1 b2 b3 b4 b5 b6 b7 b8 b9 b10 b11 b12 : ℕ) where
  abbrev pub packet : List ℕ
  packet = b0 ∷ b1 ∷ b2 ∷ b3 ∷ b4 ∷ b5 ∷ b6 ∷ b7 ∷ b8 ∷ b9 ∷ b10 ∷ b11 ∷ b12 ∷ []

-- The bytes of a packet that a CNI is stored in.
module _ (b0 b1 b2 b3 b4 b5 b6 b7 b8 b9 b10 b11 b12 cni : ℕ) (h : cni ≤ 0xfff) where
  abbrev before : List ℕ
  before = packet b0 b1 b2 b3 b4 b5 b6 b7 b8 b9 b10 b11 b12

  abbrev pub with_cni : List ℕ
  with_cni =
      b0
      ∷ b1
      ∷ b2
      ∷ b3
      ∷ b4
      ∷ b5
      ∷ b6
      ∷ b7
      ∷ (cni / 64 % 4 * 64 + b8 % 64)
      ∷ b9
      ∷ (b10 / 4 % 64 * 4 + cni / 1024)
      ∷ (cni / 256 % 4 * 64 + cni % 64)
      ∷ b12
      ∷ []

  cni_value_fields :
      cni_value
        (cni / 64 % 4 * 64 + b8 % 64)
        (b10 / 4 % 64 * 4 + cni / 1024)
        (cni / 256 % 4 * 64 + cni % 64)
      ≡ cni
  unfolding cni_value
  cni_value_fields = omega arith

  pub encode_vps_cni-packet : encode_vps_cni before cni ≡ (with_cni, true)
  unfolding encode_vps_cni
  encode_vps_cni-packet =
      let fits : ltb 0xfff cni ≡ false = ground arith in
      rw (fits, cni_byte_8 b8 cni h, cni_byte_10 b10 cni h, cni_byte_11 cni)

  pub decode_vps_cni-packet : decode_vps_cni with_cni ≡ shared_code before cni
  unfolding decode_vps_cni shared_code
  decode_vps_cni-packet = ap (shared_code before) (
      raw_cni (cni / 64 % 4 * 64 + b8 % 64) (b10 / 4 % 64 * 4 + cni / 1024)
        (cni / 256 % 4 * 64 + cni % 64)
      ∙ cni_value_fields)

-- A CNI of 12 bits is stored by vbi_encode_vps_cni in a packet of 13 bytes and read back by
-- vbi_decode_vps_cni, but for the code 0xDC3, which is read as one of two networks by a bit
-- of the packet.
pub decode_vps_cni-encode :
    (buffer : List ℕ) (cni : ℕ)
    → length buffer ≡ 13
    → cni ≤ 0xfff
    → ((encode_vps_cni buffer cni).1 ≡ true)
      × (decode_vps_cni (encode_vps_cni buffer cni).0 ≡ shared_code buffer cni)
decode_vps_cni-encode buffer cni n h =
    by_elements 13
      (λ b.
        ((encode_vps_cni b cni).1 ≡ true)
        × (decode_vps_cni (encode_vps_cni b cni).0 ≡ shared_code b cni))
      (λ b0 b1 b2 b3 b4 b5 b6 b7 b8 b9 b10 b11 b12.
        let e = encode_vps_cni-packet b0 b1 b2 b3 b4 b5 b6 b7 b8 b9 b10 b11 b12 cni h in
        rw e (refl, decode_vps_cni-packet b0 b1 b2 b3 b4 b5 b6 b7 b8 b9 b10 b11 b12 cni h))
      buffer n
