-- ===== src/Vps/Pdc.antt =====
-- `vbi_encode_vps_pdc` and `vbi_decode_vps_pdc`.
use zvbi.Prelude.Bits.Fields.{bit_or-high, bit_or-low}
use zvbi.Prelude.{
  ℕ, ◌+◌, ◌*◌, ◌/◌, ◌%◌, ◌≤◌, ◌≡◌, ◌⊎◌, inl, inr, refl, ap, ◌∙◌, true, false, Bool-cases, ◌||◌,
  List, [], ◌∷◌, bit_and, bit_or, ltb, u8, ◌<<<◌, ◌>>>◌, has_bits, length, get_or, arith,
}
use zvbi.Vps.Bytes.{by_elements, mask_3f, mask_c0, mask_03, mask_10}
use zvbi.Vps.Cni.{packet, cni_value, raw_cni, encode_vps_cni-packet}
use zvbi.Vps.{
  ProgramId, cni_vps, channel_vps, cleared, shared_code, decode_vps_cni, decode_vps_pdc,
  encode_vps_cni, store_pdc, encode_vps_pdc,
}

-- The bytes that `vbi_encode_vps_pdc` writes after that.
pdc_byte_2 : (x a : ℕ) → a ≤ 3 → u8 (bit_or (bit_and x 0x3f) (a <<< 6)) ≡ a * 64 + x % 64
pdc_byte_2 x a h = ground (arith, mask_3f x, bit_or-low 6 a (x % 64))

pdc_byte_8 :
    (x pil : ℕ)
    → u8 (bit_or (bit_and x 0xc0) (bit_and (pil >>> 14) 0x3f)) ≡ x / 64 % 4 * 64 + pil / 16384 % 64
pdc_byte_8 x pil =
    ground (arith, mask_c0 x, mask_3f (pil >>> 14), bit_or-high 6 (x / 64 % 4) (pil / 16384 % 64))

pdc_byte_10 : (x pil : ℕ) → u8 (bit_or (bit_and x 0x03) (pil <<< 2)) ≡ pil % 64 * 4 + x % 4
pdc_byte_10 x pil = ground (arith, mask_03 x, bit_or-low 2 pil (x % 4))

-- The fields of a program ID that a packet has room for.
pub record IsEncodable (pid : ProgramId) : Type 0 where
  pub pty_fits : pid.pty ≤ 0xff
  pub pcs_audio_fits : pid.pcs_audio ≤ 3
  pub pil_fits : pid.pil ≤ 0xfffff
  pub cni_fits : pid.cni ≤ 0xfff

-- vbi_encode_vps_pdc accepts a program ID exactly if its programme type, audio mode, PIL and
-- CNI fit their fields, and otherwise leaves the packet as it was.
pub encode_vps_pdc-refuses :
    (buffer : List ℕ) (pid : ProgramId)
    → (IsEncodable pid × ((encode_vps_pdc buffer pid).1 ≡ true))
      ⊎ ((¬ IsEncodable pid) × (encode_vps_pdc buffer pid ≡ (buffer, false)))
unfolding encode_vps_pdc encode_vps_cni
encode_vps_pdc-refuses buffer pid =
    elim (Bool-cases (ltb 0xff pid.pty || (ltb 3 pid.pcs_audio || ltb 0xfffff pid.pil))) [
      | inl bad ↦
          inr (λ w. absurd (ground (arith, w.pty_fits, w.pcs_audio_fits, w.pil_fits)), rw bad refl)
      | inr good ↦ elim (Bool-cases (ltb 0xfff pid.cni)) [
        | inl beyond ↦ inr (λ w. absurd (ground (arith, w.cni_fits)), rw (good, beyond) refl)
        | inr fits ↦ inl (
          record {
            pty_fits = ground arith;
            pcs_audio_fits = ground arith;
            pil_fits = ground arith;
            cni_fits = ground arith;
          },
          rw (good, fits) refl,
        )
      ]
    ]

module _ (b0 b1 b2 b3 b4 b5 b6 b7 b8 b9 b10 b11 b12 : ℕ) (pid : ProgramId)
    (w : IsEncodable pid) where
  abbrev with_pdc : ℕ → ℕ → ℕ → List ℕ
  with_pdc c8 c10 c11 =
      b0
      ∷ b1
      ∷ (pid.pcs_audio * 64 + b2 % 64)
      ∷ b3
      ∷ b4
      ∷ b5
      ∷ b6
      ∷ b7
      ∷ (c8 / 64 % 4 * 64 + pid.pil / 16384 % 64)
      ∷ pid.pil / 64 % 256
      ∷ (pid.pil % 64 * 4 + c10 % 4)
      ∷ c11
      ∷ pid.pty
      ∷ []

  store_pdc-packet :
      (c8 c10 c11 : ℕ)
      → store_pdc (packet b0 b1 b2 b3 b4 b5 b6 b7 c8 b9 c10 c11 b12) pid ≡ with_pdc c8 c10 c11
  unfolding store_pdc
  store_pdc-packet c8 c10 c11 =
      let pty : u8 pid.pty ≡ pid.pty = omega (arith, w.pty_fits) in
      rw (
        pdc_byte_2 b2 pid.pcs_audio w.pcs_audio_fits,
        pdc_byte_8 c8 pid.pil,
        pdc_byte_10 c10 pid.pil,
        pty,
      )

  -- What a packet with these fields is decoded to.
  abbrev decoded : List ℕ → ProgramId
  decoded buffer = record cleared {
    channel = channel_vps;
    cni_type = cni_vps;
    cni = shared_code buffer pid.cni;
    pil = pid.pil;
    mi = true;
    pcs_audio = pid.pcs_audio;
    pty = pid.pty;
  }

  abbrev before : List ℕ
  before = packet b0 b1 b2 b3 b4 b5 b6 b7 b8 b9 b10 b11 b12

  abbrev after : List ℕ
  after =
      with_pdc (pid.cni / 64 % 4 * 64 + b8 % 64) (b10 / 4 % 64 * 4 + pid.cni / 1024)
        (pid.cni / 256 % 4 * 64 + pid.cni % 64)

  encode_vps_pdc-packet : encode_vps_pdc before pid ≡ (after, true)
  unfolding encode_vps_pdc
  encode_vps_pdc-packet =
      let good : (ltb 0xff pid.pty || (ltb 3 pid.pcs_audio || ltb 0xfffff pid.pil)) ≡ false =
        ground (arith, w.pty_fits, w.pcs_audio_fits, w.pil_fits) in
      rw (
        good,
        encode_vps_cni-packet b0 b1 b2 b3 b4 b5 b6 b7 b8 b9 b10 b11 b12 pid.cni w.cni_fits,
        store_pdc-packet (pid.cni / 64 % 4 * 64 + b8 % 64) (b10 / 4 % 64 * 4 + pid.cni / 1024)
            (pid.cni / 256 % 4 * 64 + pid.cni % 64),
      )

  shared_code-after : shared_code after pid.cni ≡ shared_code before pid.cni
  unfolding shared_code
  shared_code-after =
      let bit : has_bits (pid.pcs_audio * 64 + b2 % 64) 0x10 ≡ has_bits b2 0x10 =
        ground (arith, mask_10 (pid.pcs_audio * 64 + b2 % 64), mask_10 b2) in
      rw bit

  decode_vps_cni-after : decode_vps_cni after ≡ shared_code before pid.cni
  unfolding decode_vps_cni cni_value
  decode_vps_cni-after =
      ap (shared_code after) {y = pid.cni} (
        raw_cni (get_or after 8 0) (get_or after 10 0) (get_or after 11 0)
        ∙ omega (arith, w.cni_fits))
      ∙ shared_code-after

  pil-after :
      (bit_and (get_or after 8 0) 0x3f <<< 14)
        + (get_or after 9 0 <<< 6)
        + (get_or after 10 0 >>> 2)
      ≡ pid.pil
  pil-after = omega (arith, mask_3f (get_or after 8 0), w.pil_fits)

  decode_vps_pdc-after : decode_vps_pdc after ≡ decoded before
  unfolding decode_vps_pdc
  decode_vps_pdc-after =
      let pcs : (pid.pcs_audio * 64 + b2 % 64) >>> 6 ≡ pid.pcs_audio = omega arith in
      λ i. record cleared {
        channel = channel_vps;
        cni_type = cni_vps;
        cni = decode_vps_cni-after i;
        pil = pil-after i;
        mi = true;
        pcs_audio = pcs i;
        pty = pid.pty;
      }

-- A program ID whose fields fit is stored by vbi_encode_vps_pdc in a packet of 13 bytes and
-- read back by vbi_decode_vps_pdc: the PIL, the audio mode and the programme type as they
-- are, the CNI but for the code that stands for one of two networks.
pub decode_vps_pdc-encode :
    (buffer : List ℕ) (pid : ProgramId)
    → length buffer ≡ 13
    → IsEncodable pid
    → ((encode_vps_pdc buffer pid).1 ≡ true)
      × (decode_vps_pdc (encode_vps_pdc buffer pid).0 ≡ record cleared {
        channel = channel_vps;
        cni_type = cni_vps;
        cni = shared_code buffer pid.cni;
        pil = pid.pil;
        mi = true;
        pcs_audio = pid.pcs_audio;
        pty = pid.pty;
      })
decode_vps_pdc-encode buffer pid n w =
    by_elements 13
      (λ b.
        ((encode_vps_pdc b pid).1 ≡ true)
        × (decode_vps_pdc (encode_vps_pdc b pid).0 ≡ record cleared {
          channel = channel_vps;
          cni_type = cni_vps;
          cni = shared_code b pid.cni;
          pil = pid.pil;
          mi = true;
          pcs_audio = pid.pcs_audio;
          pty = pid.pty;
        }))
      (λ b0 b1 b2 b3 b4 b5 b6 b7 b8 b9 b10 b11 b12.
        rw (encode_vps_pdc-packet b0 b1 b2 b3 b4 b5 b6 b7 b8 b9 b10 b11 b12 pid w)
          (refl, decode_vps_pdc-after b0 b1 b2 b3 b4 b5 b6 b7 b8 b9 b10 b11 b12 pid w))
      buffer n
