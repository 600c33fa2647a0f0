-- ===== src/Vps/Descriptor.antt =====
-- `vbi_encode_dvb_pdc_descriptor` and `vbi_decode_dvb_pdc_descriptor`.
use zvbi.Prelude.Bits.Fields.{bit_or-high}
use zvbi.Prelude.{
  ℕ, ◌+◌, ◌/◌, ◌≤◌, ◌<◌, ◌≡◌, refl, ap, true, false, Bool-cases, List, bit_and, bit_or, ltb, u8,
  ◌<<<◌, ◌>>>◌, length, some, arith, ◌⊎◌, inl, inr,
}
use zvbi.Vps.Bytes.{by_elements, mask_0f}
use zvbi.Vps.{
  ProgramId, cleared, pdc_descriptor, decode_dvb_pdc_descriptor, encode_dvb_pdc_descriptor,
}

-- A label read from a descriptor.
abbrev pub labelled : ℕ → ProgramId
labelled pil = record cleared { channel = pdc_descriptor; pil = pil; mi = true }

-- A PIL of 20 bits is stored by vbi_encode_dvb_pdc_descriptor in five bytes and read back by
-- vbi_decode_dvb_pdc_descriptor; a larger one is refused and the bytes left as they were.
pub decode_dvb_pdc_descriptor-encode :
    (buffer : List ℕ) (pid : ProgramId)
    → length buffer ≡ 5
    → ((pid.pil ≤ 0xfffff)
        × ((encode_dvb_pdc_descriptor buffer pid).1 ≡ true)
        × (decode_dvb_pdc_descriptor (encode_dvb_pdc_descriptor buffer pid).0
            ≡ some (labelled pid.pil)))
      ⊎ ((0xfffff < pid.pil) × (encode_dvb_pdc_descriptor buffer pid ≡ (buffer, false)))
unfolding encode_dvb_pdc_descriptor decode_dvb_pdc_descriptor
decode_dvb_pdc_descriptor-encode buffer pid n =
    by_elements 5
      (λ b.
        ((pid.pil ≤ 0xfffff)
          × ((encode_dvb_pdc_descriptor b pid).1 ≡ true)
          × (decode_dvb_pdc_descriptor (encode_dvb_pdc_descriptor b pid).0
              ≡ some (labelled pid.pil)))
        ⊎ ((0xfffff < pid.pil) × (encode_dvb_pdc_descriptor b pid ≡ (b, false))))
      (λ b0 b1 b2 b3 b4. elim (Bool-cases (ltb 0xfffff pid.pil)) [
        | inl beyond ↦ inr (ground arith, rw beyond refl)
        | inr fits ↦
            let h : pid.pil ≤ 0xfffff = ground arith in
            let top : u8 (bit_or 0xf0 (pid.pil >>> 16)) ≡ 240 + pid.pil / 65536 =
              ground (arith, bit_or-high 4 15 (pid.pil / 65536)) in
            let whole : (bit_and (u8 (bit_or 0xf0 (pid.pil >>> 16))) 0x0f <<< 16)
                  + (u8 (pid.pil >>> 8) <<< 8)
                  + u8 pid.pil
                ≡ pid.pil =
              omega (arith, top, mask_0f (u8 (bit_or 0xf0 (pid.pil >>> 16)))) in
            inl (h, rw fits refl, rw fits (ap (λ (t : ℕ). some (labelled t)) whole))
      ])
      buffer n
