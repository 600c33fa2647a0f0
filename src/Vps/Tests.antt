-- ===== src/Vps/Tests.antt =====
-- Runs of the VPS codecs, and the theorems about them at an input.
use zvbi.Prelude.{
  AreBytes, ℕ, zero, suc, ◌≤◌, ◌<◌, ◌≡◌, ◌⊎◌, refl, true, false, List, replicate, some, arith,
}
use zvbi.Vps.Cni.{decode_vps_cni-encode}
use zvbi.Vps.Descriptor.{labelled, decode_dvb_pdc_descriptor-encode}
use zvbi.Vps.Frame.{decode_vps_pdc-encode_vps_cni}
use zvbi.Vps.Pdc.{IsEncodable, encode_vps_pdc-refuses, decode_vps_pdc-encode}
use zvbi.Vps.{
  ProgramId, cleared, channel_vps, cni_vps, shared_code, decode_vps_cni, decode_vps_pdc,
  decode_dvb_pdc_descriptor, encode_vps_cni, encode_vps_pdc, encode_dvb_pdc_descriptor,
}

abbrev ones : List ℕ
ones = replicate 13 0xff

-- ARD by bit 4 of byte 2, on a day in July.
abbrev programme : ProgramId
programme = record cleared { cni = 0xdc3; pil = 0x7bd00; pcs_audio = 2; pty = 0x4f }

programme-IsEncodable : IsEncodable programme
programme-IsEncodable = record {
  pty_fits = omega arith;
  pcs_audio_fits = omega arith;
  pil_fits = omega arith;
  cni_fits = omega arith;
}

cni_run : decode_vps_cni (encode_vps_cni ones 0xdc2).0 ≡ 0xdc2
unfolding decode_vps_cni encode_vps_cni
cni_run = refl

shared_run : decode_vps_cni (encode_vps_cni ones 0xdc3).0 ≡ 0xdc1
unfolding decode_vps_cni encode_vps_cni
shared_run = refl

decode_vps_cni-encode_example :
    ((encode_vps_cni ones 0xdc3).1 ≡ true)
    × (decode_vps_cni (encode_vps_cni ones 0xdc3).0 ≡ shared_code ones 0xdc3)
decode_vps_cni-encode_example = decode_vps_cni-encode ones 0xdc3 refl (omega arith)

encode_vps_pdc-refuses_example :
    (IsEncodable programme × ((encode_vps_pdc ones programme).1 ≡ true))
    ⊎ ((¬ IsEncodable programme) × (encode_vps_pdc ones programme ≡ (ones, false)))
encode_vps_pdc-refuses_example = encode_vps_pdc-refuses ones programme

decode_vps_pdc-encode_example :
    ((encode_vps_pdc ones programme).1 ≡ true)
    × (decode_vps_pdc (encode_vps_pdc ones programme).0 ≡ record cleared {
      channel = channel_vps;
      cni_type = cni_vps;
      cni = shared_code ones 0xdc3;
      pil = 0x7bd00;
      mi = true;
      pcs_audio = 2;
      pty = 0x4f;
    })
decode_vps_pdc-encode_example = decode_vps_pdc-encode ones programme refl programme-IsEncodable

all_bytes : (n : ℕ) → AreBytes (replicate n 0xff)
all_bytes zero = tt
all_bytes (suc n) = (omega arith, all_bytes n)

decode_vps_pdc-encode_vps_cni_example :
    decode_vps_pdc (encode_vps_cni ones 0xdc1).0
    ≡ record (decode_vps_pdc ones) { cni = shared_code ones 0xdc1 }
decode_vps_pdc-encode_vps_cni_example =
    decode_vps_pdc-encode_vps_cni ones 0xdc1 refl (all_bytes 13) (omega arith)

decode_dvb_pdc_descriptor-encode_example :
    ((0x7bd00 ≤ 0xfffff)
      × ((encode_dvb_pdc_descriptor (replicate 5 0) programme).1 ≡ true)
      × (decode_dvb_pdc_descriptor (encode_dvb_pdc_descriptor (replicate 5 0) programme).0
          ≡ some (labelled 0x7bd00)))
    ⊎ ((0xfffff < 0x7bd00)
        × (encode_dvb_pdc_descriptor (replicate 5 0) programme ≡ (replicate 5 0, false)))
decode_dvb_pdc_descriptor-encode_example =
    decode_dvb_pdc_descriptor-encode (replicate 5 0) programme refl
