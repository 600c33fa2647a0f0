-- ===== src/Vps/Frame.antt =====
-- `vbi_encode_vps_cni` on a packet with PDC data.
use zvbi.Prelude.{
  AreBytes, ℕ, ◌+◌, ◌≤◌, ◌<◌, ◌≡◌, true, List, bit_and, ◌<<<◌, ◌>>>◌, length, get_or, arith,
}
use zvbi.Vps.Bytes.{by_elements, mask_3f}
use zvbi.Vps.Cni.{packet, with_cni, encode_vps_cni-packet, decode_vps_cni-packet}
use zvbi.Vps.{cleared, channel_vps, cni_vps, shared_code, decode_vps_pdc, encode_vps_cni}

module _ (b0 b1 b2 b3 b4 b5 b6 b7 b8 b9 b10 b11 b12 cni : ℕ) (h : cni ≤ 0xfff) where
  abbrev before : List ℕ
  before = packet b0 b1 b2 b3 b4 b5 b6 b7 b8 b9 b10 b11 b12

  abbrev after : List ℕ
  after = with_cni b0 b1 b2 b3 b4 b5 b6 b7 b8 b9 b10 b11 b12 cni h

  pil-same :
      b10 < 256
      → (bit_and (get_or after 8 0) 0x3f <<< 14)
          + (get_or after 9 0 <<< 6)
          + (get_or after 10 0 >>> 2)
        ≡ (bit_and b8 0x3f <<< 14) + (b9 <<< 6) + (b10 >>> 2)
  pil-same k = omega (arith, mask_3f b8, mask_3f (get_or after 8 0))

  decode-same :
      b10 < 256
      → decode_vps_pdc after ≡ record (decode_vps_pdc before) { cni = shared_code before cni }
  unfolding decode_vps_pdc
  decode-same k = λ i. record cleared {
    channel = channel_vps;
    cni_type = cni_vps;
    cni = decode_vps_cni-packet b0 b1 b2 b3 b4 b5 b6 b7 b8 b9 b10 b11 b12 cni h i;
    pil = pil-same k i;
    mi = true;
    pcs_audio = b2 >>> 6;
    pty = b12;
  }

-- vbi_encode_vps_cni, on a packet of 13 bytes and a CNI of 12 bits, changes nothing but the
-- CNI of what vbi_decode_vps_pdc reads from the packet.
pub decode_vps_pdc-encode_vps_cni :
    (buffer : List ℕ) (cni : ℕ)
    → length buffer ≡ 13
    → AreBytes buffer
    → cni ≤ 0xfff
    → decode_vps_pdc (encode_vps_cni buffer cni).0
      ≡ record (decode_vps_pdc buffer) { cni = shared_code buffer cni }
decode_vps_pdc-encode_vps_cni buffer cni n =
    by_elements 13
      (λ b.
        AreBytes b
        → cni ≤ 0xfff
        → decode_vps_pdc (encode_vps_cni b cni).0
          ≡ record (decode_vps_pdc b) { cni = shared_code b cni })
      (λ b0 b1 b2 b3 b4 b5 b6 b7 b8 b9 b10 b11 b12 bytes h.
        rw (encode_vps_cni-packet b0 b1 b2 b3 b4 b5 b6 b7 b8 b9 b10 b11 b12 cni h)
          (decode-same b0 b1 b2 b3 b4 b5 b6 b7 b8 b9 b10 b11 b12 cni h (omega arith)))
      buffer n
