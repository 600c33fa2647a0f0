-- ===== src/Pfc/Select.antt =====
-- Which packets `vbi_pfc_demux_feed` gives to the decoder.
use zvbi.Hamm.{unham16p}
use zvbi.Pfc.Decode.{decode}
use zvbi.Pfc.Feed.{accept, ignore, lost, magazine, filter_packet, feed_packet, feed, feed_frame}
use zvbi.Pfc.Headers.{same_magazine}
use zvbi.Pfc.State.{PfcBlock, PfcDemux, reset}
use zvbi.Sliced.{Sliced, teletext_b_625}
use zvbi.Prelude.Bits.Fields.{bit_and_low}
use zvbi.Prelude.{
  ℕ, ◌+◌, ◌/◌, ◌%◌, ◌≤◌, ◌≡◌, ◌≢◌, ◌⊎◌, inl, inr, refl, ap, ◌∙◌, Bool, true, false, Bool-cases,
  List, [], ◌∷◌, ◌==◌, if◌then◌else◌, is_negative, has_bits, ◌>>>◌, returns, arith,
}

-- The two bytes can be read, and give the number of a packet that is no page header.
abbrev pub IsPacket : ℕ → ℕ → Type 0
IsPacket b0 b1 = (is_negative (unham16p b0 b1) ≡ false) × (8 ≤ unham16p b0 b1)

-- The magazine and packet number in the two bytes.
abbrev pub magazine_number : ℕ → ℕ → ℕ
magazine_number b0 b1 = if unham16p b0 b1 % 8 == 0 then 8 else unham16p b0 b1 % 8

abbrev pub packet_number : ℕ → ℕ → ℕ
packet_number b0 b1 = unham16p b0 b1 / 8

-- One of the packets of the page that its header announced.
abbrev pub IsAnnounced : PfcDemux → ℕ → ℕ → Type 0
IsAnnounced dx b0 b1 =
    (dx.block.pgno / 256 % 16 ≡ magazine_number b0 b1)
    × (dx.n_packets ≢ 0)
    × (packet_number b0 b1 ≤ 25)

-- The expected one of them.
abbrev pub IsExpected : PfcDemux → ℕ → ℕ → Type 0
IsExpected dx b0 b1 = (packet_number b0 b1 ≡ dx.packet) × (dx.packet ≤ dx.n_packets)

-- No line of these is a page header, or cannot be read.
abbrev pub IsPacketOf : List ℕ → Type 0
IsPacketOf [] = ⊥
IsPacketOf (b0 ∷ []) = ⊥
IsPacketOf (b0 ∷ b1 ∷ rest) = IsPacket b0 b1

abbrev pub ArePackets : List Sliced → Type 0
ArePackets [] = Unit {0}
ArePackets (line ∷ lines) =
    ((has_bits line.id teletext_b_625 ≡ true) → IsPacketOf line.bytes) × ArePackets lines

magazine-number : (pmag : ℕ) → magazine pmag / 256 % 16 ≡ (if pmag % 8 == 0 then 8 else pmag % 8)
unfolding magazine
magazine-number pmag = ground (arith, bit_and_low 3 pmag)

-- What becomes of a packet, by the magazine and number in it.
filter_lem :
    (dx : PfcDemux) (b0 b1 : ℕ)
    → IsPacket b0 b1
    → (IsAnnounced dx b0 b1
        × IsExpected dx b0 b1
        × (filter_packet dx (magazine (unham16p b0 b1)) (unham16p b0 b1 >>> 3) ≡ accept))
      ⊎ (IsAnnounced dx b0 b1
          × (¬ IsExpected dx b0 b1)
          × (filter_packet dx (magazine (unham16p b0 b1)) (unham16p b0 b1 >>> 3) ≡ lost))
      ⊎ ((¬ IsAnnounced dx b0 b1)
          × (filter_packet dx (magazine (unham16p b0 b1)) (unham16p b0 b1 >>> 3) ≡ ignore))
unfolding filter_packet
filter_lem dx b0 b1 h = ground (
  arith,
  same_magazine (magazine (unham16p b0 b1)) dx.block.pgno,
  magazine-number (unham16p b0 b1),
)

filter_none :
    (dx : PfcDemux) (pgno packet : ℕ) → dx.n_packets ≡ 0 → filter_packet dx pgno packet ≡ ignore
unfolding filter_packet
filter_none dx pgno packet none_left = ground arith

module _ {U : Type 0} (callback : U → PfcBlock → U × Bool) where
  feed-feed_packet :
      (dx : PfcDemux) (u : U) (b0 b1 : ℕ) (rest : List ℕ)
      → IsPacket b0 b1
      → feed callback dx u (b0 ∷ b1 ∷ rest)
        ≡ feed_packet callback dx u
            (b0 ∷ b1 ∷ rest)
            (magazine (unham16p b0 b1))
            (unham16p b0 b1 >>> 3)
  unfolding feed
  feed-feed_packet dx u b0 b1 rest h =
      let number : (unham16p b0 b1 >>> 3 == 0) ≡ false = ground (arith, h.1) in
      rw (h.0, number) refl

  -- Without announced packets all are ignored.
  packet_ignored :
      (dx : PfcDemux) (u : U) (buffer : List ℕ)
      → dx.n_packets ≡ 0
      → IsPacketOf buffer
      → feed callback dx u buffer ≡ returns ((dx, u), true)
  unfolding feed_packet
  packet_ignored dx u [] none_left h = absurd h
  packet_ignored dx u (b0 ∷ []) none_left h = absurd h
  packet_ignored dx u (b0 ∷ b1 ∷ rest) none_left h =
      feed-feed_packet dx u b0 b1 rest h
      ∙ rw
          (filter_none dx (magazine (unham16p b0 b1)) (unham16p b0 b1 >>> 3) none_left, feed_packet)
          refl

  ignored :
      (dx : PfcDemux) (u : U) (lines : List Sliced)
      → dx.n_packets ≡ 0
      → ArePackets lines
      → feed_frame callback dx u lines ≡ returns ((dx, u), true)
  unfolding feed_frame
  ignored dx u [] none_left h = refl
  ignored dx u (line ∷ lines) none_left h = elim (Bool-cases (has_bits line.id teletext_b_625)) [
    | inl teletext ↦
        rw (teletext, packet_ignored dx u line.bytes none_left (h.0 teletext), feed_frame)
          (ignored dx u lines none_left h.1)
    | inr other ↦ rw (other, feed_frame) (ignored dx u lines none_left h.1)
  ]

  -- A packet whose address can be read and that is no page header, followed in its frame by
  -- such packets and lines of other services only: if a page header announced packets, the
  -- packet has the magazine of the page, and its number is 25 at most, then
  -- vbi_pfc_demux_feed gives it to the decoder, with the next packet expected, where it is
  -- the expected packet and one of those announced; where it is not, vbi_pfc_demux_feed_frame
  -- resets the demultiplexer, and ignores the rest of the frame. In every other case
  -- vbi_pfc_demux_feed ignores the packet.
  pub feed-IsAnnounced :
      (dx : PfcDemux) (u : U) (b0 b1 : ℕ) (rest : List ℕ) (lines : List Sliced)
      → IsPacket b0 b1
      → ArePackets lines
      → (IsAnnounced dx b0 b1
          × IsExpected dx b0 b1
          × (feed callback dx u (b0 ∷ b1 ∷ rest)
              ≡ decode callback (record dx { packet = dx.packet + 1 }) u (b0 ∷ b1 ∷ rest)))
        ⊎ (IsAnnounced dx b0 b1
            × (¬ IsExpected dx b0 b1)
            × (feed_frame callback dx u
                  (record { id = teletext_b_625; bytes = b0 ∷ b1 ∷ rest } ∷ lines)
                ≡ returns ((reset dx, u), true)))
        ⊎ ((¬ IsAnnounced dx b0 b1)
            × (feed callback dx u (b0 ∷ b1 ∷ rest) ≡ returns ((dx, u), true)))
  unfolding feed_packet feed_frame reset
  feed-IsAnnounced dx u b0 b1 rest lines h k = elim (filter_lem dx b0 b1 h) [
    | inl (announced, expected, e) ↦ inl (
      announced,
      expected,
      feed-feed_packet dx u b0 b1 rest h
          ∙ rw (e, feed_packet)
              (ap (λ (n : ℕ). decode callback (record dx { packet = n + 1 }) u (b0 ∷ b1 ∷ rest))
                (expected.0)),
    )
    | inr (inl (announced, other, e)) ↦ inr (
        inl (
          announced,
          other,
          rw (feed-feed_packet dx u b0 b1 rest h, e, feed_packet)
              (ignored (reset dx) u lines refl k),
        ))
    | inr (inr (other, e)) ↦
        inr (inr (other, feed-feed_packet dx u b0 b1 rest h ∙ rw (e, feed_packet) refl))
  ]
