-- ===== src/Pfc/Feed.antt =====
-- src/pfc_demux.c: the packet filter, `vbi_pfc_demux_feed` and `vbi_pfc_demux_feed_frame`.
use zvbi.Hamm.{unham16p}
use zvbi.Prelude.{
  ℕ, ◌+◌, ◌*◌, Bool, true, false, not, ◌||◌, List, [], ◌∷◌, bit_and, bit_or, bit_xor, ltb, ◌==◌,
  if◌then◌else◌, u32, is_negative, has_bits, ◌<<<◌, ◌>>>◌, Outcome, returns, ◌>>=◌, read,
}
use zvbi.Pfc.Decode.{decode}
use zvbi.Sliced.{Sliced, teletext_b_625}
use zvbi.Pfc.State.{PfcBlock, PfcDemux, reset}

-- `vbi_pfc_demux_feed`: the page header in packet 0. The outcome says what becomes of the
-- demultiplexer and what is returned.
unfoldable pub page_header : PfcDemux → ℕ → ℕ → ℕ → PfcDemux × Bool
unfolding reset
page_header dx pgno pair subno =
    if is_negative pair
    then (reset dx, false)
    else if not (bit_or pgno pair == dx.block.pgno)
    then (record dx { n_packets = 0 }, true)
    else if is_negative subno
    then (reset dx, false)
    else if not (bit_and (subno >>> 8) 15 == dx.block.stream)
    then (record dx { n_packets = 0 }, true)
    else (let ci = bit_and subno 15 in
        let dx' = if ci == dx.ci then dx else reset dx in
        (
          record dx' {
            ci = bit_and (ci + 1) 15;
            packet = 1;
            n_packets = bit_and (subno >>> 4) 7 + bit_and (subno >>> 9) 0x18;
          },
          true,
        ))

-- `pgno` of a packet from the magazine number in `pmag`.
unfoldable pub magazine : ℕ → ℕ
magazine pmag = let m = bit_and pmag 7 in if m == 0 then 0x800 else m <<< 8

-- What the packet filter decides of a packet that is no page header.
pub data Filter : Type 0 where
  ignore : Filter
  lost : Filter
  accept : Filter

unfoldable pub filter_packet : PfcDemux → ℕ → ℕ → Filter
filter_packet dx pgno packet =
    if has_bits (bit_xor pgno dx.block.pgno) 0xf00
    then ignore
    else if dx.n_packets == 0
    then ignore
    else if ltb 25 packet
    then ignore
    else if not (packet == dx.packet) || ltb dx.n_packets packet
    then lost
    else accept

module _ {U : Type 0} (callback : U → PfcBlock → U × Bool) where
  unfoldable pub feed_packet : PfcDemux → U → List ℕ → ℕ → ℕ → Outcome ((PfcDemux × U) × Bool)
  unfolding filter_packet decode
  feed_packet dx u buffer pgno packet = elim (filter_packet dx pgno packet) [
    | ignore ↦ returns ((dx, u), true)
    | lost ↦ returns ((reset dx, u), true)
    | accept ↦ decode callback (record dx { packet = packet + 1 }) u buffer
  ]

  unfoldable pub feed_header : PfcDemux → U → List ℕ → ℕ → Outcome ((PfcDemux × U) × Bool)
  unfolding page_header
  feed_header dx u buffer pgno = do
    b2 ← read buffer 2
    b3 ← read buffer 3
    b4 ← read buffer 4
    b5 ← read buffer 5
    b6 ← read buffer 6
    b7 ← read buffer 7
    let subno = u32 (unham16p b4 b5 + u32 (unham16p b6 b7 * 256))
    let (dx', ok) = page_header dx pgno (unham16p b2 b3) subno
    returns ((dx', u), ok)

  unfoldable pub feed : PfcDemux → U → List ℕ → Outcome ((PfcDemux × U) × Bool)
  unfolding feed_header magazine feed_packet
  feed dx u buffer = do
    b0 ← read buffer 0
    b1 ← read buffer 1
    let pmag = unham16p b0 b1
    let pgno = magazine pmag
    let packet = pmag >>> 3
    (if is_negative pmag
        then returns ((reset dx, u), false)
        else if packet == 0
        then feed_header dx u buffer pgno
        else feed_packet dx u buffer pgno packet)

  -- `vbi_pfc_demux_feed_frame`, on the sliced lines of a frame.
  unfoldable pub feed_frame : PfcDemux → U → List Sliced → Outcome ((PfcDemux × U) × Bool)
  unfolding feed
  feed_frame dx u [] = returns ((dx, u), true)
  feed_frame dx u (line ∷ lines) = elim (has_bits line.id teletext_b_625) [
    | true ↦ feed dx u line.bytes >>= λ r. elim r.1 [
      | true ↦ feed_frame r.0.0 r.0.1 lines
      | false ↦ returns r
    ]
    | false ↦ feed_frame dx u lines
  ]
