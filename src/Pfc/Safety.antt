-- ===== src/Pfc/Safety.antt =====
-- How `_vbi_pfc_demux_decode`, `vbi_pfc_demux_feed` and `vbi_pfc_demux_feed_frame` end.
use zvbi.Hamm.{unham8, unham16p}
use zvbi.Pfc.Decode.{Round, again, finish, round, loop, decode}
use zvbi.Pfc.Feed.{
  page_header, magazine, filter_packet, Filter, ignore, lost, accept, feed_packet, feed_header,
  feed, feed_frame,
}
use zvbi.Sliced.{Sliced, teletext_b_625}
use zvbi.Pfc.Invariant.{IsValid, IsReset, reset-IsReset, reset-IsValid}
use zvbi.Pfc.Rounds.{RoundEnds, round-ends}
use zvbi.Pfc.State.{PfcBlock, PfcDemux, reset}
use zvbi.Prelude.{
  ℕ, zero, suc, ◌+◌, ◌-◌, ◌*◌, ◌≤◌, ◌<◌, ◌≡◌, ◌⊎◌, inl, inr, refl, Bool, true, false, Bool-cases,
  ◌||◌, List, [], ◌∷◌, u32, ltb, ◌==◌, is_negative, has_bits, ltb→lt, ◌>>>◌, length, get_or,
  Outcome, returns, out_of_bounds, out_of_fuel, ◌>>=◌, read-get_or, arith,
}

module _ {U : Type 0} where
  -- The call returns, the invariant holds, and FALSE leaves the state after a reset.
  abbrev pub Settles : Outcome ((PfcDemux × U) × Bool) → Type 0
  Settles (returns ((dx, u), ok)) = IsValid dx × ((ok ≡ true) ⊎ IsReset dx)
  Settles out_of_bounds = ⊥
  Settles out_of_fuel = ⊥

  reset-Settles :
      (dx : PfcDemux) (u : U) (ok : Bool) → IsValid dx → Settles (returns ((reset dx, u), ok))
  reset-Settles dx u ok v = (reset-IsValid dx v.capacity, inr (reset-IsReset dx))

page_header-Settles :
    (dx : PfcDemux) (pgno pair subno : ℕ)
    → IsValid dx
    → IsValid (page_header dx pgno pair subno).0
      × (((page_header dx pgno pair subno).1 ≡ true) ⊎ IsReset (page_header dx pgno pair subno).0)
unfolding page_header
page_header-Settles dx pgno pair subno v = ground arith

-- Every line has the room of `vbi_sliced.data`, 56 bytes, of which the first 43 are looked at.
abbrev pub ArePayloads : List Sliced → Type 0
ArePayloads [] = Unit {0}
ArePayloads (line ∷ lines) = (43 ≤ length line.bytes) × ArePayloads lines

module _ {U : Type 0} (callback : U → PfcBlock → U × Bool) where
  -- The loop after a round, from what is known of the rounds after that.
  goes_on :
      (fuel : ℕ) (buffer : List ℕ) (bp col : ℕ)
      → ((dx : PfcDemux) (u : U) (col' : ℕ)
          → IsValid dx
          → col < col'
          → Settles (loop callback fuel dx u buffer bp col'))
      → (o : Outcome (Round (PfcDemux × U))) → RoundEnds col o
      → Settles (
          o >>= elim [
            | again (dx', u') col' ↦ loop callback fuel dx' u' buffer bp col'
            | finish s ok ↦ returns (s, ok)
          ])
  goes_on fuel buffer bp col ih (returns (again (dx, u) col')) r = ih dx u col' r.0 r.1
  goes_on fuel buffer bp col ih (returns (finish (dx, u) ok)) r = r
  goes_on fuel buffer bp col ih out_of_bounds r = r
  goes_on fuel buffer bp col ih out_of_fuel r = r

  loop-Settles :
      (fuel : ℕ) (dx : PfcDemux) (u : U) (buffer : List ℕ) (bp col : ℕ)
      → IsValid dx
      → 43 ≤ length buffer
      → bp ≤ 39
      → 42 - col < fuel
      → Settles (loop callback fuel dx u buffer bp col)
  unfolding loop
  loop-Settles zero dx u buffer bp col v hb hp hf = absurd (omega arith)
  loop-Settles (suc fuel) dx u buffer bp col v hb hp hf = elim (Bool-cases (ltb col 42)) [
    | inr past ↦ rw past (v, inl refl)
    | inl inside ↦
        let lt = ltb→lt col 42 inside in
        rw inside (
          goes_on fuel buffer bp col
            (λ dx' u' col' v' h. loop-Settles fuel dx' u' buffer bp col' v' hb hp (omega arith))
            (round callback dx u buffer bp col) (round-ends callback dx u buffer bp col v hb hp lt))
  ]

  -- _vbi_pfc_demux_decode, for a valid demultiplexer and a buffer with at least 43 readable
  -- bytes, returns within the fuel of 40 rounds and inside the arrays; the demultiplexer
  -- stays valid, and FALSE leaves it after a reset.
  pub decode-Settles :
      (dx : PfcDemux) (u : U) (buffer : List ℕ)
      → IsValid dx
      → 43 ≤ length buffer
      → Settles (decode callback dx u buffer)
  unfolding decode
  decode-Settles dx u buffer v hb =
      let bp = u32 (unham8 (get_or buffer 2 0) * 3) in
      rw (read-get_or buffer 2 (omega arith)) (elim (Bool-cases (is_negative bp || ltb 39 bp)) [
        | inl bad ↦ rw bad (reset-Settles dx u false v)
        | inr good ↦ rw good (loop-Settles 40 dx u buffer bp 3 v hb (ground arith) (omega arith))
      ])

  feed_packet-Settles :
      (dx : PfcDemux) (u : U) (buffer : List ℕ) (pgno packet : ℕ)
      → IsValid dx
      → 43 ≤ length buffer
      → Settles (feed_packet callback dx u buffer pgno packet)
  unfolding feed_packet
  feed_packet-Settles dx u buffer pgno packet v hb = by_filter (filter_packet dx pgno packet)
    where
      by_filter :
          (f : Filter)
          → Settles (elim f [
            | ignore ↦ returns ((dx, u), true)
            | lost ↦ returns ((reset dx, u), true)
            | accept ↦ decode callback (record dx { packet = packet + 1 }) u buffer
          ])
      by_filter ignore = (v, inl refl)
      by_filter lost = reset-Settles dx u true v
      by_filter accept =
          decode-Settles (record dx { packet = packet + 1 }) u buffer
            (record {
              capacity = v.capacity;
              room = v.room;
              id = v.id;
              header = v.header;
              body = v.body;
            })
            hb

  feed_header-Settles :
      (dx : PfcDemux) (u : U) (buffer : List ℕ) (pgno : ℕ)
      → IsValid dx
      → 43 ≤ length buffer
      → Settles (feed_header callback dx u buffer pgno)
  unfolding feed_header
  feed_header-Settles dx u buffer pgno v hb =
      rw
        (
          read-get_or buffer 2 (omega arith),
          read-get_or buffer 3 (omega arith),
          read-get_or buffer 4 (omega arith),
          read-get_or buffer 5 (omega arith),
          read-get_or buffer 6 (omega arith),
          read-get_or buffer 7 (omega arith),
        )
        (page_header-Settles dx pgno _ _ v)

  -- vbi_pfc_demux_feed, for a valid demultiplexer and a packet with at least 43 readable
  -- bytes, returns, never reads or writes outside an array and never runs out of fuel; the
  -- demultiplexer stays valid, and a result of FALSE leaves it after a reset.
  pub feed-Settles :
      (dx : PfcDemux) (u : U) (buffer : List ℕ)
      → IsValid dx
      → 43 ≤ length buffer
      → Settles (feed callback dx u buffer)
  unfolding feed
  feed-Settles dx u buffer v hb =
      let pmag = unham16p (get_or buffer 0 0) (get_or buffer 1 0) in
      rw (read-get_or buffer 0 (omega arith), read-get_or buffer 1 (omega arith))
        (elim (Bool-cases (is_negative pmag)) [
          | inl bad ↦ rw bad (reset-Settles dx u false v)
          | inr good ↦ elim (Bool-cases (pmag >>> 3 == 0)) [
            | inl first ↦ rw (good, first) (feed_header-Settles dx u buffer (magazine pmag) v hb)
            | inr other ↦
                rw (good, other) (feed_packet-Settles dx u buffer (magazine pmag) (pmag >>> 3) v hb)
          ]
        ])

  feed_frame-other :
      (dx : PfcDemux) (u : U) (line : Sliced) (lines : List Sliced)
      → has_bits line.id teletext_b_625 ≡ false
      → feed_frame callback dx u (line ∷ lines) ≡ feed_frame callback dx u lines
  unfolding feed_frame
  feed_frame-other dx u line lines other = rw (feed_frame, other)

  feed_frame-teletext :
      (dx : PfcDemux) (u : U) (line : Sliced) (lines : List Sliced)
      → has_bits line.id teletext_b_625 ≡ true
      → feed_frame callback dx u (line ∷ lines) ≡ (
          feed callback dx u line.bytes >>= λ r. elim r.1 [
            | true ↦ feed_frame callback r.0.0 r.0.1 lines
            | false ↦ returns r
          ])
  unfolding feed_frame
  feed_frame-teletext dx u line lines teletext = rw (feed_frame, teletext)

  -- vbi_pfc_demux_feed_frame, for a valid demultiplexer and lines with at least 43 readable
  -- bytes each, returns, never reads or writes outside an array and never runs out of fuel;
  -- the demultiplexer stays valid, and a result of FALSE leaves it after a reset.
  pub feed_frame-Settles :
      (dx : PfcDemux) (u : U) (lines : List Sliced)
      → IsValid dx
      → ArePayloads lines
      → Settles (feed_frame callback dx u lines)
  unfolding feed_frame
  feed_frame-Settles dx u [] v h = (v, inl refl)
  feed_frame-Settles dx u (line ∷ lines) v h = elim (Bool-cases (has_bits line.id teletext_b_625)) [
    | inr other ↦ rw (feed_frame-other dx u line lines other) (feed_frame-Settles dx u lines v h.1)
    | inl teletext ↦ rw (feed_frame-teletext dx u line lines teletext) (
        after (λ dx' u'. feed_frame callback dx' u' lines) (feed callback dx u line.bytes)
          (feed-Settles dx u line.bytes v h.0)
          (λ dx' u' v'. feed_frame-Settles dx' u' lines v' h.1))
  ]
    where
      after :
          (R : PfcDemux → U → Outcome ((PfcDemux × U) × Bool)) (o : Outcome ((PfcDemux × U) × Bool))
          → Settles o
          → ((dx' : PfcDemux) (u' : U) → IsValid dx' → Settles (R dx' u'))
          → Settles (o >>= λ r. elim r.1 [ true ↦ R r.0.0 r.0.1 | false ↦ returns r ])
      after R (returns ((dx', u'), true)) s next = next dx' u' s.0
      after R (returns ((dx', u'), false)) s next = s
      after R out_of_bounds s next = s
      after R out_of_fuel s next = s
