-- ===== src/Pfc/Rounds.antt =====
-- A round of the loop of `_vbi_pfc_demux_decode`, branch by branch.
use zvbi.Hamm.{unham8}
use zvbi.Prelude.{
  ℕ, ◌+◌, ◌-◌, ◌≤◌, ◌<◌, ◌≡◌, ◌⊎◌, inl, inr, refl, Bool, true, false, Bool-cases, List, [], ◌∷◌,
  ltb, leb, ◌==◌, is_negative, length, drop, min, Outcome, returns, out_of_bounds, out_of_fuel,
  ◌>>=◌, read-get_or, get_or, length-drop, arith,
}
use zvbi.Prelude.Bits.Fields.{bit_and_low}
use zvbi.Hamm.Code8.{unham16p-range}
use zvbi.Pfc.Decode.{
  structure_header, apply_header, block_separator, desynced, Scan, end_of_packet, found,
  skip_filler, Round, again, finish, filler_byte, start_block, next_block, open_block, complete,
  round,
}
use zvbi.Pfc.State.{PfcBlock, PfcDemux}
use zvbi.Pfc.Invariant.{
  IsValid, IsReset, reset-IsReset, reset-IsValid, filled, fill-returns, filled-IsValid,
}

-- `buffer[col]` is looked at up to one past the packet, for want of a test: see Overread.
abbrev pub ScanEnds : ℕ → Outcome Scan → Type 0
ScanEnds col (returns end_of_packet) = Unit {0}
ScanEnds col (returns (found bs col')) = col < col'
ScanEnds col out_of_bounds = ⊥
ScanEnds col out_of_fuel = ⊥

later : (col : ℕ) (o : Outcome Scan) → ScanEnds (col + 1) o → ScanEnds col o
later col (returns end_of_packet) h = tt
later col (returns (found bs col')) h = omega arith
later col out_of_bounds h = h
later col out_of_fuel h = h

pub skip_filler-ends :
    (rest : List ℕ) (col : ℕ)
    → 43 ≤ length rest + col
    → col ≤ 42
    → ScanEnds col (skip_filler rest col)
unfolding skip_filler
skip_filler-ends [] col h k = absurd (omega arith)
skip_filler-ends (b ∷ rest) col h k = elim (Bool-cases (unham8 b == filler_byte)) [
  | inr other ↦ rw other (omega arith)
  | inl filler ↦ elim (Bool-cases (leb 42 (col + 1))) [
    | inl last ↦ rw (filler, last) tt
    | inr more ↦
        rw (filler, more)
          (later col (skip_filler rest (col + 1))
            (skip_filler-ends rest (col + 1) (omega arith) (ground arith)))
  ]
]

structure_header-lt :
    (b0 b1 b2 b3 : ℕ)
    → is_negative (structure_header b0 b1 b2 b3) ≡ false
    → structure_header b0 b1 b2 b3 < 65536
unfolding structure_header
structure_header-lt b0 b1 b2 b3 h = ground (arith, unham16p-range b0 b1, unham16p-range b2 b3)

module _ {U : Type 0} where
  -- A round of the loop keeps the invariant and goes forward, and a failure resets.
  abbrev pub RoundEnds : ℕ → Outcome (Round (PfcDemux × U)) → Type 0
  RoundEnds col (returns (again (dx, u) col')) = IsValid dx × (col < col')
  RoundEnds col (returns (finish (dx, u) ok)) = IsValid dx × ((ok ≡ true) ⊎ IsReset dx)
  RoundEnds col out_of_bounds = ⊥
  RoundEnds col out_of_fuel = ⊥

  desynced-ends :
      (dx : PfcDemux) (u : U) (col : ℕ) → IsValid dx → RoundEnds col (returns (desynced dx u))
  desynced-ends dx u col v = (reset-IsValid dx v.capacity, inr (reset-IsReset dx))

  RoundEnds-before :
      (col col' : ℕ) (o : Outcome (Round (PfcDemux × U)))
      → col < col'
      → RoundEnds col' o
      → RoundEnds col o
  RoundEnds-before col col' (returns (again (dx, u) c)) h r = (r.0, omega (arith, r.1))
  RoundEnds-before col col' (returns (finish (dx, u) ok)) h r = r
  RoundEnds-before col col' out_of_bounds h r = r
  RoundEnds-before col col' out_of_fuel h r = r

  start_block-ends :
      (dx : PfcDemux) (u : U) (bs col col' : ℕ)
      → IsValid dx
      → col < col'
      → RoundEnds col (returns (start_block dx u bs col'))
  unfolding start_block
  start_block-ends dx u bs col col' v h = elim (Bool-cases (bs == block_separator)) [
    | inl same ↦ rw same (ground arith, h)
    | inr other ↦ rw other (desynced-ends dx u col v)
  ]

  scan-ends :
      (dx : PfcDemux) (u : U) (col : ℕ) (o : Outcome Scan)
      → IsValid dx
      → ScanEnds col o
      → RoundEnds col (
          o >>= elim [
            | end_of_packet ↦ returns (finish (dx, u) true)
            | found bs col' ↦ returns (start_block dx u bs col')
          ])
  scan-ends dx u col (returns end_of_packet) v h = (v, inl refl)
  scan-ends dx u col (returns (found bs col')) v h = start_block-ends dx u bs col col' v h
  scan-ends dx u col out_of_bounds v h = h
  scan-ends dx u col out_of_fuel v h = h

  next_block-ends :
      (dx : PfcDemux) (u : U) (buffer : List ℕ) (bp col : ℕ)
      → IsValid dx
      → 43 ≤ length buffer
      → bp ≤ 39
      → col ≤ 42
      → RoundEnds col (next_block dx u buffer bp col)
  unfolding next_block
  next_block-ends dx u buffer bp col v hb hp hc = elim (Bool-cases (leb col 3)) [
    | inr inside ↦ rw inside (
        scan-ends dx u col (skip_filler (drop col buffer) col) v
          (skip_filler-ends (drop col buffer) col (omega (arith, length-drop col buffer)) hc))
    | inl first ↦ elim (Bool-cases (leb 39 bp)) [
      | inl none_here ↦ rw (first, none_here) (v, inl refl)
      | inr here ↦
          rw (first, here, read-get_or buffer (bp + 4 - 1) (omega arith))
            (start_block-ends dx u (unham8 (get_or buffer (bp + 4 - 1) 0)) col (bp + 4) v
              (ground arith))
    ]
  ]

  apply_header-ends :
      (dx : PfcDemux) (u : U) (sh col col' : ℕ)
      → IsValid dx
      → (is_negative sh ≡ false → sh < 65536)
      → col < col'
      → RoundEnds col (returns (apply_header dx u sh col'))
  unfolding apply_header
  apply_header-ends dx u sh col col' v small h = elim (Bool-cases (is_negative sh)) [
    | inl bad ↦ rw bad (desynced-ends dx u col v)
    | inr good ↦
        let s = small good in
        let mask = bit_and_low 5 sh in
        rw good (
          record {
            capacity = v.capacity;
            room = omega arith;
            id = inr (omega arith);
            header = λ e p. absurd (omega arith);
            body = λ e p. omega arith;
          },
          h,
        )
  ]

  open_block-ends :
      (dx : PfcDemux) (u : U) (col col' : ℕ)
      → IsValid dx
      → col < col'
      → RoundEnds col (open_block dx u col')
  unfolding open_block
  open_block-ends dx u col col' v h =
      let at = dx.block.bytes in
      let sh = structure_header (get_or at 0 0) (get_or at 1 0) (get_or at 2 0) (get_or at 3 0) in
      rw
        (
          read-get_or at 0 (omega arith),
          read-get_or at 1 (omega arith),
          read-get_or at 2 (omega arith),
          read-get_or at 3 (omega arith),
        )
        (apply_header-ends dx u sh col col' v
          (structure_header-lt (get_or at 0 0) (get_or at 1 0) (get_or at 2 0) (get_or at 3 0)) h)

module _ {U : Type 0} (callback : U → PfcBlock → U × Bool) where
  complete-ends :
      (dx : PfcDemux) (u : U) (buffer : List ℕ) (bp col col' : ℕ)
      → IsValid dx
      → 43 ≤ length buffer
      → bp ≤ 39
      → col' ≤ 42
      → col < col'
      → RoundEnds col (complete callback dx u buffer bp col')
  unfolding complete
  complete-ends dx u buffer bp col col' v hb hp hc h =
      elim (Bool-cases (is_negative dx.block.application_id)) [
        | inl header ↦ rw header (open_block-ends dx u col col' v h)
        | inr body ↦ elim (Bool-cases (callback u dx.block).1) [
          | inr refused ↦ rw (body, refused) (desynced-ends dx (callback u dx.block).0 col v)
          | inl accepted ↦
              rw (body, accepted)
                (RoundEnds-before col col' (next_block dx (callback u dx.block).0 buffer bp col') h
                  (next_block-ends dx (callback u dx.block).0 buffer bp col' v hb hp hc))
        ]
      ]

  pub round-ends :
      (dx : PfcDemux) (u : U) (buffer : List ℕ) (bp col : ℕ)
      → IsValid dx
      → 43 ≤ length buffer
      → bp ≤ 39
      → col < 42
      → RoundEnds col (round callback dx u buffer bp col)
  unfolding round
  round-ends dx u buffer bp col v hb hp hc = elim (Bool-cases (ltb 0 dx.left)) [
    | inr idle ↦ rw idle (next_block-ends dx u buffer bp col v hb hp (omega arith))
    | inl busy ↦
        let size = min dx.left (42 - col) in
        let dx' = filled dx buffer col size in
        let v' = filled-IsValid dx buffer col size v (omega arith) (omega arith) in
        rw (busy, fill-returns dx buffer col size v (omega arith) (omega arith))
          (elim (Bool-cases (ltb 0 (dx.left - size))) [
            | inl more ↦ rw more (v', inl refl)
            | inr full ↦ rw full (
                complete-ends dx' u buffer bp col (col + size) v' hb hp (omega arith)
                  (ground arith))
          ])
  ]
