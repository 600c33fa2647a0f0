-- ===== src/Pfc/Decode.antt =====
-- src/pfc_demux.c: `_vbi_pfc_demux_decode`, which collects blocks from the packets of a page.
-- The client's callback is a parameter; `user_data` is its state, of any type. It is taken not to
-- call back into the demultiplexer.
use zvbi.Hamm.{unham8, unham16p}
use zvbi.Prelude.{
  min, ℕ, zero, suc, ◌+◌, ◌-◌, ◌*◌, Bool, true, false, not, ◌||◌, List, [], ◌∷◌, bit_and, ltb, leb,
  ◌==◌, if◌then◌else◌, u32, is_negative, minus_one, ◌>>>◌, drop, Outcome, returns, out_of_bounds,
  out_of_fuel, ◌>>=◌, read, memcpy,
}
use zvbi.Pfc.State.{PfcBlock, PfcDemux, reset}

abbrev pub block_separator : ℕ
block_separator = 0x0c

abbrev pub filler_byte : ℕ
filler_byte = 0x03

-- `sh`: the structure header from the first four bytes of a block.
unfoldable pub structure_header : ℕ → ℕ → ℕ → ℕ → ℕ
structure_header b0 b1 b2 b3 = u32 (unham16p b0 b1 + u32 (unham16p b2 b3 * 256))

-- The `memcpy` and what is updated after it.
unfoldable pub fill : PfcDemux → List ℕ → ℕ → ℕ → Outcome PfcDemux
unfolding memcpy
fill dx buffer col size = do
  bytes ← memcpy dx.block.bytes dx.bi buffer col size
  returns (record dx {
    bi = dx.bi + size;
    left = dx.left - size;
    block = record (dx.block) { bytes = bytes };
  })

-- The search for the next block separator past filler bytes, on what is left of the packet from
-- column `col` on: the packet ends, or a byte that is no filler and the column after it.
pub data Scan : Type 0 where
  end_of_packet : Scan
  found : ℕ → ℕ → Scan

unfoldable pub skip_filler : List ℕ → ℕ → Outcome Scan
skip_filler [] col = out_of_bounds
skip_filler (b ∷ rest) col =
    let more = skip_filler rest (col + 1) in
    if unham8 b == filler_byte
    then (if leb 42 (col + 1) then returns end_of_packet else more)
    else returns (found (unham8 b) (col + 1))

-- What a round of the loop comes to: another one at a column, or a return.
pub data Round {ℓ} (S : Type ℓ) : Type ℓ where
  again : S → ℕ → Round S
  finish : S → Bool → Round S

module _ {U : Type 0} where
  -- `goto desynced`.
  abbrev pub desynced : PfcDemux → U → Round (PfcDemux × U)
  desynced dx u = finish (reset dx, u) false

  -- The test of `bs`, and the start of a block at its structure header.
  unfoldable pub start_block : PfcDemux → U → ℕ → ℕ → Round (PfcDemux × U)
  start_block dx u bs col =
      if not (bs == block_separator)
      then desynced dx u
      else again
          (
            record dx {
              bi = 0;
              left = 4;
              block = record (dx.block) { application_id = minus_one };
            },
            u,
          )
          col

  unfoldable pub next_block : PfcDemux → U → List ℕ → ℕ → ℕ → Outcome (Round (PfcDemux × U))
  unfolding start_block
  next_block dx u buffer bp col =
      if leb col 3
      then (if leb 39 bp
          then returns (finish (dx, u) true)
          else read buffer (bp + 4 - 1) >>= λ b. returns (start_block dx u (unham8 b) (bp + 4)))
      else skip_filler (drop col buffer) col >>= elim [
        | end_of_packet ↦ returns (finish (dx, u) true)
        | found bs col' ↦ returns (start_block dx u bs col')
      ]

  -- The structure header is complete.
  unfoldable pub apply_header : PfcDemux → U → ℕ → ℕ → Round (PfcDemux × U)
  apply_header dx u sh col =
      if is_negative sh
      then desynced dx u
      else again
          (
            record dx {
              bi = 0;
              left = sh >>> 5;
              block = record (dx.block) { application_id = bit_and sh 0x1f; block_size = sh >>> 5 };
            },
            u,
          )
          col

  unfoldable pub open_block : PfcDemux → U → ℕ → Outcome (Round (PfcDemux × U))
  unfolding structure_header apply_header
  open_block dx u col = do
    b0 ← read dx.block.bytes 0
    b1 ← read dx.block.bytes 1
    b2 ← read dx.block.bytes 2
    b3 ← read dx.block.bytes 3
    returns (apply_header dx u (structure_header b0 b1 b2 b3) col)

module _ {U : Type 0} (callback : U → PfcBlock → U × Bool) where
  -- A structure header or a block is complete at column `col`.
  unfoldable pub complete : PfcDemux → U → List ℕ → ℕ → ℕ → Outcome (Round (PfcDemux × U))
  unfolding open_block next_block
  complete dx u buffer bp col =
      if is_negative dx.block.application_id
      then open_block dx u col
      else (let (u', accepted) = callback u dx.block in
          if not accepted then returns (desynced dx u') else next_block dx u' buffer bp col)

  -- The body of the loop.
  unfoldable pub round : PfcDemux → U → List ℕ → ℕ → ℕ → Outcome (Round (PfcDemux × U))
  unfolding fill complete next_block
  round dx u buffer bp col =
      if ltb 0 dx.left
      then (let size = min dx.left (42 - col) in
          fill dx buffer col size >>= λ dx'.
          if ltb 0 dx'.left
          then returns (finish (dx', u) true)
          else complete dx' u buffer bp (col + size))
      else next_block dx u buffer bp col

  -- `while (col < 42)`.
  unfoldable pub loop : ℕ → PfcDemux → U → List ℕ → ℕ → ℕ → Outcome ((PfcDemux × U) × Bool)
  loop zero dx u buffer bp col = out_of_fuel
  loop (suc fuel) dx u buffer bp col =
      if ltb col 42
      then round dx u buffer bp col >>= elim [
        | again (dx', u') col' ↦ loop fuel dx' u' buffer bp col'
        | finish s ok ↦ returns (s, ok)
      ]
      else returns ((dx, u), true)

  -- `_vbi_pfc_demux_decode`. The column grows in every round, so 40 rounds are enough.
  unfoldable pub decode : PfcDemux → U → List ℕ → Outcome ((PfcDemux × U) × Bool)
  decode dx u buffer = do
    b ← read buffer 2
    let bp = u32 (unham8 b * 3)
    (if is_negative bp || ltb 39 bp
        then returns ((reset dx, u), false)
        else loop 40 dx u buffer bp 3)
