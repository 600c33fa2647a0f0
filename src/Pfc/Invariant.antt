-- ===== src/Pfc/Invariant.antt =====
-- The invariant of the demultiplexer, and what keeps it.
use zvbi.Prelude.{
  ℕ, ◌+◌, ◌-◌, ◌≤◌, ◌<◌, ◌≡◌, ◌⊎◌, List, ◌++◌, ◌∙◌, minus_one, length, take, drop, returns,
  memcpy-returns, length-memcpy, arith,
}
use zvbi.Pfc.Decode.{fill}
use zvbi.Pfc.State.{PfcDemux, reset, init}

-- What is still to come fits the block, and is the rest of a structure header or of the data that
-- the header announced.
pub record IsValid (dx : PfcDemux) : Type 0 where
  pub capacity : length dx.block.bytes ≡ 2048
  pub room : dx.bi + dx.left ≤ 2048
  pub id : (dx.block.application_id ≡ minus_one) ⊎ (dx.block.application_id < 32)
  pub header : dx.block.application_id ≡ minus_one → 0 < dx.left → dx.bi + dx.left ≡ 4
  pub body : dx.block.application_id < 32 → 0 < dx.left → dx.bi + dx.left ≡ dx.block.block_size

-- No packet and no block is expected.
pub record IsReset (dx : PfcDemux) : Type 0 where
  pub no_page : dx.ci ≡ 256
  pub no_packet : dx.packet ≡ 256
  pub none_left : dx.n_packets ≡ 0
  pub empty : dx.bi ≡ 0
  pub no_block : dx.left ≡ 0
  pub no_id : dx.block.application_id ≡ minus_one

pub reset-IsReset : (dx : PfcDemux) → IsReset (reset dx)
unfolding reset
reset-IsReset dx = ground arith

pub reset-IsValid : (dx : PfcDemux) → length dx.block.bytes ≡ 2048 → IsValid (reset dx)
unfolding reset
reset-IsValid dx h = ground arith

-- _vbi_pfc_demux_init makes of any memory with a block buffer of 2048 bytes a valid
-- demultiplexer that expects no packet and no block.
pub init-IsValid :
    (memory : PfcDemux) (pgno stream : ℕ)
    → length memory.block.bytes ≡ 2048
    → IsValid (init memory pgno stream) × IsReset (init memory pgno stream)
unfolding init
init-IsValid memory pgno stream h = ground arith

-- The state after `size` bytes from column `col` on were copied behind those already there.
abbrev pub filled : PfcDemux → List ℕ → ℕ → ℕ → PfcDemux
filled dx buffer col size = record dx {
  bi = dx.bi + size;
  left = dx.left - size;
  block = record (dx.block) {
    bytes =
        take dx.bi dx.block.bytes
        ++ (take size (drop col buffer) ++ drop (dx.bi + size) dx.block.bytes);
  };
}

module _ (dx : PfcDemux) (buffer : List ℕ) (col size : ℕ) (v : IsValid dx) (fits : size ≤ dx.left)
    (inside : col + size ≤ length buffer) where
  pub fill-returns : fill dx buffer col size ≡ returns (filled dx buffer col size)
  unfolding fill
  fill-returns = rw (memcpy-returns dx.block.bytes dx.bi buffer col size (omega arith) inside)

  pub filled-IsValid : IsValid (filled dx buffer col size)
  filled-IsValid = record {
    capacity = length-memcpy dx.block.bytes dx.bi buffer col size (omega arith) inside ∙ v.capacity;
    room = omega arith;
    id = v.id;
    header = λ e p. omega arith;
    body = λ e p. omega arith;
  }
