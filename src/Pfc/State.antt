-- ===== src/Pfc/State.antt =====
-- src/pfc_demux.h and src/pfc_demux.c: the demultiplexer's state, its reset and its initialisation.
use zvbi.Prelude.{ℕ, List, minus_one}

-- `vbi_pfc_block`.
pub record PfcBlock : Type 0 where
  pub pgno : ℕ
  pub stream : ℕ
  pub application_id : ℕ
  pub block_size : ℕ
  pub bytes : List ℕ

-- `struct _vbi_pfc_demux`, without the callback.
pub record PfcDemux : Type 0 where
  pub ci : ℕ
  pub packet : ℕ
  pub n_packets : ℕ
  pub bi : ℕ
  pub left : ℕ
  pub block : PfcBlock

-- `vbi_pfc_demux_reset`.
unfoldable pub reset : PfcDemux → PfcDemux
reset dx = record dx {
  ci = 256;
  packet = 256;
  n_packets = 0;
  bi = 0;
  left = 0;
  block = record (dx.block) { application_id = minus_one };
}

-- `_vbi_pfc_demux_init`, on fresh memory of any content.
unfoldable pub init : PfcDemux → ℕ → ℕ → PfcDemux
unfolding reset
init memory pgno stream =
    let dx = reset memory in
    record dx { block = record (dx.block) { pgno = pgno; stream = stream } }
