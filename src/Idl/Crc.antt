-- ===== src/Idl/Crc.antt =====
-- src/idl_demux.c: `init_crc16_table`, and the check of a packet in `idl_a_demux_feed`.
use zvbi.Prelude.{
  ℕ, zero, suc, ◌+◌, List, bit_and, bit_xor, set, for_below, u16, u32, complement, ◌>>>◌, Outcome,
  returns, ◌>>=◌, read,
}

-- The inner loop.
unfoldable pub crc16_entry : ℕ → ℕ → ℕ → ℕ → ℕ
crc16_entry zero poly crc val = crc
crc16_entry (suc rounds) poly crc val =
    crc16_entry rounds poly
      (bit_xor (crc >>> 1)
        (bit_and poly (u32 (bit_and 1 (complement (bit_xor val crc)) + 0xffffffff))))
      (val >>> 1)

unfoldable pub init_crc16_table : List ℕ → ℕ → List ℕ
unfolding crc16_entry
init_crc16_table table poly = for_below 256 (λ i t. set t i (u16 (crc16_entry 8 poly 0 i))) table

-- The sum over the packet, on the `n` bytes from column `j` on.
unfoldable pub crc_loop : List ℕ → ℕ → List ℕ → ℕ → ℕ → Outcome ℕ
crc_loop table zero buffer j crc = returns crc
crc_loop table (suc n) buffer j crc = do
  b ← read buffer j
  t ← read table (bit_xor (bit_and crc 0xff) b)
  crc_loop table n buffer (j + 1) (bit_xor (crc >>> 8) t)
