-- ===== src/Idl/Data.antt =====
-- src/idl_demux.c: the loop of `idl_a_demux_feed` over the user data.
use zvbi.Prelude.{
  ℕ, zero, suc, ◌+◌, List, [], ◌∷◌, ◌++◌, bit_or, leb, if◌then◌else◌, length, set, u8, has_bits,
  Outcome, returns, out_of_bounds, ◌>>=◌, read,
}

-- One byte: the counts `hist` of bytes, and the bytes in `buf`, an array of 40.
unfoldable pub take_byte : List ℕ → List ℕ → ℕ → Outcome (List ℕ × List ℕ)
take_byte hist buf t = do
  n ← read hist t
  let hist' = set hist t (u8 (n + 1))
  zeros ← read hist' 0x00
  ones ← read hist' 0xff
  (if has_bits (bit_or zeros ones) 8
      then returns (set (set hist' 0x00 0) 0xff 0, buf)
      else if leb 40 (length buf)
      then out_of_bounds
      else returns (hist', buf ++ (t ∷ [])))

-- `while (dl-- > 0)`, from column `k` on.
unfoldable pub data_loop : ℕ → List ℕ → ℕ → List ℕ → List ℕ → Outcome (List ℕ)
unfolding take_byte
data_loop zero buffer k hist buf = returns buf
data_loop (suc dl) buffer k hist buf =
    read buffer k >>= λ t. take_byte hist buf t >>= λ r. data_loop dl buffer (k + 1) r.0 r.1

-- The counts at the start, in memory of any content.
unfoldable pub start_hist : List ℕ → ℕ → List ℕ
start_hist memory ci = set (set (set memory 0x00 0) 0xff 0) ci 1
