-- ===== src/Sliced.antt =====
-- src/sliced.h: what the demultiplexers read of a line of sliced data.
use zvbi.Prelude.{ℕ, List}

-- `vbi_sliced`, without the line number.
pub record Sliced : Type 0 where
  pub id : ℕ
  pub bytes : List ℕ

-- VBI_SLICED_TELETEXT_B_625.
abbrev pub teletext_b_625 : ℕ
teletext_b_625 = 0x00000003
