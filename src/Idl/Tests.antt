-- ===== src/Idl/Tests.antt =====
-- Runs of the demultiplexer, and the theorems about it at an input.
use zvbi.Idl.Crc.{init_crc16_table, crc_loop}
use zvbi.Idl.Data.{data_loop, start_hist}
use zvbi.Idl.Demux.{format_a, IdlDemux, feed}
use zvbi.Idl.Dummy.{counted, without_eighth}
use zvbi.Idl.Flags.{unflagged, feed-unflagged}
use zvbi.Idl.Invariant.{IsValid, Keeps}
use zvbi.Idl.Kept.{others, data_loop-start_hist, data_loop-others}
use zvbi.Idl.Safety.{feed-Keeps}
use zvbi.Idl.Serial.{shift_bytes, length-table, crc_loop-shift_bytes}
use zvbi.Prelude.{
  ℕ, zero, suc, ◌≡◌, inl, refl, Bool, true, List, [], ◌∷◌, replicate, length-replicate, take, drop,
  length, minus_one, returns, Ends, AreBytes, arith,
}

abbrev zeros : List ℕ
zeros = replicate 256 0

zeros-256 : length zeros ≡ 256
zeros-256 = length-replicate {A = ℕ} 256 0

abbrev table : List ℕ
table = init_crc16_table zeros 0x8940

-- A client that keeps the bytes of the last packet.
abbrev keep_last : List ℕ → List ℕ → ℕ → List ℕ × Bool
keep_last u bytes flags = (bytes, true)

abbrev fresh : IdlDemux
fresh = record {
  format = format_a;
  channel = 1;
  address = 0;
  ci = minus_one;
  ri = minus_one;
  flags = 0;
}

fresh-IsValid : IsValid fresh
fresh-IsValid = record { continuity = inl refl; repeat = inl refl; no_other_flag = omega arith }

-- Channel 1, format A without any indicator, no address, and 36 bytes of zero.
abbrev packet : List ℕ
packet = 0x02 ∷ 0xea ∷ 0x15 ∷ 0x15 ∷ replicate 38 0

all_zero : (n : ℕ) → AreBytes (replicate n 0)
all_zero zero = tt
all_zero (suc n) = (omega arith, all_zero n)

packet-AreBytes : AreBytes packet
packet-AreBytes = (omega arith, (omega arith, (omega arith, (omega arith, all_zero 38))))

-- Four of the 36 bytes are taken for dummy bytes.
dummy_run : length (without_eighth 1 0 (replicate 36 0)) ≡ 32
dummy_run = refl

crc_loop-shift_bytes_example :
    crc_loop table 38 packet 4 0 ≡ returns (shift_bytes 0 (take 38 (drop 4 packet)))
crc_loop-shift_bytes_example =
    crc_loop-shift_bytes zeros zeros-256 38 packet 4 0 packet-AreBytes (omega arith)

data_loop-start_hist_example :
    data_loop 36 packet 4 (start_hist zeros 0) []
    ≡ returns (without_eighth (counted 0 0x00 0) (counted 0 0xff 0) (take 36 (drop 4 packet)))
data_loop-start_hist_example =
    data_loop-start_hist zeros packet 0 36 4 zeros-256 (omega arith) packet-AreBytes (omega arith)
      (omega arith)

data_loop-others_example :
    (out : List ℕ) × (data_loop 36 packet 4 (start_hist zeros 0) [] ≡ returns out)
    × (others out ≡ others (take 36 (drop 4 packet)))
data_loop-others_example =
    data_loop-others zeros packet 0 36 4 zeros-256 (omega arith) packet-AreBytes (omega arith)
      (omega arith)

feed-unflagged_example :
    feed keep_last table zeros fresh [] packet
    ≡ feed (unflagged keep_last) table zeros fresh [] packet
feed-unflagged_example = feed-unflagged keep_last table zeros fresh [] packet (omega arith)

feed-Keeps_example : Ends (Keeps fresh) (feed keep_last table zeros fresh [] packet)
feed-Keeps_example =
    feed-Keeps keep_last table zeros fresh [] packet (length-table zeros zeros-256) zeros-256
      fresh-IsValid packet-AreBytes refl
