-- ===== src/Xds/Tests.antt =====
-- Runs of the demultiplexer of src/xds_demux.c, and the theorems about it at an input.
use zvbi.Hamm.{unpar8, par8}
use zvbi.Xds.Collect.{AreContents, Delivers, characters, total}
use zvbi.Xds.Deliver.{feed_frame-Delivers, packet_lines}
use zvbi.Xds.Safety.{feed-Settles, init-IsValid, overruns, Settles}
use zvbi.Xds.{
  XdsPacket, XdsSubpacket, XdsDemux, empty_subpacket, subpacket_at, init, feed, feed_frame,
}
use zvbi.Prelude.{
  ℕ, zero, suc, ◌+◌, ◌*◌, ◌%◌, ap, ◌<◌, ◌≡◌, ◌&&◌, refl, List, [], ◌∷◌, length, get_or, replicate,
  Bool, true, not, none, bit_or, is_negative, Ends, arith,
}

-- Memory that still has a count in every subpacket.
abbrev stale : XdsSubpacket
stale = record { contents = replicate 32 0; count = 7; checksum = 1 }

abbrev memory : XdsDemux
memory = record {
  subpackets = replicate 168 stale;
  curr = record { xds_class = 0; xds_subclass = 0; buffer_size = 0; buffer = replicate 36 0 };
  curr_sp = none;
}

get_or-replicate :
    (n k : ℕ) (sp : XdsSubpacket) → k < n → get_or (replicate n sp) k empty_subpacket ≡ sp
get_or-replicate zero k sp h = absurd (omega arith)
get_or-replicate (suc n) zero sp h = refl
get_or-replicate (suc n) (suc k) sp h = get_or-replicate n k sp (omega arith)

memory-size : (k : ℕ) → k < 168 → length (subpacket_at memory k).contents ≡ 32
memory-size k h = ap (λ (sp : XdsSubpacket). length sp.contents) (get_or-replicate 168 k stale h)

abbrev accept : XdsPacket → Bool
accept xp = true

-- The letters of a network name, and the sum that completes them.
abbrev letters : List (ℕ × ℕ)
letters = (0x4B, 0x51) ∷ (0x45, 0x44) ∷ []

letters-AreContents : AreContents letters
unfolding AreContents
letters-AreContents = (
  (omega arith, omega arith, omega arith, omega arith),
  ((omega arith, omega arith, omega arith, omega arith), tt),
)

letters_sum : (2 * 2 + 1 + 1 + total letters + (0x0F + 0x46)) % 128 ≡ 0
unfolding total
letters_sum = refl

feed_frame-Delivers_example :
    Ends
      (λ r. Delivers accept 2 1 (characters letters) r.1)
      (feed_frame accept (init memory) (packet_lines 2 1 letters 0x46))
feed_frame-Delivers_example =
    feed_frame-Delivers accept (init memory) 2 1 letters 0x46
      (init-IsValid memory refl memory-size refl) (omega arith) (omega arith) letters-AreContents
      (omega arith) (omega arith) (omega arith) letters_sum

feed-Settles_example :
    Settles
      (not (is_negative (bit_or (unpar8 (par8 5)) (unpar8 (par8 1))))
        && overruns (init memory) (unpar8 (par8 5)))
      (feed accept (init memory) (par8 5) (par8 1))
feed-Settles_example =
    feed-Settles accept (init memory) (par8 5) (par8 1) (init-IsValid memory refl memory-size refl)
