-- ===== src/Pfc/Tests.antt =====
-- Runs of the demultiplexer, and the theorems about it at an input.
use zvbi.Hamm.{unham8, unham16p, inv8}
use zvbi.Pfc.Collect.{decode-filled, payload}
use zvbi.Pfc.Decode.{structure_header, decode}
use zvbi.Pfc.Deliver.{AllFiller, answered, delivered, decode_all, decode_all-delivers}
use zvbi.Pfc.Feed.{feed, feed_frame}
use zvbi.Pfc.Select.{IsPacket, IsAnnounced, IsExpected, feed-IsAnnounced}
use zvbi.Sliced.{Sliced, teletext_b_625}
use zvbi.Pfc.Headers.{structure_header-is_negative}
use zvbi.Pfc.Invariant.{IsValid, IsReset, init-IsValid}
use zvbi.Pfc.Overread.{decode-overreads}
use zvbi.Pfc.Safety.{Settles, decode-Settles, feed_frame-Settles}
use zvbi.Pfc.State.{PfcBlock, PfcDemux, init, reset}
use zvbi.Prelude.{
  ℕ, zero, suc, out_of_fuel, false, ◌+◌, ◌≤◌, ◌≡◌, inr, ◌⊎◌, refl, Bool, true, ◌&&◌, ◌||◌, List, [],
  ◌∷◌, ◌++◌, replicate, length-replicate, take, ◌==◌, is_negative, returns, out_of_bounds, arith,
}

-- A client that counts the blocks it is given.
abbrev counting : ℕ → PfcBlock → ℕ × Bool
counting n b = (n + 1, true)

abbrev blank : List ℕ
blank = replicate 2048 0

abbrev memory : PfcDemux
memory = record {
  ci = 0;
  packet = 0;
  n_packets = 0;
  bi = 0;
  left = 0;
  block = record { pgno = 0; stream = 0; application_id = 0; block_size = 0; bytes = blank };
}

-- A demultiplexer within a block of the given size, at its start.
abbrev opened : ℕ → PfcDemux
opened size = record {
  ci = 1;
  packet = 1;
  n_packets = 3;
  bi = 0;
  left = size;
  block = record { pgno = 0x1df; stream = 0; application_id = 5; block_size = size; bytes = blank };
}

opened-IsValid : (size : ℕ) → size ≤ 2048 → IsValid (opened size)
opened-IsValid size h = record {
  capacity = length-replicate {A = ℕ} 2048 0;
  room = omega (arith, h);
  id = inr (omega arith);
  header = λ e p. absurd (omega arith);
  body = λ e p. omega arith;
}

-- A packet with the pointer 13, which is no start of a block, and one that ends in filler.
abbrev middle : List ℕ
middle = 0x15 ∷ 0x15 ∷ 0xc7 ∷ replicate 39 7

abbrev last : List ℕ
last = 0x15 ∷ 0x15 ∷ 0xc7 ∷ (replicate 11 9 ++ replicate 28 0x5e)

abbrev line : List ℕ
line = middle ++ replicate 14 0

pointer : unham8 0xc7 ≤ 13
unfolding unham8 inv8
pointer = omega arith

filler_run : unham8 0x5e ≡ 3
unfolding unham8 inv8
filler_run = refl

all_filler : (n : ℕ) → AllFiller (replicate n 0x5e)
all_filler zero = tt
all_filler (suc n) = (filler_run, all_filler n)

opened_50 : IsValid (opened 50)
opened_50 = opened-IsValid 50 (omega arith)

-- A packet within a block is taken into it.
decode_run :
    (elim (decode counting (opened 50) 0 middle) [
      | returns r ↦ r.0.0.left
      | out_of_bounds ↦ 999
      | out_of_fuel ↦ 999
    ])
    ≡ 11
decode_run =
    rw (decode-filled counting (opened 50) 0 middle opened_50 (omega arith) pointer (omega arith))
      refl

init-IsValid_example : IsValid (init memory 0x1df 2) × IsReset (init memory 0x1df 2)
init-IsValid_example = init-IsValid memory 0x1df 2 (length-replicate {A = ℕ} 2048 0)

decode-Settles_example : Settles (decode counting (opened 50) 0 line)
decode-Settles_example = decode-Settles counting (opened 50) 0 line opened_50 (omega arith)

abbrev frame : List Sliced
frame = record { id = 4; bytes = line } ∷ record { id = 3; bytes = line } ∷ []

feed_frame-Settles_example : Settles (feed_frame counting (opened 50) 0 frame)
feed_frame-Settles_example =
    feed_frame-Settles counting (opened 50) 0 frame opened_50 (omega arith, (omega arith, tt))

-- 0x70 is no code word, and a following pair 0x02 0x15 hides it.
structure_header-is_negative_example :
    is_negative (structure_header 0x70 0x15 0x02 0x15)
    ≡ is_negative (unham16p 0x02 0x15)
      || is_negative (unham16p 0x70 0x15) && unham16p 0x02 0x15 == 0
structure_header-is_negative_example = structure_header-is_negative 0x70 0x15 0x02 0x15

hidden : is_negative (structure_header 0x70 0x15 0x02 0x15) ≡ false
unfolding structure_header unham16p inv8
hidden = refl

abbrev sent_after : List Sliced
sent_after = record { id = teletext_b_625; bytes = 0xc7 ∷ 0x15 ∷ replicate 40 7 } ∷ []

-- Packet 1 of magazine 1.
address : IsPacket 0xc7 0x15
unfolding unham16p inv8
address = (refl, omega arith)

feed-IsAnnounced_example :
    (IsAnnounced (opened 50) 0xc7 0x15
      × IsExpected (opened 50) 0xc7 0x15
      × (feed counting (opened 50) 0 (0xc7 ∷ 0x15 ∷ replicate 40 7)
          ≡ decode counting (record (opened 50) { packet = 2 }) 0 (0xc7 ∷ 0x15 ∷ replicate 40 7)))
    ⊎ (IsAnnounced (opened 50) 0xc7 0x15
        × (¬ IsExpected (opened 50) 0xc7 0x15)
        × (feed_frame counting
              (opened 50)
              0
              (record { id = teletext_b_625; bytes = 0xc7 ∷ 0x15 ∷ replicate 40 7 } ∷ sent_after)
            ≡ returns ((reset (opened 50), 0), true)))
    ⊎ ((¬ IsAnnounced (opened 50) 0xc7 0x15)
        × (feed counting (opened 50) 0 (0xc7 ∷ 0x15 ∷ replicate 40 7)
            ≡ returns ((opened 50, 0), true)))
feed-IsAnnounced_example =
    feed-IsAnnounced counting (opened 50) 0 0xc7 0x15 (replicate 40 7) sent_after address
      ((λ e. address), tt)

decode_all-delivers_example :
    (take 50 (delivered (opened 50) (middle ∷ []) last).block.bytes
      ≡ (payload middle ++ []) ++ take 11 (payload last))
    × (decode_all counting (opened 50) 0 (middle ∷ last ∷ [])
        ≡ returns (answered (delivered (opened 50) (middle ∷ []) last) (1, true)))
decode_all-delivers_example =
    decode_all-delivers counting (opened 50) 0 (middle ∷ []) last opened_50 ((refl, pointer), tt)
      (refl, pointer) refl (omega arith) (omega arith) (omega arith) (all_filler 28)

decode-overreads_example : decode counting (opened 39) 0 middle ≡ out_of_bounds
decode-overreads_example =
    decode-overreads counting (opened 39) 0 middle (opened-IsValid 39 (omega arith)) refl pointer
      (omega arith) refl refl
