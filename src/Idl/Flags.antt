-- ===== src/Idl/Flags.antt =====
-- The flags that `idl_a_demux_feed` gives to the callback.
use zvbi.Hamm.{unham8}
use zvbi.Idl.Crc.{crc_loop}
use zvbi.Idl.Demux.{
  format_a, format_b, datavideo, audetel, lbra, IdlDemux, data_lost, damaged, check_repeat,
  check_continuity, spa_loop, deliver, check_packet, idl_a_demux_feed, feed,
}
use zvbi.Prelude.Bits.Fields.{bit_or-lt}
use zvbi.Prelude.{
  ℕ, zero, suc, ◌+◌, ◌-◌, ◌<◌, ◌≡◌, refl, ap, ap₂, ◌<<<◌, Bool, true, false, not, ◌||◌, List,
  bit_and, bit_or, bit_xor, ◌==◌, if◌then◌else◌, has_bits, is_negative, complement, Outcome,
  returns, out_of_bounds, out_of_fuel, ◌>>=◌, read, arith,
}

same_after :
    {A B : Type 0} (o : Outcome A) (f g : A → Outcome B)
    → ((a : A) → f a ≡ g a)
    → (o >>= f) ≡ (o >>= g)
same_after (returns a) f g h = h a
same_after out_of_bounds f g h = refl
same_after out_of_fuel f g h = refl

pub no_flags : (flags : ℕ) → flags < 2 → bit_and flags (complement data_lost) ≡ 0
no_flags zero h = refl
no_flags (suc zero) h = refl
no_flags (suc (suc n)) h = absurd (omega arith)

check_repeat-flags : (dx : IdlDemux) (ri : ℕ) → dx.flags < 2 → (check_repeat dx ri).0.flags < 2
unfolding check_repeat
check_repeat-flags dx ri h = ground (arith, bit_or-lt 1 dx.flags 1)

check_continuity-flags :
    (dx : IdlDemux) (ci : ℕ) → dx.flags < 2 → (check_continuity dx ci).flags < 2
unfolding check_continuity
check_continuity-flags dx ci h = ground (arith, bit_or-lt 1 dx.flags 1)

if_last :
    {A : Type 0} (b c : Bool) (x y p q : A)
    → p ≡ q
    → (if b then x else if c then y else p) ≡ (if b then x else if c then y else q)
if_last b c x y p q h = rw h

module _ {U : Type 0} (callback : U → List ℕ → ℕ → U × Bool) where
  -- The callback, asked as if no flag were set.
  abbrev pub unflagged : U → List ℕ → ℕ → U × Bool
  unflagged u bytes flags = callback u bytes 0

  deliver-unflagged :
      (memory : List ℕ) (dx : IdlDemux) (u : U) (buffer : List ℕ) (ft ial ci k : ℕ)
      → dx.flags < 2
      → deliver callback memory dx u buffer ft ial ci k
        ≡ deliver unflagged memory dx u buffer ft ial ci k
  unfolding deliver
  deliver-unflagged memory dx u buffer ft ial ci k h = rw (no_flags dx.flags h)

  check_packet-unflagged :
      (table memory : List ℕ) (dx : IdlDemux) (u : U) (buffer : List ℕ) (ft ial ri k : ℕ)
      → dx.flags < 2
      → check_packet callback table memory dx u buffer ft ial ri k
        ≡ check_packet unflagged table memory dx u buffer ft ial ri k
  unfolding check_packet
  check_packet-unflagged table memory dx u buffer ft ial ri k h =
      same_after (crc_loop table (42 - k) buffer k 0) _ _ (λ sum.
        same_after (read buffer k) _ _ (λ ci_byte.
          let ci = if has_bits ft 4 then ci_byte else bit_and sum 0xff in
          let crc = if has_bits ft 4 then sum else bit_xor sum (bit_or ci (ci <<< 8)) in
          let k' = if has_bits ft 4 then k + 1 else k in
          let s = check_repeat dx ri in
          if_last (not (crc == 0)) (not s.1) (returns ((damaged dx ri, u), false))
            (returns ((s.0, u), true))
            (deliver callback memory (check_continuity s.0 ci) u buffer ft ial ci k')
            (deliver unflagged memory (check_continuity s.0 ci) u buffer ft ial ci k')
            (deliver-unflagged memory (check_continuity s.0 ci) u buffer ft ial ci k'
              (check_continuity-flags s.0 ci (check_repeat-flags dx ri h)))))

  idl_a_demux_feed-unflagged :
      (table memory : List ℕ) (dx : IdlDemux) (u : U) (buffer : List ℕ) (ft : ℕ)
      → dx.flags < 2
      → idl_a_demux_feed callback table memory dx u buffer ft
        ≡ idl_a_demux_feed unflagged table memory dx u buffer ft
  unfolding idl_a_demux_feed
  idl_a_demux_feed-unflagged table memory dx u buffer ft h = same_after (read buffer 3) _ _ (λ b3.
      let ial = unham8 b3 in
      let n = bit_and ial 7 in
      ap
        (λ (p : Outcome ((IdlDemux × U) × Bool)).
          if is_negative ial
          then returns ((dx, u), false)
          else if n == 7
          then returns ((dx, u), true)
          else p)
        (same_after (spa_loop n buffer 0 0) _ _ (λ spa. same_after (read buffer (4 + n)) _ _ (λ ri.
          ap₂
            (λ (p q : Outcome ((IdlDemux × U) × Bool)).
              if is_negative spa
              then returns ((dx, u), false)
              else if not (spa == dx.address)
              then returns ((dx, u), true)
              else if has_bits ft 2
              then p
              else q)
            (check_packet-unflagged table memory dx u buffer ft ial ri (4 + n + 1) h)
            (check_packet-unflagged table memory dx u buffer ft ial 0 (4 + n) h)))))

  -- For a demultiplexer with no other flag than VBI_IDL_DATA_LOST, vbi_idl_demux_feed does
  -- what it does with a callback that is always given flags 0.
  pub feed-unflagged :
      (table memory : List ℕ) (dx : IdlDemux) (u : U) (buffer : List ℕ)
      → dx.flags < 2
      → feed callback table memory dx u buffer ≡ feed unflagged table memory dx u buffer
  unfolding feed
  feed-unflagged table memory dx u buffer h = same_after (read buffer 0) _ _ (λ b0.
      same_after (read buffer 1) _ _ (λ b1. same_after (read buffer 2) _ _ (λ b2.
        let ft = unham8 b2 in
        ap
          (λ (p : Outcome ((IdlDemux × U) × Bool)).
            if is_negative (bit_or (unham8 b0) (unham8 b1))
            then returns ((dx, u), false)
            else if not (unham8 b1 == 15) || not (unham8 b0 == dx.channel)
            then returns ((dx, u), true)
            else elim dx.format [
              | format_a ↦
                  if is_negative ft
                  then returns ((dx, u), false)
                  else if bit_and ft 1 == 0
                  then p
                  else returns ((dx, u), true)
              | format_b ↦
                  if is_negative ft
                  then returns ((dx, u), false)
                  else returns ((dx, u), not (bit_and ft 3 == 1))
              | datavideo ↦ returns ((dx, u), false)
              | audetel ↦ returns ((dx, u), false)
              | lbra ↦ returns ((dx, u), false)
            ])
          (idl_a_demux_feed-unflagged table memory dx u buffer ft h))))
