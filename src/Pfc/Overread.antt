-- ===== src/Pfc/Overread.antt =====
-- `_vbi_pfc_demux_decode` on a buffer of exactly 42 bytes, the size its documentation asks for,
-- when a block ends with the packet.
use zvbi.Hamm.{unham8}
use zvbi.Pfc.Collect.{HasPointer, decode-loop}
use zvbi.Pfc.Decode.{skip_filler, next_block, complete, round, loop, decode}
use zvbi.Pfc.Invariant.{IsValid, filled, fill-returns}
use zvbi.Pfc.State.{PfcBlock, PfcDemux}
use zvbi.Prelude.{
  ℕ, suc, ◌-◌, ◌*◌, ◌<◌, ◌≡◌, refl, ◌∙◌, Bool, true, false, List, [], ◌∷◌, ltb, lt→ltb, min,
  is_negative, length, drop, get_or, out_of_bounds, arith, length-drop,
}

scan_past_end : (rest : List ℕ) (col : ℕ) → length rest ≡ 0 → skip_filler rest col ≡ out_of_bounds
unfolding skip_filler
scan_past_end [] col h = refl
scan_past_end (b ∷ rest) col h = absurd (omega arith)

module _ {U : Type 0} (callback : U → PfcBlock → U × Bool) where
  loop-out_of_bounds :
      (fuel : ℕ) (dx : PfcDemux) (u : U) (buffer : List ℕ) (bp col : ℕ)
      → col < 42
      → round callback dx u buffer bp col ≡ out_of_bounds
      → loop callback (suc fuel) dx u buffer bp col ≡ out_of_bounds
  unfolding loop
  loop-out_of_bounds fuel dx u buffer bp col h e = rw (lt→ltb col 42 h, e)

  complete-overreads :
      (dx : PfcDemux) (u : U) (buffer : List ℕ) (bp : ℕ)
      → length buffer ≡ 42
      → is_negative dx.block.application_id ≡ false
      → (callback u dx.block).1 ≡ true
      → complete callback dx u buffer bp 42 ≡ out_of_bounds
  unfolding complete next_block
  complete-overreads dx u buffer bp n body accepted =
      rw (body, accepted, scan_past_end (drop 42 buffer) 42 (omega (arith, length-drop 42 buffer)))

  round-overreads :
      (dx : PfcDemux) (u : U) (buffer : List ℕ) (bp : ℕ)
      → IsValid dx
      → length buffer ≡ 42
      → dx.left ≡ 39
      → is_negative dx.block.application_id ≡ false
      → (callback u (filled dx buffer 3 39).block).1 ≡ true
      → round callback dx u buffer bp 3 ≡ out_of_bounds
  unfolding round
  round-overreads dx u buffer bp v n full body accepted =
      let size : min dx.left (42 - 3) ≡ 39 = omega arith in
      let done : ltb 0 (dx.left - 39) ≡ false = ground arith in
      rw
        (
          lt→ltb 0 dx.left (omega arith),
          size,
          fill-returns dx buffer 3 39 v (omega arith) (omega arith),
          done,
        )
        (complete-overreads (filled dx buffer 3 39) u buffer bp n body accepted)

  -- _vbi_pfc_demux_decode on a buffer of exactly 42 bytes, with a readable block pointer, for
  -- a valid demultiplexer with an application ID below 32 whose block ends with the packet,
  -- and a callback that accepts the block, reads outside the buffer.
  pub decode-overreads :
      (dx : PfcDemux) (u : U) (buffer : List ℕ)
      → IsValid dx
      → length buffer ≡ 42
      → HasPointer buffer
      → dx.block.application_id < 32
      → dx.left ≡ 39
      → (callback u (filled dx buffer 3 39).block).1 ≡ true
      → decode callback dx u buffer ≡ out_of_bounds
  decode-overreads dx u buffer v n p body full accepted =
      let bp = unham8 (get_or buffer 2 0) * 3 in
      let id : is_negative dx.block.application_id ≡ false = ground arith in
      decode-loop callback dx u buffer (omega arith) p
      ∙ loop-out_of_bounds 39 dx u buffer bp 3 (omega arith)
          (round-overreads dx u buffer bp v n full id accepted)
