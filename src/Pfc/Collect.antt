-- ===== src/Pfc/Collect.antt =====
-- What `_vbi_pfc_demux_decode` puts together, over the packets of a block.
use mathlib.Core.List.{append_assoc}
use zvbi.Hamm.{unham8}
use zvbi.Pfc.Decode.{finish, round, loop, decode}
use zvbi.Pfc.Invariant.{IsValid, filled, fill-returns}
use zvbi.Pfc.State.{PfcBlock, PfcDemux}
use zvbi.Prelude.{
  ℕ, suc, ◌+◌, ◌-◌, ◌*◌, ◌≤◌, ◌<◌, ◌≡◌, refl, sym, ap, ◌∙◌, Bool, true, false, List, [], ◌∷◌, ◌++◌,
  ltb, lt→ltb, min, is_negative, length, take, drop, read-get_or, get_or, returns, ◌||◌, u32, arith,
  length-take, length-drop, length-append,
}

-- The bytes of the current block that have come in.
abbrev pub gathered : PfcDemux → List ℕ
gathered dx = take dx.bi dx.block.bytes

-- The data of a packet, behind the magazine, the packet number and the block pointer.
abbrev pub payload : List ℕ → List ℕ
payload buffer = take 39 (drop 3 buffer)

-- The block pointer of a packet can be read, and points into it.
abbrev pub HasPointer : List ℕ → Type 0
HasPointer buffer = unham8 (get_or buffer 2 0) ≤ 13

take_exact : (xs ys : List ℕ) → take (length xs) (xs ++ ys) ≡ xs
take_exact [] ys = refl
take_exact (x ∷ xs) ys = ap (◌∷◌ x) (take_exact xs ys)

take_part : (n : ℕ) (xs ys : List ℕ) → n ≡ length xs → take n (xs ++ ys) ≡ xs
take_part n xs ys e = ap (λ (t : ℕ). take t (xs ++ ys)) e ∙ take_exact xs ys

-- A copy goes behind what is there.
pub gathered-filled :
    (dx : PfcDemux) (buffer : List ℕ) (col size : ℕ)
    → IsValid dx
    → size ≤ dx.left
    → col + size ≤ length buffer
    → gathered (filled dx buffer col size) ≡ gathered dx ++ take size (drop col buffer)
gathered-filled dx buffer col size v fits inside =
    let new = take size (drop col buffer) in
    ap (take (dx.bi + size))
      (sym (append_assoc (gathered dx) new (drop (dx.bi + size) dx.block.bytes)))
    ∙ take_part (dx.bi + size) (gathered dx ++ new) (drop (dx.bi + size) dx.block.bytes) (
        omega (
          arith,
          length-append (gathered dx) new,
          length-take dx.bi dx.block.bytes,
          length-take size (drop col buffer),
          length-drop col buffer,
        ))

module _ {U : Type 0} (callback : U → PfcBlock → U × Bool) where
  pub decode-loop :
      (dx : PfcDemux) (u : U) (buffer : List ℕ)
      → 3 ≤ length buffer
      → HasPointer buffer
      → decode callback dx u buffer
        ≡ loop callback 40 dx u buffer (unham8 (get_or buffer 2 0) * 3) 3
  unfolding decode
  decode-loop dx u buffer h p =
      let bp = unham8 (get_or buffer 2 0) * 3 in
      let same : u32 bp ≡ bp = omega arith in
      let good : (is_negative bp || ltb 39 bp) ≡ false = ground arith in
      rw (read-get_or buffer 2 (omega arith), same, good)

  -- A round that returns ends the loop.
  pub loop-finish :
      (fuel : ℕ) (dx : PfcDemux) (u : U) (buffer : List ℕ) (bp col : ℕ) {s : PfcDemux × U}
      {ok : Bool}
      → col < 42
      → round callback dx u buffer bp col ≡ returns (finish s ok)
      → loop callback (suc fuel) dx u buffer bp col ≡ returns (s, ok)
  unfolding loop
  loop-finish fuel dx u buffer bp col h e = rw (lt→ltb col 42 h, e)

  round-more :
      (dx : PfcDemux) (u : U) (buffer : List ℕ) (bp : ℕ)
      → IsValid dx
      → 42 ≤ length buffer
      → 39 < dx.left
      → round callback dx u buffer bp 3 ≡ returns (finish (filled dx buffer 3 39, u) true)
  unfolding round
  round-more dx u buffer bp v h more =
      let size : min dx.left (42 - 3) ≡ 39 = omega arith in
      rw (
        lt→ltb 0 dx.left (omega arith),
        size,
        fill-returns dx buffer 3 39 v (omega arith) (omega arith),
        lt→ltb 0 (dx.left - 39) (omega arith),
      )

  -- A packet that ends within a block adds its 39 bytes.
  pub decode-filled :
      (dx : PfcDemux) (u : U) (buffer : List ℕ)
      → IsValid dx
      → 42 ≤ length buffer
      → HasPointer buffer
      → 39 < dx.left
      → decode callback dx u buffer ≡ returns ((filled dx buffer 3 39, u), true)
  decode-filled dx u buffer v h p more =
      decode-loop dx u buffer (omega arith) p
      ∙ loop-finish 39 dx u buffer (unham8 (get_or buffer 2 0) * 3) 3 (omega arith)
          (round-more dx u buffer (unham8 (get_or buffer 2 0) * 3) v h more)
