-- ===== src/Pfc/Deliver.antt =====
-- The block that the callback is given, over all the packets that carry it.
use mathlib.Core.List.{append_assoc, append-nil}
use zvbi.Hamm.{unham8}
use zvbi.Pfc.Collect.{
  gathered, gathered-filled, payload, HasPointer, decode-loop, loop-finish, decode-filled,
}
use zvbi.Pfc.Decode.{
  finish, end_of_packet, filler_byte, skip_filler, next_block, complete, round, decode,
}
use zvbi.Pfc.Invariant.{IsValid, filled, fill-returns, filled-IsValid}
use zvbi.Pfc.State.{PfcBlock, PfcDemux, reset}
use zvbi.Prelude.{
  ℕ, zero, suc, ◌+◌, ◌-◌, ◌*◌, ◌≤◌, ◌<◌, ◌≡◌, inl, inr, refl, sym, ap, ap₂, ◌∙◌, Bool, true, false,
  Bool-cases, List, [], ◌∷◌, ◌++◌, if◌then◌else◌, ltb, leb, lt→ltb, min, is_negative, length, take,
  drop, get_or, Outcome, returns, out_of_bounds, out_of_fuel, ◌>>=◌, arith, length-drop,
}

abbrev pub IsPacket : List ℕ → Type 0
IsPacket buffer = (length buffer ≡ 42) × HasPointer buffer

abbrev pub ArePackets : List (List ℕ) → Type 0
ArePackets [] = Unit {0}
ArePackets (b ∷ bs) = IsPacket b × ArePackets bs

abbrev pub payloads : List (List ℕ) → List ℕ
payloads [] = []
payloads (b ∷ bs) = payload b ++ payloads bs

abbrev pub AllFiller : List ℕ → Type 0
AllFiller [] = Unit {0}
AllFiller (b ∷ bs) = (unham8 b ≡ filler_byte) × AllFiller bs

-- The state after packets that all end within the block.
abbrev pub gather : PfcDemux → List (List ℕ) → PfcDemux
gather dx [] = dx
gather dx (b ∷ bs) = gather (filled dx b 3 39) bs

gather-gathered :
    (dx : PfcDemux) (ps : List (List ℕ))
    → IsValid dx
    → ArePackets ps
    → 39 * length ps < dx.left
    → IsValid (gather dx ps)
      × (gathered (gather dx ps) ≡ gathered dx ++ payloads ps)
      × ((gather dx ps).left ≡ dx.left - 39 * length ps)
      × ((gather dx ps).block.application_id ≡ dx.block.application_id)
      × ((gather dx ps).block.block_size ≡ dx.block.block_size)
gather-gathered dx [] v h k = (v, sym (append-nil (gathered dx)), omega arith, refl, refl)
gather-gathered dx (b ∷ bs) v h k =
    let dx' = filled dx b 3 39 in
    let v' = filled-IsValid dx b 3 39 v (omega arith) (omega arith) in
    let rest = gather-gathered dx' bs v' h.1 (omega arith) in
    (
      rest.0,
      rest.1
          ∙ ap (λ t. t ++ payloads bs) (gathered-filled dx b 3 39 v (omega arith) (omega arith))
          ∙ append_assoc (gathered dx) (payload b) (payloads bs),
      omega (arith, rest.2),
      rest.3,
      rest.4,
    )

skip_filler_all :
    (rest : List ℕ) (col : ℕ)
    → AllFiller rest
    → length rest + col ≡ 42
    → 0 < length rest
    → skip_filler rest col ≡ returns end_of_packet
unfolding skip_filler
skip_filler_all [] col h e p = absurd (omega arith)
skip_filler_all (b ∷ []) col h e p = rw h.0 (ground arith)
skip_filler_all (b ∷ c ∷ rest) col h e p =
    let more : leb 42 (col + 1) ≡ false = ground arith in
    rw (h.0, more) (skip_filler_all (c ∷ rest) (col + 1) h.1 (omega arith) (omega arith))

-- What the answer of the callback leads to.
abbrev pub answered : {U : Type 0} → PfcDemux → U × Bool → (PfcDemux × U) × Bool
answered dx r = ((if r.1 then dx else reset dx, r.0), r.1)

-- The state in which the callback is called, after packets within the block and its last packet.
abbrev pub delivered : PfcDemux → List (List ℕ) → List ℕ → PfcDemux
delivered dx ps q = filled (gather dx ps) q 3 (gather dx ps).left

take_within : (n m : ℕ) (xs : List ℕ) → n ≤ m → take n (take m xs) ≡ take n xs
take_within zero m xs h = refl
take_within (suc n) zero xs h = absurd (omega arith)
take_within (suc n) (suc m) [] h = refl
take_within (suc n) (suc m) (x ∷ xs) h = ap (◌∷◌ x) (take_within n m xs (omega arith))

gathered_start : (dx : PfcDemux) → dx.bi ≡ 0 → gathered dx ≡ []
gathered_start dx start = ap (λ (n : ℕ). take n dx.block.bytes) start

delivered-bytes :
    (dx : PfcDemux) (ps : List (List ℕ)) (q : List ℕ)
    → IsValid dx
    → ArePackets ps
    → length q ≡ 42
    → dx.bi ≡ 0
    → dx.block.application_id < 32
    → 39 * length ps < dx.left
    → dx.left < 39 * length ps + 39
    → take dx.block.block_size (delivered dx ps q).block.bytes
      ≡ payloads ps ++ take (dx.left - 39 * length ps) (payload q)
delivered-bytes dx ps q v h k start body low high =
    let g = gather dx ps in
    let facts = gather-gathered dx ps v h low in
    let gv = facts.0 in
    let size : dx.block.block_size ≡ g.bi + g.left =
      sym (facts.4) ∙ sym (gv.body (omega (arith, facts.3, body)) (omega (arith, facts.2))) in
    let n = dx.left - 39 * length ps in
    ap (λ (m : ℕ). take m (delivered dx ps q).block.bytes) size
    ∙ gathered-filled g q 3 g.left gv (omega arith) (omega (arith, facts.2))
    ∙ ap₂ ◌++◌ (facts.1 ∙ ap (λ (t : List ℕ). t ++ payloads ps) (gathered_start dx start)) (
        ap (λ (m : ℕ). take m (drop 3 q)) facts.2 ∙ sym (take_within n 39 (drop 3 q) (omega arith)))

module _ {U : Type 0} (callback : U → PfcBlock → U × Bool) where
  -- The decoder on one packet after another, up to the first that it refuses.
  abbrev pub decode_all : PfcDemux → U → List (List ℕ) → Outcome ((PfcDemux × U) × Bool)
  decode_all dx u [] = returns ((dx, u), true)
  decode_all dx u (b ∷ bs) = decode callback dx u b >>= λ r. elim r.1 [
    | true ↦ decode_all r.0.0 r.0.1 bs
    | false ↦ returns r
  ]

  decode_all-gather :
      (dx : PfcDemux) (u : U) (ps qs : List (List ℕ))
      → IsValid dx
      → ArePackets ps
      → 39 * length ps < dx.left
      → decode_all dx u (ps ++ qs) ≡ decode_all (gather dx ps) u qs
  decode_all-gather dx u [] qs v h k = refl
  decode_all-gather dx u (b ∷ bs) qs v h k =
      rw (decode-filled callback dx u b v (omega arith) h.0.1 (omega arith)) (
        decode_all-gather (filled dx b 3 39) u bs qs
          (filled-IsValid dx b 3 39 v (omega arith) (omega arith)) h.1 (omega arith))

  module _ (dx : PfcDemux) (u : U) (q : List ℕ) (v : IsValid dx) (packet : IsPacket q)
      (some_left : 0 < dx.left) (here : dx.left ≤ 39) (body : dx.block.application_id < 32) where
    abbrev ready : PfcDemux
    ready = filled dx q 3 dx.left

    round-complete :
        (bp : ℕ) → round callback dx u q bp 3 ≡ complete callback ready u q bp (3 + dx.left)
    unfolding round
    round-complete bp =
        let size : min dx.left (42 - 3) ≡ dx.left = omega arith in
        let full : ltb 0 (dx.left - dx.left) ≡ false = ground arith in
        rw (
          lt→ltb 0 dx.left some_left,
          size,
          fill-returns dx q 3 dx.left v (omega arith) (omega arith),
          full,
        )

    body-not_negative : is_negative dx.block.application_id ≡ false
    body-not_negative = ground arith

    complete-answered :
        (bp : ℕ)
        → dx.left < 39
        → AllFiller (drop (3 + dx.left) q)
        → complete callback ready u q bp (3 + dx.left)
          ≡ returns (finish (answered ready (callback u ready.block)).0 (callback u ready.block).1)
    unfolding complete next_block
    complete-answered bp short filler = elim (Bool-cases (callback u ready.block).1) [
      | inr refused ↦ rw (body-not_negative, refused)
      | inl accepted ↦
          let behind : leb (3 + dx.left) 3 ≡ false = ground arith in
          rw (
            body-not_negative,
            accepted,
            behind,
            skip_filler_all (drop (3 + dx.left) q) (3 + dx.left) filler
                (omega (arith, length-drop (3 + dx.left) q))
                (omega (arith, length-drop (3 + dx.left) q)),
          )
    ]

    decode-answered :
        dx.left < 39
        → AllFiller (drop (3 + dx.left) q)
        → decode callback dx u q ≡ returns (answered ready (callback u ready.block))
    decode-answered short filler =
        let bp = unham8 (get_or q 2 0) * 3 in
        decode-loop callback dx u q (omega arith) packet.1
        ∙ loop-finish callback 39 dx u q bp 3 (omega arith)
            (round-complete bp ∙ complete-answered bp short filler)

  one_more :
      (o : Outcome ((PfcDemux × U) × Bool))
      → (o >>= λ r. elim r.1 [ true ↦ returns (r.0, true) | false ↦ returns r ]) ≡ o
  one_more (returns (s, true)) = refl
  one_more (returns (s, false)) = refl
  one_more out_of_bounds = refl
  one_more out_of_fuel = refl

  -- A valid demultiplexer has the structure header of a block, with an application ID below
  -- 32, and none of its data. It is fed packets of 42 bytes with a readable block pointer:
  -- some that end within the block, then one that holds its end before the last byte and only
  -- filler behind it. Then the block that the callback is given starts with block_size bytes
  -- that are the data of those packets in order, and _vbi_pfc_demux_decode returns what the
  -- callback answers, after a reset where it refuses.
  pub decode_all-delivers :
      (dx : PfcDemux) (u : U) (ps : List (List ℕ)) (q : List ℕ)
      → IsValid dx
      → ArePackets ps
      → IsPacket q
      → dx.bi ≡ 0
      → dx.block.application_id < 32
      → 39 * length ps < dx.left
      → dx.left < 39 * length ps + 39
      → AllFiller (drop (3 + (dx.left - 39 * length ps)) q)
      → (take dx.block.block_size (delivered dx ps q).block.bytes
          ≡ payloads ps ++ take (dx.left - 39 * length ps) (payload q))
        × (decode_all dx u (ps ++ (q ∷ []))
            ≡ returns (answered (delivered dx ps q) (callback u (delivered dx ps q).block)))
  decode_all-delivers dx u ps q v h k start body low high filler =
      let g = gather dx ps in
      let facts = gather-gathered dx ps v h low in
      let tail : AllFiller (drop (3 + g.left) q) = rw (facts.2) filler in
      let last : decode callback g u q
          ≡ returns (answered (delivered dx ps q) (callback u (delivered dx ps q).block)) =
        decode-answered g u q facts.0 k (omega (arith, facts.2)) (omega (arith, facts.2))
          (omega (arith, facts.3)) (omega (arith, facts.2)) tail in
      (
        delivered-bytes dx ps q v h k.0 start body low high,
        decode_all-gather dx u ps (q ∷ []) v h low ∙ one_more (decode callback g u q) ∙ last,
      )
