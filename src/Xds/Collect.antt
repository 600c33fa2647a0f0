-- ===== src/Xds/Collect.antt =====
-- A packet that the demultiplexer of src/xds_demux.c collects, pair by pair.
use zvbi.Hamm.{unpar8, par8}
use zvbi.Xds.Invariant.{IsValid}
use zvbi.Xds.Safety.{stored, completed-returns}
use zvbi.Xds.{
  XdsPacket, XdsSubpacket, XdsDemux, CaptionLine, caption_525, subpacket_at, empty_subpacket,
  header, terminator, contents_pair, dispatch, feed,
}
use zvbi.Prelude.Bits.Fields.{bit_and_low, bit_or-lt}
use zvbi.Prelude.{
  ℕ, zero, suc, ◌+◌, ◌-◌, ◌*◌, ◌/◌, ◌%◌, ◌^◌, ◌<◌, ◌≤◌, ◌≡◌, refl, ap, ◌∙◌, List, [], ◌∷◌, ◌++◌,
  length, get_or, set, take, drop, length-set, get_or-set_self, some, ◌==◌, ltb, leb, ◌||◌, Bool,
  true, false, u32, has_bits, is_negative, bit_or, Ends, length-append, length-memcpy, all_below,
  eq_below, arith,
}

-- A line with two characters of seven bits, and parity.
abbrev pub caption_line : ℕ × ℕ → CaptionLine
caption_line p = record { id = caption_525; line = 284; bytes = par8 p.0 ∷ par8 p.1 ∷ [] }

-- The characters of pairs, and their sum.
unfoldable pub characters : List (ℕ × ℕ) → List ℕ
characters [] = []
characters (p ∷ ps) = p.0 ∷ p.1 ∷ characters ps

unfoldable pub total : List (ℕ × ℕ) → ℕ
total [] = 0
total (p ∷ ps) = p.0 + p.1 + total ps

-- Pairs of characters of the contents, none of which ends with a null.
unfoldable pub AreContents : List (ℕ × ℕ) → Type 0
AreContents [] = Unit {0}
AreContents (p ∷ ps) = ((0x20 ≤ p.0) × (p.0 < 128) × (1 ≤ p.1) × (p.1 < 128)) × AreContents ps

unpar8-par8 : (c : ℕ) → c < 128 → unpar8 (par8 c) ≡ c
unfolding all_below unpar8 par8
unpar8-par8 = eq_below 128 (λ c. unpar8 (par8 c)) (λ c. c) refl

not_negative : (a b : ℕ) → a < 2 ^ 7 → b < 2 ^ 7 → is_negative (bit_or a b) ≡ false
not_negative a b ha hb = ground (arith, bit_or-lt 7 a b ha hb)

-- Characters with parity are fed as they are.
pub feed-dispatch :
    (callback : XdsPacket → Bool) (xd : XdsDemux) (c1 c2 : ℕ)
    → c1 < 128
    → c2 < 128
    → feed callback xd (par8 c1) (par8 c2) ≡ dispatch callback xd c1 c2
unfolding feed
feed-dispatch callback xd c1 c2 h1 h2 =
    rw (unpar8-par8 c1 h1, unpar8-par8 c2 h2, not_negative c1 c2 h1 h2) refl

take-set_two :
    (b : List ℕ) (n c d : ℕ)
    → suc n < length b
    → take (suc (suc n)) (set (set b n c) (suc n) d) ≡ take n b ++ (c ∷ d ∷ [])
take-set_two [] n c d h = absurd (omega arith)
take-set_two (x ∷ []) n c d h = absurd (omega arith)
take-set_two (x ∷ y ∷ b) zero c d h = refl
take-set_two (x ∷ y ∷ b) (suc n) c d h =
    ap (λ (t : List ℕ). x ∷ t) (take-set_two (y ∷ b) n c d (omega arith))

take-set : (b : List ℕ) (n v : ℕ) → take n (set b n v) ≡ take n b
take-set b zero v = refl
take-set [] (suc n) v = refl
take-set (x ∷ b) (suc n) v = ap (λ (t : List ℕ). x ∷ t) (take-set b n v)

take-take_append :
    (b : List ℕ) (n m : ℕ) (rest : List ℕ)
    → n ≤ m
    → m ≤ length b
    → take n (take m b ++ rest) ≡ take n b
take-take_append b zero m rest h k = refl
take-take_append b (suc n) zero rest h k = absurd (omega arith)
take-take_append [] (suc n) (suc m) rest h k = absurd (omega arith)
take-take_append (x ∷ b) (suc n) (suc m) rest h k =
    ap (λ (t : List ℕ). x ∷ t) (take-take_append b n m rest (omega arith) (omega arith))

sum_test : (w count : ℕ) → w % 128 ≡ 0 → 3 ≤ count → has_bits w 0x7F || leb count 2 ≡ false
sum_test w count h k = ground (arith, bit_and_low 7 w)

-- The demultiplexer has taken the header of a packet and some of its data.
unfoldable pub Collecting : ℕ → ℕ → ℕ → List ℕ → ℕ → XdsDemux → Type 0
Collecting k xds_class xds_subclass data_so_far sum xd =
    ((xd.curr_sp ≡ some k) × (k < length xd.subpackets) × (length xd.curr.buffer ≡ 36))
    × ((xd.curr.xds_class ≡ xds_class) × (xd.curr.xds_subclass ≡ xds_subclass))
    × (((subpacket_at xd k).count ≡ length data_so_far + 2)
        × (length (subpacket_at xd k).contents ≡ 32)
        × (take (length data_so_far) (subpacket_at xd k).contents ≡ data_so_far)
        × ((subpacket_at xd k).checksum % 128 ≡ sum % 128))

-- A subpacket that is written back with these data.
collected :
    (sps : List XdsSubpacket) (curr : XdsPacket) (k : ℕ) (sp : XdsSubpacket)
    (xds_class xds_subclass : ℕ) (chars : List ℕ) (sum : ℕ)
    → (k < length sps) × (length curr.buffer ≡ 36)
    → (curr.xds_class ≡ xds_class) × (curr.xds_subclass ≡ xds_subclass)
    → (sp.count ≡ length chars + 2)
      × (length sp.contents ≡ 32)
      × (take (length chars) sp.contents ≡ chars)
      × (sp.checksum % 128 ≡ sum % 128)
    → Collecting k xds_class xds_subclass chars sum
        (record { subpackets = set sps k sp; curr = curr; curr_sp = some k })
unfolding Collecting
collected sps curr k sp xds_class xds_subclass chars sum h names facts =
    rw (get_or-set_self sps k sp empty_subpacket h.0)
      ((refl, omega (arith, h.0, length-set sps k sp), h.1), names, facts)

module _ (callback : XdsPacket → Bool) where
  -- The callback is given a packet with these characters, and a null behind them; its answer is
  -- the result.
  abbrev pub Delivers : ℕ → ℕ → List ℕ → Bool × List XdsPacket → Type 0
  Delivers xds_class xds_subclass chars answer =
      (xp : XdsPacket) × (answer ≡ (callback xp, xp ∷ []))
      × ((xp.xds_class ≡ xds_class) × (xp.xds_subclass ≡ xds_subclass))
      × ((xp.buffer_size ≡ length chars)
          × (take (length chars) xp.buffer ≡ chars)
          × (get_or xp.buffer (length chars) 1 ≡ 0))

  -- The header of a packet is taken, in whatever state.
  pub start-Collecting :
      (xd : XdsDemux) (xds_class c2 : ℕ)
      → IsValid xd
      → xds_class ≤ 3
      → c2 < 24
      → Ends
          (λ r.
            Collecting (xds_class * 24 + c2) xds_class c2 [] (xds_class * 2 + 1 + c2) r.0
            × (r.1 ≡ (true, [])))
          (dispatch callback xd (xds_class * 2 + 1) c2)
  unfolding dispatch header Collecting IsValid
  start-Collecting xd xds_class c2 v hc h2 =
      let c1 : ℕ = xds_class * 2 + 1 in
      let k : ℕ = xds_class * 24 + c2 in
      let something : (0 == c1) ≡ false = ground arith in
      let head : leb c1 0x0E ≡ true = ground arith in
      let class_of : (c1 - 1) / 2 ≡ xds_class = omega arith in
      let low : leb 0x40 c2 ≡ false = ground arith in
      let known : ltb 3 xds_class || ltb 24 c2 ≡ false = ground arith in
      let odd : has_bits c1 1 ≡ true = ground (arith, bit_and_low 1 c1) in
      let inside : k < 168 = omega arith in
      rw (something, head, class_of, low, known, odd)
        (
          collected xd.subpackets (record xd.curr { xds_class = xds_class; xds_subclass = c2 }) k _
              xds_class c2 [] (c1 + c2) (omega (arith, v.0.0), v.1) (refl, refl)
              (refl, (v.0.1 k inside).0, refl, refl),
          refl,
        )

  -- A pair of characters is taken where there is room.
  pub pair-Collecting :
      (xd : XdsDemux) (k xds_class xds_subclass : ℕ) (chars : List ℕ) (sum c1 c2 : ℕ)
      → Collecting k xds_class xds_subclass chars sum xd
      → length chars + 2 ≤ 32
      → 0x20 ≤ c1
      → 1 ≤ c2
      → Ends
          (λ r.
            Collecting k xds_class xds_subclass (chars ++ (c1 ∷ c2 ∷ [])) (sum + (c1 + c2)) r.0
            × (r.1 ≡ (true, [])))
          (dispatch callback xd c1 c2)
  unfolding dispatch contents_pair Collecting
  pair-Collecting xd k xds_class xds_subclass chars sum c1 c2 h room printable nonzero =
      let sp = subpacket_at xd k in
      let n = length chars in
      let facts = h.2 in
      let t1 : (0 == c1) ≡ false = ground arith in
      let t2 : leb c1 0x0E ≡ false = ground arith in
      let t3 : (0x0F == c1) ≡ false = ground arith in
      let t4 : leb c1 0x1F ≡ false = ground arith in
      let t5 : (0 == c2) ≡ false = ground arith in
      let fits : leb (32 + 2) (n + 2) ≡ false = ground arith in
      let at : u32 (n + 2 + (2 ^ 32 - 2)) ≡ n = omega arith in
      let next : u32 (n + 2 + (2 ^ 32 - 1)) ≡ suc n = omega arith in
      let b = sp.contents in
      let long : length (chars ++ (c1 ∷ c2 ∷ [])) ≡ suc (suc n) =
        omega (arith, length-append chars (c1 ∷ c2 ∷ [])) in
      let first = stored b n c1 (omega (arith, facts.1)) in
      let second = stored (set b n c1) (suc n) c2 (omega (arith, facts.1, length-set b n c1)) in
      rw (t1, t2, t3, t4, h.0.0, facts.0, fits, at, next, first, second, t5)
        (
          collected xd.subpackets xd.curr k _ xds_class xds_subclass (chars ++ (c1 ∷ c2 ∷ []))
              (sum + (c1 + c2)) (h.0.1, h.0.2) h.1
              (
                omega (arith, long),
                length-set (set b n c1) (suc n) c2 ∙ length-set b n c1 ∙ facts.1,
                ap (λ (t : ℕ). take t (set (set b n c1) (suc n) c2)) long
                    ∙ take-set_two b n c1 c2 (omega (arith, facts.1))
                    ∙ ap (λ (t : List ℕ). t ++ (c1 ∷ c2 ∷ [])) facts.2,
                omega (arith, facts.3),
              ),
          refl,
        )

  -- The packet is complete, and its sum right.
  pub end-Delivers :
      (xd : XdsDemux) (k xds_class xds_subclass : ℕ) (chars : List ℕ) (sum c2 : ℕ)
      → Collecting k xds_class xds_subclass chars sum xd
      → 1 ≤ length chars
      → length chars ≤ 32
      → (sum + (0x0F + c2)) % 128 ≡ 0
      → Ends (λ r. Delivers xds_class xds_subclass chars r.1) (dispatch callback xd 0x0F c2)
  unfolding dispatch terminator Collecting
  end-Delivers xd k xds_class xds_subclass chars sum c2 h low high right =
      let sp = subpacket_at xd k in
      let n = length chars in
      let facts = h.2 in
      let good : has_bits (u32 (sp.checksum + (0x0F + c2))) 0x7F || leb sp.count 2 ≡ false =
        sum_test (u32 (sp.checksum + (0x0F + c2))) sp.count (omega (arith, facts.3, right))
          (omega (arith, facts.0)) in
      let summed : XdsSubpacket = record sp { checksum = u32 (sp.checksum + (0x0F + c2)) } in
      let whole =
        completed-returns xd.curr summed h.0.2 facts.1 (omega (arith, facts.0))
          (omega (arith, facts.0)) in
      let copy = take 32 sp.contents ++ drop 32 xd.curr.buffer in
      let index : sp.count - 2 ≡ n = omega (arith, facts.0) in
      rw (h.0.0, good, whole, index)
        (
          record xd.curr { buffer_size = n; buffer = set copy n 0 },
          refl,
          h.1,
          (
            refl,
            take-set copy n 0
                ∙ take-take_append sp.contents n 32 (drop 32 xd.curr.buffer) high
                    (omega (arith, facts.1))
                ∙ facts.2,
            get_or-set_self copy n 0 1 (
                omega (
                  arith,
                  length-memcpy xd.curr.buffer 0 sp.contents 0 32 (omega (arith, h.0.2))
                      (omega (arith, facts.1)),
                  h.0.2,
                )),
          ),
        )
