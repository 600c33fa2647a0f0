-- ===== src/PageTable/Added.antt =====
-- The range of pages that `vbi_page_table_add_pages` puts into the array.
use zvbi.PageTable.Pages.{mask_from, mask_to, offset_of, add_mask, add_words, add_bits}
use zvbi.PageTable.State.{PageTable}
use zvbi.PageTable.Words.{
  page_bit, mask_from-bit_at, mask_to-bit_at, full_word-bit_at, get_or-add_mask, length-add_mask,
}
use zvbi.Prelude.Bits.Single.{bit_at, bit_and-bit_at}
use zvbi.Prelude.{
  max, min, ℕ, zero, suc, ◌+◌, ◌-◌, ◌%◌, ◌≤◌, ◌<◌, ◌≡◌, refl, sym, ap, ap₂, ◌∙◌, Bool, true, false,
  inl, inr, Bool-cases, ◌&&◌, ◌||◌, bit_and, ◌==◌, ltb, leb, if◌then◌else◌, length, get_or, set,
  length-set, get_or-set_self, get_or-set_ne, u32, arith,
}

-- Where a page lies, in terms of the words and of the bits.
module _ (f l p : ℕ) (hf : 0x100 ≤ f) (hfl : f ≤ l) (hp : 0x100 ≤ p) where
  pub within_word :
      offset_of f ≡ offset_of l
      → (offset_of l == offset_of p && (leb (p % 32) (l % 32) && leb (f % 32) (p % 32)))
        ≡ (leb f p && leb p l)
  within_word e = ground arith

  pub within_words :
      offset_of f < offset_of l
      → (offset_of l == offset_of p && leb (p % 32) (l % 32)
          || (leb (offset_of f + 1) (offset_of p)
                && ltb (offset_of p) (offset_of f + 1 + (offset_of l - offset_of f - 1))
              || offset_of f == offset_of p && leb (f % 32) (p % 32)))
        ≡ (leb f p && leb p l)
  within_words e = ground arith

either_mask :
    (c t s : Bool) (x : ℕ)
    → x < 2
    → (if c then max (min (if t then 1 else 0) (if s then 1 else 0)) x else x)
      ≡ (if c && (t && s) then 1 else x)
either_mask false t s x h = refl
either_mask true false false x h = omega arith
either_mask true false true x h = omega arith
either_mask true true false x h = omega arith
either_mask true true true x h = omega arith

three_masks :
    (cb t cw ca s : Bool) (x : ℕ)
    → x < 2
    → (if cb
        then max
            (min (if t then 1 else 0) 1)
            (if cw then 1 else (if ca then max (if s then 1 else 0) x else x))
        else (if cw then 1 else (if ca then max (if s then 1 else 0) x else x)))
      ≡ (if cb && t || (cw || ca && s) then 1 else x)
three_masks cb t cw ca s x h = ground arith

full_or :
    (c : Bool) (w k : ℕ)
    → k < 32
    → bit_at (if c then 0xffffffff else w) k ≡ (if c then 1 else bit_at w k)
full_or true w k h = full_word-bit_at k h
full_or false w k h = refl

module _ (popcnt : ℕ → ℕ) where
  get_or-add_words :
      (n offset j : ℕ) (pt : PageTable)
      → offset + n ≤ length pt.pages
      → get_or (add_words popcnt n offset pt).pages j 0
        ≡ (if leb offset j && ltb j (offset + n) then 0xffffffff else get_or pt.pages j 0)
  unfolding add_words
  get_or-add_words zero offset j pt h =
      let none : (leb offset j && ltb j (offset + zero)) ≡ false = ground arith in rw none refl
  get_or-add_words (suc n) offset j pt h =
      let full = set pt.pages offset 0xffffffff in
      let more =
        get_or-add_words n (offset + 1) j
          (record pt {
            pages_popcnt = u32 (pt.pages_popcnt + (32 - popcnt (get_or pt.pages offset 0)));
            pages = full;
          })
          (omega (arith, length-set pt.pages offset 0xffffffff)) in
      elim (Bool-cases (offset == j)) [
        | inl same ↦
            let e : offset ≡ j = ground arith in
            let past : (leb (offset + 1) j && ltb j (offset + 1 + n)) ≡ false = ground arith in
            let here : (leb offset j && ltb j (offset + suc n)) ≡ true = ground arith in
            more
            ∙ ap (λ (t : Bool). if t then 0xffffffff else get_or full j 0) past
            ∙ ap (λ (i : ℕ). get_or full i 0) (sym e)
            ∙ get_or-set_self pt.pages offset 0xffffffff 0 (omega arith)
            ∙ ap (λ (t : Bool). if t then 0xffffffff else get_or pt.pages j 0) (sym here)
        | inr other ↦
            let test : (leb (offset + 1) j && ltb j (offset + 1 + n))
                ≡ (leb offset j && ltb j (offset + suc n)) =
              ground arith in
            more
            ∙ ap₂ (λ (t : Bool) (w : ℕ). if t then 0xffffffff else w) test
                (get_or-set_ne pt.pages offset j 0xffffffff 0 (λ e. ground arith))
      ]

  length-add_words :
      (n offset : ℕ) (pt : PageTable)
      → length (add_words popcnt n offset pt).pages ≡ length pt.pages
  unfolding add_words
  length-add_words zero offset pt = refl
  length-add_words (suc n) offset pt =
      length-add_words n (offset + 1) (record pt {
        pages_popcnt = u32 (pt.pages_popcnt + (32 - popcnt (get_or pt.pages offset 0)));
        pages = set pt.pages offset 0xffffffff;
      })
      ∙ length-set pt.pages offset 0xffffffff

  -- The bit of a page after a range has been put in.
  pub page_bit-add_bits :
      (f l p : ℕ) (pt : PageTable)
      → length pt.pages ≡ 64
      → 0x100 ≤ f
      → f ≤ l
      → l < 0x900
      → 0x100 ≤ p
      → p < 0x900
      → page_bit (add_bits popcnt f l pt).pages p
        ≡ (if leb f p && leb p l then 1 else page_bit pt.pages p)
  unfolding add_bits
  page_bit-add_bits f l p pt size hf hfl hl hp hp' =
      let j = offset_of p in
      let k = p % 32 in
      let a = offset_of f in
      let b = offset_of l in
      let x = page_bit pt.pages p in
      elim (Bool-cases (a == b)) [
        | inl one ↦
            let e : a ≡ b = ground arith in
            rw one (
              get_or-add_mask popcnt j b (bit_and (mask_to l) (mask_from f)) k pt (omega arith)
              ∙ ap (λ (m : ℕ). if b == j then max m x else x)
                  (bit_and-bit_at k (mask_to l) (mask_from f)
                    ∙ ap₂ min (mask_to-bit_at l k (omega arith))
                        (mask_from-bit_at f k (omega arith)))
              ∙ either_mask (b == j) (leb k (l % 32)) (leb (f % 32) k) x (omega arith)
              ∙ ap (λ (t : Bool). if t then 1 else x) (within_word f l p hf hfl hp e))
        | inr more ↦
            let lt : a < b = ground arith in
            let pt1 = add_mask popcnt a (mask_from f) pt in
            let pt2 = add_words popcnt (b - a - 1) (a + 1) pt1 in
            let first = get_or-add_mask popcnt j a (mask_from f) k pt (omega arith) in
            let size1 : length pt1.pages ≡ 64 = length-add_mask popcnt a (mask_from f) pt ∙ size in
            let size2 : length pt2.pages ≡ 64 = length-add_words (b - a - 1) (a + 1) pt1 ∙ size1 in
            let cw = leb (a + 1) j && ltb j (a + 1 + (b - a - 1)) in
            let middle : bit_at (get_or pt2.pages j 0) k
                ≡ (if cw then 1 else bit_at (get_or pt1.pages j 0) k) =
              ap (λ (w : ℕ). bit_at w k) (get_or-add_words (b - a - 1) (a + 1) j pt1 (omega arith))
              ∙ full_or cw (get_or pt1.pages j 0) k (omega arith) in
            rw more (
              get_or-add_mask popcnt j b (bit_and (mask_to l) 0xffffffff) k pt2 (omega arith)
              ∙ ap₂ (λ (m y : ℕ). if b == j then max m y else y)
                  (bit_and-bit_at k (mask_to l) 0xffffffff
                    ∙ ap₂ min (mask_to-bit_at l k (omega arith)) (full_word-bit_at k (omega arith)))
                  (middle
                    ∙ ap (λ (z : ℕ). if cw then 1 else z)
                        (first
                          ∙ ap (λ (m : ℕ). if a == j then max m x else x)
                              (mask_from-bit_at f k (omega arith))))
              ∙ three_masks (b == j) (leb k (l % 32)) cw (a == j) (leb (f % 32) k) x (omega arith)
              ∙ ap (λ (t : Bool). if t then 1 else x) (within_words f l p hf hfl hp lt))
      ]
