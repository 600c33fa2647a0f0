-- ===== src/PageTable/Removed.antt =====
-- The range of pages that `vbi_page_table_remove_pages` takes out of the array.
use zvbi.PageTable.Pages.{mask_from, mask_to, offset_of, remove_mask, remove_words, remove_bits}
use zvbi.PageTable.State.{PageTable}
use zvbi.PageTable.Words.{
  page_bit, mask_from-bit_at, mask_to-bit_at, full_word-bit_at, get_or-remove_mask,
  length-remove_mask,
}
use zvbi.PageTable.Words.{mask_from-lt, mask_to-lt}
use zvbi.PageTable.Added.{within_word, within_words}
use zvbi.Prelude.Bits.Single.{bit_at, bit_and-bit_at, zero-bit_at}
use zvbi.Prelude.{
  ◌^◌, min, ℕ, zero, suc, ◌+◌, ◌-◌, ◌%◌, ◌≤◌, ◌<◌, ◌≡◌, refl, sym, ap, ap₂, ◌∙◌, Bool, true, false,
  inl, inr, Bool-cases, ◌&&◌, ◌||◌, bit_and, ◌==◌, ltb, leb, if◌then◌else◌, length, get_or, set,
  length-set, get_or-set_self, get_or-set_ne, u32, arith,
}

neither_mask :
    (c t s : Bool) (x : ℕ)
    → x < 2
    → (if c then min x (1 - min (if t then 1 else 0) (if s then 1 else 0)) else x)
      ≡ (if c && (t && s) then 0 else x)
neither_mask c t s x h = ground arith

no_mask :
    (cb t cw ca s : Bool) (x : ℕ)
    → x < 2
    → (if cb
        then min
            (if cw then 0 else (if ca then min x (1 - (if s then 1 else 0)) else x))
            (1 - min (if t then 1 else 0) 1)
        else (if cw then 0 else (if ca then min x (1 - (if s then 1 else 0)) else x)))
      ≡ (if cb && t || (cw || ca && s) then 0 else x)
no_mask cb t cw ca s x h = ground arith

zero_or : (c : Bool) (w k : ℕ) → bit_at (if c then 0 else w) k ≡ (if c then 0 else bit_at w k)
zero_or true w k = zero-bit_at k
zero_or false w k = refl

module _ (popcnt : ℕ → ℕ) where
  get_or-remove_words :
      (n offset j : ℕ) (pt : PageTable)
      → offset + n ≤ length pt.pages
      → get_or (remove_words popcnt n offset pt).pages j 0
        ≡ (if leb offset j && ltb j (offset + n) then 0 else get_or pt.pages j 0)
  unfolding remove_words
  get_or-remove_words zero offset j pt h =
      let none : (leb offset j && ltb j (offset + zero)) ≡ false = ground arith in rw none refl
  get_or-remove_words (suc n) offset j pt h =
      let full = set pt.pages offset 0 in
      let more =
        get_or-remove_words n (offset + 1) j
          (record pt {
            pages_popcnt = u32 (pt.pages_popcnt + (2 ^ 32 - popcnt (get_or pt.pages offset 0)));
            pages = full;
          })
          (omega (arith, length-set pt.pages offset 0)) in
      elim (Bool-cases (offset == j)) [
        | inl same ↦
            let e : offset ≡ j = ground arith in
            let past : (leb (offset + 1) j && ltb j (offset + 1 + n)) ≡ false = ground arith in
            let here : (leb offset j && ltb j (offset + suc n)) ≡ true = ground arith in
            more
            ∙ ap (λ (t : Bool). if t then 0 else get_or full j 0) past
            ∙ ap (λ (i : ℕ). get_or full i 0) (sym e)
            ∙ get_or-set_self pt.pages offset 0 0 (omega arith)
            ∙ ap (λ (t : Bool). if t then 0 else get_or pt.pages j 0) (sym here)
        | inr other ↦
            let test : (leb (offset + 1) j && ltb j (offset + 1 + n))
                ≡ (leb offset j && ltb j (offset + suc n)) =
              ground arith in
            more
            ∙ ap₂ (λ (t : Bool) (w : ℕ). if t then 0 else w) test
                (get_or-set_ne pt.pages offset j 0 0 (λ e. ground arith))
      ]

  length-remove_words :
      (n offset : ℕ) (pt : PageTable)
      → length (remove_words popcnt n offset pt).pages ≡ length pt.pages
  unfolding remove_words
  length-remove_words zero offset pt = refl
  length-remove_words (suc n) offset pt =
      length-remove_words n (offset + 1) (record pt {
        pages_popcnt = u32 (pt.pages_popcnt + (2 ^ 32 - popcnt (get_or pt.pages offset 0)));
        pages = set pt.pages offset 0;
      })
      ∙ length-set pt.pages offset 0

  -- The bit of a page after a range has been taken out.
  pub page_bit-remove_bits :
      (f l p : ℕ) (pt : PageTable)
      → length pt.pages ≡ 64
      → 0x100 ≤ f
      → f ≤ l
      → l < 0x900
      → 0x100 ≤ p
      → p < 0x900
      → page_bit (remove_bits popcnt f l pt).pages p
        ≡ (if leb f p && leb p l then 0 else page_bit pt.pages p)
  unfolding remove_bits
  page_bit-remove_bits f l p pt size hf hfl hl hp hp' =
      let j = offset_of p in
      let k = p % 32 in
      let a = offset_of f in
      let b = offset_of l in
      let x = page_bit pt.pages p in
      elim (Bool-cases (a == b)) [
        | inl one ↦
            let e : a ≡ b = ground arith in
            rw one (
              get_or-remove_mask popcnt j b (bit_and (mask_to l) (mask_from f)) k pt (omega arith)
                (mask_to-lt l (mask_from f)) (omega arith)
              ∙ ap (λ (m : ℕ). if b == j then min x (1 - m) else x)
                  (bit_and-bit_at k (mask_to l) (mask_from f)
                    ∙ ap₂ min (mask_to-bit_at l k (omega arith))
                        (mask_from-bit_at f k (omega arith)))
              ∙ neither_mask (b == j) (leb k (l % 32)) (leb (f % 32) k) x (omega arith)
              ∙ ap (λ (t : Bool). if t then 0 else x) (within_word f l p hf hfl hp e))
        | inr more ↦
            let lt : a < b = ground arith in
            let pt1 = remove_mask popcnt a (mask_from f) pt in
            let pt2 = remove_words popcnt (b - a - 1) (a + 1) pt1 in
            let first =
              get_or-remove_mask popcnt j a (mask_from f) k pt (omega arith) (mask_from-lt f)
                (omega arith) in
            let size1 : length pt1.pages ≡ 64 =
              length-remove_mask popcnt a (mask_from f) pt ∙ size in
            let size2 : length pt2.pages ≡ 64 =
              length-remove_words (b - a - 1) (a + 1) pt1 ∙ size1 in
            let cw = leb (a + 1) j && ltb j (a + 1 + (b - a - 1)) in
            let middle : bit_at (get_or pt2.pages j 0) k
                ≡ (if cw then 0 else bit_at (get_or pt1.pages j 0) k) =
              ap (λ (w : ℕ). bit_at w k)
                (get_or-remove_words (b - a - 1) (a + 1) j pt1 (omega arith))
              ∙ zero_or cw (get_or pt1.pages j 0) k in
            rw more (
              get_or-remove_mask popcnt j b (bit_and (mask_to l) 0xffffffff) k pt2 (omega arith)
                (mask_to-lt l 0xffffffff) (omega arith)
              ∙ ap₂ (λ (m y : ℕ). if b == j then min y (1 - m) else y)
                  (bit_and-bit_at k (mask_to l) 0xffffffff
                    ∙ ap₂ min (mask_to-bit_at l k (omega arith)) (full_word-bit_at k (omega arith)))
                  (middle
                    ∙ ap (λ (z : ℕ). if cw then 0 else z)
                        (first
                          ∙ ap (λ (m : ℕ). if a == j then min x (1 - m) else x)
                              (mask_from-bit_at f k (omega arith))))
              ∙ no_mask (b == j) (leb k (l % 32)) cw (a == j) (leb (f % 32) k) x (omega arith)
              ∙ ap (λ (t : Bool). if t then 0 else x) (within_words f l p hf hfl hp lt))
      ]
