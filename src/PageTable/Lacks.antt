-- ===== src/PageTable/Lacks.antt =====
-- The pages that `vbi_page_table_contains_all_subpages` finds after `vbi_page_table_remove_pages`.
use zvbi.PageTable.Contains.{IsPgno, valid_pgno-IsPgno, get_or-replicate, shrink-pages}
use zvbi.PageTable.Pages.{
  offset_of, ranges_outside, remove_subpages_in_page_range, remove_range, remove_pages,
}
use zvbi.PageTable.Removed.{page_bit-remove_bits}
use zvbi.PageTable.State.{PageTable, contains_all_subpages}
use zvbi.PageTable.Vector.{shrink_subpages_vector}
use zvbi.PageTable.Words.{page_bit, contains_page_bit-page_bit}
use zvbi.Prelude.Bits.Single.{bit_at, zero-bit_at}
use zvbi.Prelude.{
  max, min, ℕ, ◌%◌, ◌≤◌, ◌<◌, ◌≡◌, refl, sym, ap, ◌∙◌, Bool, true, inl, inr, Bool-cases, not, ◌&&◌,
  List, ◌==◌, ltb, leb, if◌then◌else◌, length, arith,
}

zero_unless : (c : Bool) (x : ℕ) → x < 2 → ((if c then 0 else x) == 1) ≡ (x == 1 && not c)
zero_unless c x h = ground arith

module _ (popcnt : ℕ → ℕ) (grants : ℕ → Bool) where
  page_bit-remove_range :
      (pt : PageTable) (f l p : ℕ)
      → length pt.pages ≡ 64
      → IsPgno f
      → f ≤ l
      → IsPgno l
      → IsPgno p
      → page_bit (remove_range popcnt grants pt f l).pages p
        ≡ (if leb f p && leb p l then 0 else page_bit pt.pages p)
  unfolding remove_range remove_subpages_in_page_range
  page_bit-remove_range pt f l p size hf hfl hl hp = elim (Bool-cases (l == 0x8ff && f == 0x100)) [
    | inl all ↦
        let there : (leb f p && leb p l) ≡ true = ground arith in
        rw (all, there)
          (ap (λ (w : ℕ). bit_at w (p % 32)) (get_or-replicate 64 (offset_of p) 0 (omega arith))
            ∙ zero-bit_at (p % 32))
    | inr part ↦
        let kept = record pt { subpages = ranges_outside pt.subpages f l } in
        let same = shrink-pages grants kept in
        rw part (
          page_bit-remove_bits popcnt f l p (shrink_subpages_vector grants kept)
            (ap length same ∙ size) hf.0 hfl hl.1 hp.0 hp.1
          ∙ ap (λ (t : List ℕ). if leb f p && leb p l then 0 else page_bit t p) same)
  ]

  contains-remove_range :
      (pt : PageTable) (f l p : ℕ)
      → length pt.pages ≡ 64
      → IsPgno f
      → f ≤ l
      → IsPgno l
      → IsPgno p
      → contains_all_subpages (remove_range popcnt grants pt f l) p
        ≡ contains_all_subpages pt p && not (leb f p && leb p l)
  unfolding contains_all_subpages
  contains-remove_range pt f l p size hf hfl hl hp = rw (valid_pgno-IsPgno p hp) (
      contains_page_bit-page_bit (remove_range popcnt grants pt f l) p
      ∙ ap (λ (x : ℕ). x == 1) (page_bit-remove_range pt f l p size hf hfl hl hp)
      ∙ zero_unless (leb f p && leb p l) (page_bit pt.pages p) (omega arith)
      ∙ ap (λ (t : Bool). t && not (leb f p && leb p l)) (sym (contains_page_bit-page_bit pt p)))

  -- vbi_page_table_remove_pages, on a table with 64 words and two page numbers from 0x100 to
  -- 0x8FF in either order, returns TRUE, and vbi_page_table_contains_all_subpages then finds,
  -- among the pages from 0x100 to 0x8FF, those it found before that are not in the range.
  pub contains_all_subpages-remove_pages :
      (pt : PageTable) (f l p : ℕ)
      → length pt.pages ≡ 64
      → IsPgno f
      → IsPgno l
      → IsPgno p
      → ((remove_pages popcnt grants pt f l).1 ≡ true)
        × (contains_all_subpages (remove_pages popcnt grants pt f l).0 p
            ≡ contains_all_subpages pt p && not (leb (min f l) p && leb p (max f l)))
  unfolding remove_pages
  contains_all_subpages-remove_pages pt f l p size hf hl hp = elim (Bool-cases (ltb l f)) [
    | inl swapped ↦
        let low : min f l ≡ l = ground arith in
        let high : max f l ≡ f = ground arith in
        rw (valid_pgno-IsPgno f hf, valid_pgno-IsPgno l hl, swapped, low, high)
          (refl, contains-remove_range pt l f p size hl (ground arith) hf hp)
    | inr ordered ↦
        let low : min f l ≡ f = ground arith in
        let high : max f l ≡ l = ground arith in
        rw (valid_pgno-IsPgno f hf, valid_pgno-IsPgno l hl, ordered, low, high)
          (refl, contains-remove_range pt f l p size hf (ground arith) hl hp)
  ]
