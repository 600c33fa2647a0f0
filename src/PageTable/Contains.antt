-- ===== src/PageTable/Contains.antt =====
-- The pages that `vbi_page_table_contains_all_subpages` finds after `vbi_page_table_add_pages`.
use zvbi.PageTable.Added.{page_bit-add_bits}
use zvbi.PageTable.Pages.{
  offset_of, ranges_outside, remove_subpages_in_page_range, add_range, add_pages,
}
use zvbi.PageTable.State.{PageTable, valid_pgno, contains_all_subpages}
use zvbi.PageTable.Vector.{shrink_subpages_vector}
use zvbi.PageTable.Words.{page_bit, contains_page_bit-page_bit, full_word-bit_at}
use zvbi.Prelude.Bits.Single.{bit_at}
use zvbi.Prelude.{
  max, min, ℕ, zero, suc, ◌%◌, ◌≤◌, ◌<◌, ◌≡◌, refl, sym, ap, ◌∙◌, Bool, true, false, inl, inr,
  Bool-cases, ◌&&◌, ◌||◌, List, ◌==◌, ltb, leb, if◌then◌else◌, length, get_or, replicate, arith,
}

abbrev pub IsPgno : ℕ → Type 0
IsPgno pgno = (0x100 ≤ pgno) × (pgno < 0x900)

pub valid_pgno-IsPgno : (pgno : ℕ) → IsPgno pgno → valid_pgno pgno ≡ true
unfolding valid_pgno
valid_pgno-IsPgno pgno h = ground arith

pub get_or-replicate : (n i v : ℕ) → i < n → get_or (replicate n v) i 0 ≡ v
get_or-replicate zero i v h = absurd (omega arith)
get_or-replicate (suc n) zero v h = refl
get_or-replicate (suc n) (suc i) v h = get_or-replicate n i v (omega arith)

one_or : (c : Bool) (x : ℕ) → x < 2 → ((if c then 1 else x) == 1) ≡ (x == 1 || c)
one_or true x h = ground arith
one_or false x h = ground arith

module _ (grants : ℕ → Bool) where
  pub shrink-pages : (pt : PageTable) → (shrink_subpages_vector grants pt).pages ≡ pt.pages
  unfolding shrink_subpages_vector
  shrink-pages pt = ground arith

module _ (popcnt : ℕ → ℕ) (grants : ℕ → Bool) where
  page_bit-add_range :
      (pt : PageTable) (f l p : ℕ)
      → length pt.pages ≡ 64
      → IsPgno f
      → f ≤ l
      → IsPgno l
      → IsPgno p
      → page_bit (add_range popcnt grants pt f l).pages p
        ≡ (if leb f p && leb p l then 1 else page_bit pt.pages p)
  unfolding add_range remove_subpages_in_page_range
  page_bit-add_range pt f l p size hf hfl hl hp = elim (Bool-cases (l == 0x8ff && f == 0x100)) [
    | inl all ↦
        let there : (leb f p && leb p l) ≡ true = ground arith in
        rw (all, there)
          (ap (λ (w : ℕ). bit_at w (p % 32))
              (get_or-replicate 64 (offset_of p) 0xffffffff (omega arith))
            ∙ full_word-bit_at (p % 32) (omega arith))
    | inr part ↦
        let kept = record pt { subpages = ranges_outside pt.subpages f l } in
        let same = shrink-pages grants kept in
        rw part (
          page_bit-add_bits popcnt f l p (shrink_subpages_vector grants kept)
            (ap length same ∙ size) hf.0 hfl hl.1 hp.0 hp.1
          ∙ ap (λ (t : List ℕ). if leb f p && leb p l then 1 else page_bit t p) same)
  ]

  contains-add_range :
      (pt : PageTable) (f l p : ℕ)
      → length pt.pages ≡ 64
      → IsPgno f
      → f ≤ l
      → IsPgno l
      → IsPgno p
      → contains_all_subpages (add_range popcnt grants pt f l) p
        ≡ contains_all_subpages pt p || (leb f p && leb p l)
  unfolding contains_all_subpages
  contains-add_range pt f l p size hf hfl hl hp = rw (valid_pgno-IsPgno p hp) (
      contains_page_bit-page_bit (add_range popcnt grants pt f l) p
      ∙ ap (λ (x : ℕ). x == 1) (page_bit-add_range pt f l p size hf hfl hl hp)
      ∙ one_or (leb f p && leb p l) (page_bit pt.pages p) (omega arith)
      ∙ ap (λ (t : Bool). t || (leb f p && leb p l)) (sym (contains_page_bit-page_bit pt p)))

  -- vbi_page_table_add_pages, on a table with 64 words and two page numbers from 0x100 to
  -- 0x8FF in either order, returns TRUE, and vbi_page_table_contains_all_subpages then finds,
  -- among the pages from 0x100 to 0x8FF, those it found before and those of the range.
  pub contains_all_subpages-add_pages :
      (pt : PageTable) (f l p : ℕ)
      → length pt.pages ≡ 64
      → IsPgno f
      → IsPgno l
      → IsPgno p
      → ((add_pages popcnt grants pt f l).1 ≡ true)
        × (contains_all_subpages (add_pages popcnt grants pt f l).0 p
            ≡ contains_all_subpages pt p || (leb (min f l) p && leb p (max f l)))
  unfolding add_pages
  contains_all_subpages-add_pages pt f l p size hf hl hp = elim (Bool-cases (ltb l f)) [
    | inl swapped ↦
        let low : min f l ≡ l = ground arith in
        let high : max f l ≡ f = ground arith in
        rw (valid_pgno-IsPgno f hf, valid_pgno-IsPgno l hl, swapped, low, high)
          (refl, contains-add_range pt l f p size hl (ground arith) hf hp)
    | inr ordered ↦
        let low : min f l ≡ f = ground arith in
        let high : max f l ≡ l = ground arith in
        rw (valid_pgno-IsPgno f hf, valid_pgno-IsPgno l hl, ordered, low, high)
          (refl, contains-add_range pt f l p size hf (ground arith) hl hp)
  ]
