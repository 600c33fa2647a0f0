-- ===== src/PageTable/Pages.antt =====
-- src/page_table.c: adding and removing ranges of pages. `popcnt` is that of src/misc.h, a builtin
-- of the compiler.
use zvbi.PageTable.State.{SubpageRange, PageTable, valid_pgno}
use zvbi.PageTable.Vector.{shrink_subpages_vector}
use zvbi.Prelude.{
  ℕ, zero, suc, ◌+◌, ◌-◌, Bool, true, false, not, ◌&&◌, ◌||◌, List, [], ◌∷◌, bit_and, bit_or, ◌==◌,
  ltb, if◌then◌else◌, ◌^◌, get_or, set, replicate, u32, complement, ◌<<<◌, ◌>>>◌,
}

-- `remove_subpages_in_page_range`, the loop.
unfoldable pub ranges_outside : List SubpageRange → ℕ → ℕ → List SubpageRange
ranges_outside [] first_pgno last_pgno = []
ranges_outside (r ∷ rs) first_pgno last_pgno =
    let rest = ranges_outside rs first_pgno last_pgno in
    if ltb r.pgno first_pgno || ltb last_pgno r.pgno then r ∷ rest else rest

-- `first_mask`, `last_mask`, and the place of a page.
unfoldable pub mask_from : ℕ → ℕ
mask_from pgno = u32 (0xffffffff <<< bit_and pgno 31)

unfoldable pub mask_to : ℕ → ℕ
mask_to pgno = complement (u32 (0xfffffffe <<< bit_and pgno 31))

abbrev pub offset_of : ℕ → ℕ
offset_of pgno = (pgno - 0x100) >>> 5

module _ (popcnt : ℕ → ℕ) where
  -- The bits of a mask taken out of one word, and put into it.
  unfoldable pub remove_mask : ℕ → ℕ → PageTable → PageTable
  remove_mask offset mask pt =
      let old_mask = get_or pt.pages offset 0 in
      record pt {
        pages_popcnt = u32 (pt.pages_popcnt + (2 ^ 32 - popcnt (bit_and old_mask mask)));
        pages = set pt.pages offset (bit_and old_mask (complement mask));
      }

  unfoldable pub add_mask : ℕ → ℕ → PageTable → PageTable
  add_mask offset mask pt =
      let old_mask = get_or pt.pages offset 0 in
      record pt {
        pages_popcnt = u32 (pt.pages_popcnt + popcnt (bit_and mask (complement old_mask)));
        pages = set pt.pages offset (bit_or mask old_mask);
      }

  -- `n` whole words from an offset on.
  unfoldable pub remove_words : ℕ → ℕ → PageTable → PageTable
  remove_words zero offset pt = pt
  remove_words (suc n) offset pt = remove_words n (offset + 1) (record pt {
    pages_popcnt = u32 (pt.pages_popcnt + (2 ^ 32 - popcnt (get_or pt.pages offset 0)));
    pages = set pt.pages offset 0;
  })

  unfoldable pub add_words : ℕ → ℕ → PageTable → PageTable
  add_words zero offset pt = pt
  add_words (suc n) offset pt = add_words n (offset + 1) (record pt {
    pages_popcnt = u32 (pt.pages_popcnt + (32 - popcnt (get_or pt.pages offset 0)));
    pages = set pt.pages offset 0xffffffff;
  })

  -- The words of a range of pages, the first not above the last.
  unfoldable pub remove_bits : ℕ → ℕ → PageTable → PageTable
  unfolding remove_mask remove_words mask_from mask_to
  remove_bits first_pgno last_pgno pt =
      let a = offset_of first_pgno in
      let b = offset_of last_pgno in
      if not (a == b)
      then remove_mask b (bit_and (mask_to last_pgno) 0xffffffff)
          (remove_words (b - a - 1) (a + 1) (remove_mask a (mask_from first_pgno) pt))
      else remove_mask b (bit_and (mask_to last_pgno) (mask_from first_pgno)) pt

  unfoldable pub add_bits : ℕ → ℕ → PageTable → PageTable
  unfolding add_mask add_words mask_from mask_to
  add_bits first_pgno last_pgno pt =
      let a = offset_of first_pgno in
      let b = offset_of last_pgno in
      if not (a == b)
      then add_mask b (bit_and (mask_to last_pgno) 0xffffffff)
          (add_words (b - a - 1) (a + 1) (add_mask a (mask_from first_pgno) pt))
      else add_mask b (bit_and (mask_to last_pgno) (mask_from first_pgno)) pt

  module _ (grants : ℕ → Bool) where
    unfoldable pub remove_subpages_in_page_range : PageTable → ℕ → ℕ → PageTable
    unfolding ranges_outside
    remove_subpages_in_page_range pt first_pgno last_pgno =
        shrink_subpages_vector grants
          (record pt { subpages = ranges_outside pt.subpages first_pgno last_pgno })

    -- What both functions do with a range in order: all pages, or a part of them.
    unfoldable pub remove_range : PageTable → ℕ → ℕ → PageTable
    unfolding remove_subpages_in_page_range remove_bits
    remove_range pt first_pgno last_pgno =
        if last_pgno == 0x8ff && first_pgno == 0x100
        then record (shrink_subpages_vector grants (record pt { subpages = [] })) {
          pages = replicate 64 0;
          pages_popcnt = 0;
        }
        else remove_bits first_pgno last_pgno
            (remove_subpages_in_page_range pt first_pgno last_pgno)

    unfoldable pub add_range : PageTable → ℕ → ℕ → PageTable
    unfolding remove_subpages_in_page_range add_bits
    add_range pt first_pgno last_pgno =
        if last_pgno == 0x8ff && first_pgno == 0x100
        then record (shrink_subpages_vector grants (record pt { subpages = [] })) {
          pages = replicate 64 0xffffffff;
          pages_popcnt = 0x800;
        }
        else add_bits first_pgno last_pgno (remove_subpages_in_page_range pt first_pgno last_pgno)

    -- `vbi_page_table_remove_pages` and `vbi_page_table_add_pages`.
    unfoldable pub remove_pages : PageTable → ℕ → ℕ → PageTable × Bool
    unfolding remove_range
    remove_pages pt first_pgno last_pgno =
        if not (valid_pgno first_pgno && valid_pgno last_pgno)
        then (pt, false)
        else if ltb last_pgno first_pgno
        then (remove_range pt last_pgno first_pgno, true)
        else (remove_range pt first_pgno last_pgno, true)

    unfoldable pub add_pages : PageTable → ℕ → ℕ → PageTable × Bool
    unfolding add_range
    add_pages pt first_pgno last_pgno =
        if not (valid_pgno first_pgno && valid_pgno last_pgno)
        then (pt, false)
        else if ltb last_pgno first_pgno
        then (add_range pt last_pgno first_pgno, true)
        else (add_range pt first_pgno last_pgno, true)
