-- ===== src/PageTable/Tests.antt =====
-- Runs of the page table, and the theorems about it at an input.
use zvbi.PageTable.Contains.{contains_all_subpages-add_pages}
use zvbi.PageTable.Found.{
  range_with-ranges_outside, without_vector, add_subpages-without_vector, with_range,
  remove_subpages-with_range,
}
use zvbi.PageTable.Lacks.{contains_all_subpages-remove_pages}
use zvbi.PageTable.Pages.{ranges_outside, add_pages, remove_pages}
use zvbi.PageTable.State.{
  SubpageRange, PageTable, contains_page_bit, contains_all_subpages, range_with,
}
use zvbi.PageTable.Subpages.{add_subpages, remove_subpages}
use zvbi.PageTable.Vector.{shrink_subpages_vector}
use zvbi.Prelude.{
  ℕ, zero, suc, ◌+◌, ◌/◌, ◌%◌, ◌≡◌, inl, refl, Bool, true, false, not, ◌&&◌, ◌||◌, List, [], ◌∷◌,
  leb, if◌then◌else◌, length-replicate, max, min, replicate, returns, out_of_bounds, arith,
}

-- The number of bits that are set.
abbrev count_bits : ℕ → ℕ → ℕ
count_bits zero x = 0
count_bits (suc n) x = x % 2 + count_bits n (x / 2)

abbrev popcnt : ℕ → ℕ
popcnt = count_bits 32

abbrev always : ℕ → Bool
always size = true

abbrev no_pages : List ℕ
no_pages = replicate 64 0

abbrev new : PageTable
new = without_vector no_pages 0

abbrev subtitles : SubpageRange
subtitles = record { pgno = 0x150; first = 5; last = 0x20 }

contains_all_subpages-add_pages_example :
    ((add_pages popcnt always new 0x188 0x150).1 ≡ true)
    × (contains_all_subpages (add_pages popcnt always new 0x188 0x150).0 0x170
        ≡ contains_all_subpages new 0x170
          || (leb (min 0x188 0x150) 0x170 && leb 0x170 (max 0x188 0x150)))
contains_all_subpages-add_pages_example =
    contains_all_subpages-add_pages popcnt always new 0x188 0x150 0x170
      (length-replicate {A = ℕ} 64 0) (omega arith, omega arith) (omega arith, omega arith)
      (omega arith, omega arith)

range_with-ranges_outside_example :
    range_with (ranges_outside (subtitles ∷ []) 0x100 0x1ff) 0x150 7
    ≡ range_with (subtitles ∷ []) 0x150 7 && not (leb 0x100 0x150 && leb 0x150 0x1ff)
range_with-ranges_outside_example = range_with-ranges_outside (subtitles ∷ []) 0x100 0x1ff 0x150 7

absent : contains_page_bit new 0x150 ≡ false
unfolding contains_page_bit
absent = refl

add_subpages-without_vector_example :
    add_subpages popcnt always new 0x150 1 4
    ≡ (if always 0 then out_of_bounds else returns (new, false))
add_subpages-without_vector_example =
    add_subpages-without_vector popcnt always no_pages 0 0x150 1 4 (omega arith, omega arith) absent
      (omega arith) (omega arith)

remove_subpages-with_range_example :
    remove_subpages popcnt always
      (with_range no_pages 0 4 (record { pgno = 0x150; first = 5; last = 0x20 }))
      0x150
      1
      7
    ≡ returns (
      shrink_subpages_vector always
          (with_range no_pages 0 4 (record { pgno = 0x150; first = 5; last = 7 })),
      true,
    )
unfolding contains_page_bit
remove_subpages-with_range_example =
    remove_subpages-with_range popcnt always no_pages 0 4 0x150 1 7 5 0x20
      (omega arith, omega arith) refl (omega arith) (omega arith) (omega arith) (omega arith)
      (omega arith) (inl (omega arith))

contains_all_subpages-remove_pages_example :
    ((remove_pages popcnt always new 0x188 0x150).1 ≡ true)
    × (contains_all_subpages (remove_pages popcnt always new 0x188 0x150).0 0x170
        ≡ contains_all_subpages new 0x170
          && not (leb (min 0x188 0x150) 0x170 && leb 0x170 (max 0x188 0x150)))
contains_all_subpages-remove_pages_example =
    contains_all_subpages-remove_pages popcnt always new 0x188 0x150 0x170
      (length-replicate {A = ℕ} 64 0) (omega arith, omega arith) (omega arith, omega arith)
      (omega arith, omega arith)
