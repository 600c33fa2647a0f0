-- ===== src/PageTable/Words.antt =====
-- The words of the array `pages`, bit by bit.
use zvbi.PageTable.Pages.{mask_from, mask_to, offset_of, add_mask, remove_mask}
use zvbi.PageTable.State.{PageTable, contains_page_bit}
use zvbi.Prelude.Bits.Fields.{bit_and_low}
use zvbi.Prelude.Bits.Single.{
  bit_at, bit_and-le, bit_or-bit_at, bit_and-bit_at, complement-bit_at, has_bits-bit_at,
}
use zvbi.Prelude.{
  min, ◌-◌, ◌^◌, ap₂, max, ℕ, ◌%◌, ◌<◌, ◌≡◌, refl, sym, ap, ◌∙◌, inl, inr, Bool-cases, not, List,
  bit_and, bit_or, ◌==◌, leb, if◌then◌else◌, length, get_or, set, length-set, get_or-set_self,
  get_or-set_ne, u32, complement, ◌<<<◌, all_below, eq_below, eq_below₂, arith,
}

-- The words of the array, and the bit of a page.
abbrev pub page_bit : List ℕ → ℕ → ℕ
page_bit pages pgno = bit_at (get_or pages (offset_of pgno) 0) (pgno % 32)

pub contains_page_bit-page_bit :
    (pt : PageTable) (pgno : ℕ) → contains_page_bit pt pgno ≡ (page_bit pt.pages pgno == 1)
unfolding contains_page_bit
contains_page_bit-page_bit pt pgno =
    ap (λ (k : ℕ). not (bit_and (get_or pt.pages (offset_of pgno) 0) (u32 (1 <<< k)) == 0))
      (bit_and_low 5 pgno)
    ∙ has_bits-bit_at (get_or pt.pages (offset_of pgno) 0) (pgno % 32) (omega arith)

from_table :
    (a k : ℕ) → a < 32 → k < 32 → bit_at (u32 (0xffffffff <<< a)) k ≡ (if leb a k then 1 else 0)
unfolding all_below
from_table =
    eq_below₂ 32 32 (λ a k. bit_at (u32 (0xffffffff <<< a)) k) (λ a k. if leb a k then 1 else 0)
      refl

pub mask_from-bit_at :
    (pgno k : ℕ) → k < 32 → bit_at (mask_from pgno) k ≡ (if leb (pgno % 32) k then 1 else 0)
unfolding mask_from
mask_from-bit_at pgno k h =
    ap (λ (a : ℕ). bit_at (u32 (0xffffffff <<< a)) k) (bit_and_low 5 pgno)
    ∙ from_table (pgno % 32) k (omega arith) h

to_table :
    (a k : ℕ)
    → a < 32
    → k < 32
    → bit_at (complement (u32 (0xfffffffe <<< a))) k ≡ (if leb k a then 1 else 0)
unfolding all_below
to_table =
    eq_below₂ 32 32 (λ a k. bit_at (complement (u32 (0xfffffffe <<< a))) k)
      (λ a k. if leb k a then 1 else 0) refl

pub mask_to-bit_at :
    (pgno k : ℕ) → k < 32 → bit_at (mask_to pgno) k ≡ (if leb k (pgno % 32) then 1 else 0)
unfolding mask_to
mask_to-bit_at pgno k h =
    ap (λ (a : ℕ). bit_at (complement (u32 (0xfffffffe <<< a))) k) (bit_and_low 5 pgno)
    ∙ to_table (pgno % 32) k (omega arith) h

pub full_word-bit_at : (k : ℕ) → k < 32 → bit_at 0xffffffff k ≡ 1
unfolding all_below
full_word-bit_at = eq_below 32 (λ k. bit_at 0xffffffff k) (λ k. 1) refl

module _ (popcnt : ℕ → ℕ) where
  pub get_or-add_mask :
      (j offset mask k : ℕ) (pt : PageTable)
      → offset < length pt.pages
      → bit_at (get_or (add_mask popcnt offset mask pt).pages j 0) k ≡ (
          if offset == j
          then max (bit_at mask k) (bit_at (get_or pt.pages j 0) k)
          else bit_at (get_or pt.pages j 0) k)
  unfolding add_mask
  get_or-add_mask j offset mask k pt h = elim (Bool-cases (offset == j)) [
    | inl same ↦
        let e : offset ≡ j = ground arith in
        let w = bit_or mask (get_or pt.pages offset 0) in
        rw same (
          ap (λ (i : ℕ). bit_at (get_or (set pt.pages offset w) i 0) k) (sym e)
          ∙ ap (λ (x : ℕ). bit_at x k) (get_or-set_self pt.pages offset w 0 h)
          ∙ bit_or-bit_at k mask (get_or pt.pages offset 0)
          ∙ ap (λ (i : ℕ). max (bit_at mask k) (bit_at (get_or pt.pages i 0) k)) e)
    | inr other ↦ rw other (
        ap (λ (x : ℕ). bit_at x k)
          (get_or-set_ne pt.pages offset j (bit_or mask (get_or pt.pages offset 0)) 0
            (λ e. ground arith)))
  ]

  pub length-add_mask :
      (offset mask : ℕ) (pt : PageTable)
      → length (add_mask popcnt offset mask pt).pages ≡ length pt.pages
  unfolding add_mask
  length-add_mask offset mask pt =
      length-set pt.pages offset (bit_or mask (get_or pt.pages offset 0))

module _ (popcnt : ℕ → ℕ) where
  pub get_or-remove_mask :
      (j offset mask k : ℕ) (pt : PageTable)
      → offset < length pt.pages
      → mask < 2 ^ 32
      → k < 32
      → bit_at (get_or (remove_mask popcnt offset mask pt).pages j 0) k ≡ (
          if offset == j
          then min (bit_at (get_or pt.pages j 0) k) (1 - bit_at mask k)
          else bit_at (get_or pt.pages j 0) k)
  unfolding remove_mask
  get_or-remove_mask j offset mask k pt h small hk = elim (Bool-cases (offset == j)) [
    | inl same ↦
        let e : offset ≡ j = ground arith in
        let w = bit_and (get_or pt.pages offset 0) (complement mask) in
        rw same (
          ap (λ (i : ℕ). bit_at (get_or (set pt.pages offset w) i 0) k) (sym e)
          ∙ ap (λ (x : ℕ). bit_at x k) (get_or-set_self pt.pages offset w 0 h)
          ∙ bit_and-bit_at k (get_or pt.pages offset 0) (complement mask)
          ∙ ap₂ min (ap (λ (i : ℕ). bit_at (get_or pt.pages i 0) k) e)
              (complement-bit_at mask k small hk))
    | inr other ↦ rw other (
        ap (λ (x : ℕ). bit_at x k)
          (get_or-set_ne pt.pages offset j (bit_and (get_or pt.pages offset 0) (complement mask)) 0
            (λ e. ground arith)))
  ]

  pub length-remove_mask :
      (offset mask : ℕ) (pt : PageTable)
      → length (remove_mask popcnt offset mask pt).pages ≡ length pt.pages
  unfolding remove_mask
  length-remove_mask offset mask pt =
      length-set pt.pages offset (bit_and (get_or pt.pages offset 0) (complement mask))

pub mask_from-lt : (pgno : ℕ) → mask_from pgno < 2 ^ 32
unfolding mask_from
mask_from-lt pgno = omega arith

pub mask_to-lt : (pgno mask : ℕ) → bit_and (mask_to pgno) mask < 2 ^ 32
unfolding mask_to
mask_to-lt pgno mask = omega (arith, bit_and-le (mask_to pgno) mask)
