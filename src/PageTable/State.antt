-- ===== src/PageTable/State.antt =====
-- src/page_table.c: the struct and the functions that look things up in it.
use zvbi.Prelude.{
  ℕ, ◌+◌, ◌-◌, Bool, true, false, not, ◌&&◌, List, [], ◌∷◌, bit_and, ◌==◌, ltb, if◌then◌else◌,
  length, get_or, u32, has_bits, signed_le, ◌<<<◌, ◌>>>◌,
}

abbrev pub max_subno : ℕ
max_subno = 0x3f7e

abbrev pub any_subno : ℕ
any_subno = 0x3f7f

-- `struct subpage_range`.
pub record SubpageRange : Type 0 where
  pub pgno : ℕ
  pub first : ℕ
  pub last : ℕ

-- `struct _vbi_page_table`; the size of the vector of subpages is that of the list.
pub record PageTable : Type 0 where
  pub pages : List ℕ
  pub pages_popcnt : ℕ
  pub subpages : List SubpageRange
  pub subpages_capacity : ℕ

-- `valid_pgno`.
unfoldable pub valid_pgno : ℕ → Bool
valid_pgno pgno = ltb (u32 (pgno + 0xffffff00)) 0x800

-- `contains_all_subpages`, of a valid page number.
unfoldable pub contains_page_bit : PageTable → ℕ → Bool
contains_page_bit pt pgno =
    has_bits (get_or pt.pages ((pgno - 0x100) >>> 5) 0) (u32 (1 <<< bit_and pgno 31))

-- `vbi_page_table_contains_all_subpages`.
unfoldable pub contains_all_subpages : PageTable → ℕ → Bool
unfolding valid_pgno contains_page_bit
contains_all_subpages pt pgno = if not (valid_pgno pgno) then false else contains_page_bit pt pgno

-- The loops of `vbi_page_table_contains_subpage`.
unfoldable pub any_range : List SubpageRange → ℕ → Bool
any_range [] pgno = false
any_range (r ∷ rs) pgno = let rest = any_range rs pgno in if pgno == r.pgno then true else rest

unfoldable pub range_with : List SubpageRange → ℕ → ℕ → Bool
range_with [] pgno subno = false
range_with (r ∷ rs) pgno subno =
    let rest = range_with rs pgno subno in
    if pgno == r.pgno && (signed_le r.first subno && signed_le subno r.last) then true else rest

-- `vbi_page_table_contains_subpage`, and `vbi_page_table_contains_page`.
unfoldable pub contains_subpage : PageTable → ℕ → ℕ → Bool
unfolding valid_pgno contains_page_bit any_range range_with
contains_subpage pt pgno subno =
    if not (valid_pgno pgno)
    then false
    else if contains_page_bit pt pgno
    then true
    else if any_subno == subno
    then any_range pt.subpages pgno
    else range_with pt.subpages pgno subno

unfoldable pub contains_page : PageTable → ℕ → Bool
unfolding contains_subpage
contains_page pt pgno = contains_subpage pt pgno any_subno

-- `vbi_page_table_num_pages`.
unfoldable pub num_pages : PageTable → ℕ
num_pages pt = u32 (pt.pages_popcnt + length pt.subpages)
