-- ===== src/PageTable/Vector.antt =====
-- src/page_table.c: the capacity of the vector of subpages. `grants` says for which sizes in bytes
-- `vbi_realloc` succeeds.
use zvbi.PageTable.State.{PageTable}
use zvbi.Prelude.{ℕ, ◌*◌, ◌/◌, Bool, true, false, not, leb, ltb, if◌then◌else◌, min, length}

-- `sizeof (*pt->subpages)`.
abbrev pub element_size : ℕ
element_size = 12

module _ (grants : ℕ → Bool) where
  -- `shrink_vector`: the capacity.
  unfoldable pub shrink_vector : ℕ → ℕ → ℕ
  shrink_vector capacity min_capacity =
      if leb capacity min_capacity
      then capacity
      else if not (grants (min_capacity * element_size))
      then capacity
      else min_capacity

  -- `shrink_subpages_vector`.
  unfoldable pub shrink_subpages_vector : PageTable → PageTable
  unfolding shrink_vector
  shrink_subpages_vector pt =
      if leb (pt.subpages_capacity / 4) (length pt.subpages) then pt else record pt {
        subpages_capacity = shrink_vector pt.subpages_capacity (pt.subpages_capacity / 2);
      }

  -- `extend_vector`: the capacity, and the result.
  unfoldable pub extend_vector : ℕ → ℕ → ℕ × Bool
  extend_vector capacity min_capacity =
      let max_capacity = 0xffffffff / element_size in
      let new_capacity =
        if ltb (max_capacity / 2) capacity then max_capacity else min min_capacity (capacity * 2) in
      if ltb max_capacity min_capacity
      then (capacity, false)
      else if not (grants (new_capacity * element_size))
      then (capacity, false)
      else (new_capacity, true)

  -- `extend_subpages_vector`.
  unfoldable pub extend_subpages_vector : PageTable → ℕ → PageTable × Bool
  unfolding extend_vector
  extend_subpages_vector pt min_capacity =
      if leb min_capacity pt.subpages_capacity
      then (pt, true)
      else (let (capacity, ok) = extend_vector pt.subpages_capacity min_capacity in
          (record pt { subpages_capacity = capacity }, ok))
