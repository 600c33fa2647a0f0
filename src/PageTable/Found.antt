-- ===== src/PageTable/Found.antt =====
-- Ranges of subpages: what is kept when pages are removed, and the first range of a new table.
use zvbi.PageTable.Contains.{IsPgno, valid_pgno-IsPgno}
use zvbi.PageTable.Pages.{ranges_outside}
use zvbi.PageTable.State.{
  SubpageRange, PageTable, max_subno, any_subno, contains_page_bit, range_with, contains_subpage,
  contains_page,
}
use zvbi.PageTable.Subpages.{
  valid_subpage_range, store, append_range, add_range_of, add_subpages, remove_loop,
  remove_range_of, remove_subpages,
}
use zvbi.PageTable.Vector.{extend_vector, extend_subpages_vector, shrink_subpages_vector}
use zvbi.Prelude.{
  ◌⊎◌, max, min, ℕ, ◌≤◌, ◌≡◌, refl, Bool, true, false, inl, inr, Bool-cases, not, ◌&&◌, ◌||◌, List,
  [], ◌∷◌, ◌==◌, ltb, leb, if◌then◌else◌, signed_le, returns, out_of_bounds, arith,
}

still_there :
    (c x y w : Bool)
    → w ≡ false
    → x ≡ y && not w
    → (if c then true else x) ≡ (if c then true else y) && not w
still_there true x y w h e = rw h refl
still_there false x y w h e = e

gone : (x y z w : Bool) → w ≡ true → x ≡ y && not w → x ≡ z && not w
gone x y z w h e = ground arith

-- After remove_subpages_in_page_range the vector of subpages holds a subpage exactly if it
-- did before and the page is outside the range.
pub range_with-ranges_outside :
    (rs : List SubpageRange) (f l pgno subno : ℕ)
    → range_with (ranges_outside rs f l) pgno subno
      ≡ range_with rs pgno subno && not (leb f pgno && leb pgno l)
unfolding ranges_outside range_with
range_with-ranges_outside [] f l pgno subno = refl
range_with-ranges_outside (r ∷ rs) f l pgno subno =
    let more = range_with-ranges_outside rs f l pgno subno in
    elim (Bool-cases (ltb r.pgno f || ltb l r.pgno)) [
      | inl outside ↦ elim (Bool-cases (pgno == r.pgno)) [
        | inl same ↦
            rw (outside, same)
              (still_there (signed_le r.first subno && signed_le subno r.last)
                (range_with (ranges_outside rs f l) pgno subno) (range_with rs pgno subno)
                (leb f pgno && leb pgno l) (ground arith) more)
        | inr other ↦ rw (outside, other) more
      ]
      | inr inside ↦ elim (Bool-cases (pgno == r.pgno)) [
        | inl same ↦
            rw (inside, same)
              (gone (range_with (ranges_outside rs f l) pgno subno) (range_with rs pgno subno)
                (if signed_le r.first subno && signed_le subno r.last
                  then true
                  else range_with rs pgno subno)
                (leb f pgno && leb pgno l) (ground arith) more)
        | inr other ↦ rw (inside, other) more
      ]
    ]

-- A table as `vbi_page_table_new` makes it, with no vector, whatever pages were added.
abbrev pub without_vector : List ℕ → ℕ → PageTable
without_vector pages n = record {
  pages = pages;
  pages_popcnt = n;
  subpages = [];
  subpages_capacity = 0;
}

module _ (popcnt : ℕ → ℕ) (grants : ℕ → Bool) where
  append_range-without_vector :
      (pages : List ℕ) (n : ℕ) (r : SubpageRange)
      → append_range popcnt grants (without_vector pages n) r
        ≡ (if grants 0 then out_of_bounds else returns (without_vector pages n, false))
  unfolding append_range extend_subpages_vector extend_vector store
  append_range-without_vector pages n r = elim (Bool-cases (grants 0)) [
    | inl granted ↦ rw granted refl
    | inr refused ↦ rw refused refl
  ]

  -- On a table without subpages and without a vector, vbi_page_table_add_subpages of valid
  -- numbers of a page that was not added never adds them: where vbi_realloc grants 0 bytes it
  -- writes outside the vector, else it returns FALSE and leaves the table as it was.
  pub add_subpages-without_vector :
      (pages : List ℕ) (n pgno first_subno last_subno : ℕ)
      → IsPgno pgno
      → contains_page_bit (without_vector pages n) pgno ≡ false
      → first_subno ≤ max_subno
      → last_subno ≤ max_subno
      → add_subpages popcnt grants (without_vector pages n) pgno first_subno last_subno
        ≡ (if grants 0 then out_of_bounds else returns (without_vector pages n, false))
  unfolding add_subpages valid_subpage_range contains_page contains_subpage add_range_of
  add_subpages-without_vector pages n pgno first_subno last_subno p absent hf hl =
      let not_any : (any_subno == first_subno && any_subno == last_subno) ≡ false = ground arith in
      let fits : (ltb max_subno first_subno || ltb max_subno last_subno) ≡ false = ground arith in
      elim (Bool-cases (ltb last_subno first_subno)) [
        | inl swapped ↦
            rw (not_any, valid_pgno-IsPgno pgno p, fits, absent, swapped)
              (append_range-without_vector pages n
                (record { pgno = pgno; first = last_subno; last = first_subno }))
        | inr ordered ↦
            rw (not_any, valid_pgno-IsPgno pgno p, fits, absent, ordered)
              (append_range-without_vector pages n
                (record { pgno = pgno; first = first_subno; last = last_subno }))
      ]

-- A table with one range of subpages.
abbrev pub with_range : List ℕ → ℕ → ℕ → SubpageRange → PageTable
with_range pages n capacity r = record {
  pages = pages;
  pages_popcnt = n;
  subpages = r ∷ [];
  subpages_capacity = capacity;
}

module _ (popcnt : ℕ → ℕ) (grants : ℕ → Bool) where
  -- On a table whose only subpages are one range of a page that was not added as a whole,
  -- vbi_page_table_remove_subpages of a valid range that meets it and does not lie strictly
  -- inside it returns TRUE and leaves exactly the subpages that are in both ranges.
  pub remove_subpages-with_range :
      (pages : List ℕ) (n capacity pgno f l a b : ℕ)
      → IsPgno pgno
      → contains_page_bit
          (with_range pages n capacity (record { pgno = pgno; first = a; last = b }))
          pgno
        ≡ false
      → f ≤ l
      → l ≤ max_subno
      → a ≤ b
      → f ≤ b
      → a ≤ l
      → (f ≤ a) ⊎ (b ≤ l)
      → remove_subpages popcnt grants
          (with_range pages n capacity (record { pgno = pgno; first = a; last = b }))
          pgno
          f
          l
        ≡ returns (
          shrink_subpages_vector grants (
              with_range pages n capacity
                (record { pgno = pgno; first = max f a; last = min l b })),
          true,
        )
  unfolding remove_subpages valid_subpage_range remove_range_of remove_loop
  remove_subpages-with_range pages n capacity pgno f l a b p absent hfl hl hab hfb hal part =
      let not_any : (any_subno == f && any_subno == l) ≡ false = ground arith in
      let fits : (ltb max_subno f || ltb max_subno l) ≡ false = ground arith in
      let ordered : ltb l f ≡ false = ground arith in
      let same : (pgno == pgno) ≡ true = ground arith in
      let meets : (ltb b f || ltb l a) ≡ false = ground arith in
      let not_inside : (ltb a f && ltb l b) ≡ false = ground arith in
      let low : (if ltb a f then f else a) ≡ max f a = ground arith in
      let high : (if ltb l b then l else b) ≡ min l b = ground arith in
      let some_left : ltb (min l b) (max f a) ≡ false = ground arith in
      rw
        (
          not_any,
          valid_pgno-IsPgno pgno p,
          fits,
          ordered,
          absent,
          same,
          meets,
          not_inside,
          low,
          high,
          some_left,
        )
        refl
