-- ===== src/PageTable/Subpages.antt =====
-- src/page_table.c: adding and removing ranges of subpages.
use zvbi.PageTable.Pages.{remove_pages, add_pages, offset_of}
use zvbi.PageTable.State.{
  SubpageRange, PageTable, max_subno, any_subno, valid_pgno, contains_page_bit, contains_page,
}
use zvbi.PageTable.Vector.{extend_subpages_vector, shrink_subpages_vector}
use zvbi.Prelude.{
  ℕ, suc, ◌+◌, ◌-◌, Bool, true, false, not, ◌&&◌, ◌||◌, List, [], ◌∷◌, ◌++◌, Option, none, some,
  bit_and, ◌==◌, ltb, leb, if◌then◌else◌, length, get_or, set, u32, complement, ◌<<<◌, Outcome,
  returns, out_of_bounds, ◌>>=◌,
}

-- `valid_subpage_range`.
unfoldable pub valid_subpage_range : ℕ → ℕ → ℕ → Bool
unfolding valid_pgno
valid_subpage_range pgno first_subno last_subno =
    if not (valid_pgno pgno)
    then false
    else if ltb max_subno first_subno || ltb max_subno last_subno
    then false
    else true

-- A write of the element behind the last.
unfoldable pub store : SubpageRange → PageTable → Outcome PageTable
store r pt =
    if ltb (length pt.subpages) pt.subpages_capacity
    then returns (record pt { subpages = pt.subpages ++ (r ∷ []) })
    else out_of_bounds

-- The loop of `vbi_page_table_add_subpages`: the ranges with the first that meets the new one
-- widened, if there is one.
unfoldable pub widen : List SubpageRange → ℕ → ℕ → ℕ → Option (List SubpageRange)
widen [] pgno first_subno last_subno = none
widen (r ∷ rs) pgno first_subno last_subno =
    let rest = widen rs pgno first_subno last_subno in
    if pgno == r.pgno && (leb r.first last_subno && leb first_subno r.last)
    then some (
        record r {
          first = if ltb first_subno r.first then first_subno else r.first;
          last = if ltb r.last last_subno then last_subno else r.last;
        }
        ∷ rs)
    else elim rest [ none ↦ none | some rs' ↦ some (r ∷ rs') ]

-- The ranges while `vbi_page_table_remove_subpages` goes over them: the capacity and the result too.
pub record Removal : Type 0 where
  pub ranges : List SubpageRange
  pub capacity : ℕ
  pub ok : Bool

-- What is left of a page that was there with all subpages.
abbrev pub all_but : ℕ → ℕ → ℕ → PageTable → Outcome PageTable
all_but pgno first_subno last_subno pt = do
  pt' ←
      (if ltb 0 first_subno
        then store (record { pgno = pgno; first = 0; last = first_subno - 1 }) pt
        else returns pt)
  (if ltb last_subno max_subno
      then store (record { pgno = pgno; first = last_subno + 1; last = max_subno }) pt'
      else returns pt')

module _ (popcnt : ℕ → ℕ) (grants : ℕ → Bool) where
  -- The end of `vbi_page_table_add_subpages`.
  unfoldable pub append_range : PageTable → SubpageRange → Outcome (PageTable × Bool)
  unfolding store
  append_range pt r =
      let (pt', ok) = extend_subpages_vector grants pt (length pt.subpages + 1) in
      if not ok then returns (pt', false) else (store r pt' >>= λ pt''. returns (pt'', true))

  unfoldable pub add_range_of : PageTable → ℕ → ℕ → ℕ → Outcome (PageTable × Bool)
  unfolding widen append_range
  add_range_of pt pgno first_subno last_subno =
      elim (widen pt.subpages pgno first_subno last_subno) [
        | some rs ↦ returns (record pt { subpages = rs }, true)
        | none ↦ append_range pt (record { pgno = pgno; first = first_subno; last = last_subno })
      ]

  -- `vbi_page_table_add_subpages`.
  unfoldable pub add_subpages : PageTable → ℕ → ℕ → ℕ → Outcome (PageTable × Bool)
  unfolding valid_subpage_range add_range_of
  add_subpages pt pgno first_subno last_subno =
      if any_subno == first_subno && any_subno == last_subno
      then returns (add_pages popcnt grants pt pgno pgno)
      else if not (valid_subpage_range pgno first_subno last_subno)
      then returns (pt, false)
      else if contains_page pt pgno
      then returns (pt, true)
      else if ltb last_subno first_subno
      then add_range_of pt pgno last_subno first_subno
      else add_range_of pt pgno first_subno last_subno

  -- The loop of `vbi_page_table_remove_subpages`, with the ranges before and from the current one on.
  unfoldable pub remove_loop :
      List SubpageRange → List SubpageRange → ℕ → ℕ → ℕ → ℕ → Outcome Removal
  remove_loop done [] capacity pgno first_subno last_subno =
      returns (record { ranges = done; capacity = capacity; ok = true })
  remove_loop done (r ∷ rs) capacity pgno first_subno last_subno =
      let size = length done + suc (length rs) in
      let pt : PageTable = record {
        pages = [];
        pages_popcnt = 0;
        subpages = done ++ (r ∷ rs);
        subpages_capacity = capacity;
      } in
      let grown = extend_subpages_vector grants pt (size + 1) in
      let low = if ltb r.first first_subno then first_subno else r.first in
      let high = if ltb last_subno r.last then last_subno else r.last in
      let cut = record r { first = low; last = high } in
      let passed = remove_loop (done ++ (r ∷ [])) rs capacity pgno first_subno last_subno in
      let split =
        remove_loop
          (done ++ (record r { last = first_subno } ∷ record r { first = last_subno + 1 } ∷ [])) rs
          grown.0.subpages_capacity pgno first_subno last_subno in
      let dropped = remove_loop done rs capacity pgno first_subno last_subno in
      let kept = remove_loop (done ++ (cut ∷ [])) rs capacity pgno first_subno last_subno in
      if not (pgno == r.pgno) || (ltb r.last first_subno || ltb last_subno r.first)
      then passed
      else if ltb r.first first_subno && ltb last_subno r.last
      then (if not grown.1
          then returns (record {
            ranges = done ++ (r ∷ rs);
            capacity = grown.0.subpages_capacity;
            ok = false;
          })
          else if ltb size grown.0.subpages_capacity
          then split
          else out_of_bounds)
      else if ltb high low
      then (if ltb size capacity then dropped else out_of_bounds)
      else kept

  unfoldable pub remove_range_of : PageTable → ℕ → ℕ → ℕ → Outcome (PageTable × Bool)
  unfolding remove_loop contains_page_bit
  remove_range_of pt pgno first_subno last_subno =
      if contains_page_bit pt pgno
      then (let (pt', ok) = extend_subpages_vector grants pt (length pt.subpages + 2) in
          if not ok
          then returns (pt', false)
          else (all_but pgno first_subno last_subno (record pt' {
            pages_popcnt = u32 (pt'.pages_popcnt + 0xffffffff);
            pages = set pt'.pages (offset_of pgno) (
                bit_and (get_or pt'.pages (offset_of pgno) 0)
                  (complement (u32 (1 <<< bit_and pgno 31))));
          })
              >>= λ pt''. returns (pt'', true)))
      else (remove_loop [] pt.subpages pt.subpages_capacity pgno first_subno last_subno >>= λ m.
          if m.ok
          then returns (
            shrink_subpages_vector grants
                (record pt { subpages = m.ranges; subpages_capacity = m.capacity }),
            true,
          )
          else returns (record pt { subpages = m.ranges; subpages_capacity = m.capacity }, false))

  -- `vbi_page_table_remove_subpages`.
  unfoldable pub remove_subpages : PageTable → ℕ → ℕ → ℕ → Outcome (PageTable × Bool)
  unfolding valid_subpage_range remove_range_of
  remove_subpages pt pgno first_subno last_subno =
      if any_subno == first_subno && any_subno == last_subno
      then returns (remove_pages popcnt grants pt pgno pgno)
      else if not (valid_subpage_range pgno first_subno last_subno)
      then returns (pt, false)
      else if ltb last_subno first_subno
      then remove_range_of pt pgno last_subno first_subno
      else remove_range_of pt pgno first_subno last_subno
