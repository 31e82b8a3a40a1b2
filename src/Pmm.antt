-- ===== src/Pmm.antt =====
-- lab8/kern/mm/default_pmm.c: the first-fit manager of physical pages, and the fields of
-- `struct Page` (lab8/kern/mm/memlayout.h) that it keeps.
--
-- A page is named by its page number (`page2ppn` of pmm.h), which is at least
-- `nbase = DRAM_BASE / PGSIZE > 0`; pointer arithmetic and comparison within `pages` are those of
-- the numbers. `page_link` of page p is the list node p, and the node 0 is `free_list`.
pub mod Blocks
pub mod Walk
pub mod Alloc
pub mod Clear
pub mod Enlist
pub mod Free
pub mod Release
pub mod Behind
mod Tests
pub mod Refine
use oshub.Prelude.{
  ℕ, zero, suc, ◌+◌, ◌-◌, ◌%◌, ◌^◌, Bool, true, false, not, ◌&&◌, Option, none, some, ltb, leb,
  ◌==◌, if◌then◌else◌, update, Run, done, assert, ◌>>=◌, ◌>>◌,
}
use oshub.Links
use oshub.Links.{Links}

abbrev pub free_list : ℕ
free_list = 0

-- `unsigned int`
abbrev pub u32 : ℕ → ℕ
u32 x = x % 2 ^ 32

-- `free_area`, and of every page `ref`, the two bits of `flags`, `property` and `page_link`
pub record Pages : Type 0 where
  pub links : Links
  pub nr_free : ℕ
  pub property : ℕ → ℕ
  pub has_property : ℕ → Bool
  pub reserved : ℕ → Bool
  pub ref : ℕ → ℕ

unfoldable pub init : Pages → Pages
init s = record s { links = Links.init free_list s.links; nr_free = 0 }

-- The loop of `default_init_memmap` over the `n` pages from `p`.
unfoldable pub reset_pages : ℕ → ℕ → Pages → Run Pages
reset_pages zero p s = done s
reset_pages (suc n) p s = do
  assert (s.reserved p)
  reset_pages n (p + 1) (record s {
    property = update s.property p 0;
    has_property = update s.has_property p false;
    reserved = update s.reserved p false;
    ref = update s.ref p 0;
  })

-- The loop of `default_free_pages` over the `n` pages from `p`.
unfoldable pub clear_pages : ℕ → ℕ → Pages → Run Pages
clear_pages zero p s = done s
clear_pages (suc n) p s = do
  assert (not (s.reserved p) && not (s.has_property p))
  clear_pages n (p + 1) (record s {
    has_property = update s.has_property p false;
    reserved = update s.reserved p false;
    ref = update s.ref p 0;
  })

-- The walk `while ((le = list_next(le)) != &free_list)` that finds the place of `base`: on fuel,
-- one for each node that it passes.
unfoldable pub place_loop : ℕ → ℕ → ℕ → Links → Links
place_loop zero le base l = l
place_loop (suc f) le base l =
    let page = l.next le in
    let before = Links.add_before page base l in
    let passed = place_loop f page base l in
    let behind = place_loop f page base (Links.add page base l) in
    if page == free_list
    then l
    else if ltb base page
    then before
    else if l.next page == free_list
    then behind
    else passed

-- What `default_init_memmap` and `default_free_pages` do alike: `base` becomes the head of a free
-- block of `n` pages, and its node is put into the list.
unfoldable pub enlist : ℕ → ℕ → Pages → Pages
enlist base n s =
    let total = u32 (s.nr_free + n) in
    record s {
      property = update s.property base (u32 n);
      has_property = update s.has_property base true;
      nr_free = total;
      links =
          if Links.is_empty free_list s.links
          then Links.add free_list base s.links
          else place_loop (total + 1) free_list base s.links;
    }

unfoldable pub init_memmap : ℕ → ℕ → Pages → Run Pages
unfolding reset_pages
init_memmap base n s = do assert (ltb 0 n); s ← reset_pages n base s; done (enlist base n s)

-- The first block behind `le` with at least `n` pages.
unfoldable pub find_loop : ℕ → ℕ → ℕ → Pages → Option ℕ
find_loop zero le n s = none
find_loop (suc f) le n s =
    let p = s.links.next le in
    let rest = find_loop f p n s in
    if p == free_list then none else if leb n (s.property p) then some p else rest

-- The block at `page` leaves the list; what it has beyond `n` pages takes its place.
unfoldable pub take : ℕ → ℕ → Pages → Pages
take page n s =
    let before = s.links.prev page in
    let l = Links.del page s.links in
    let p = page + n in
    let s' =
      if ltb n (s.property page)
      then record s {
        links = Links.add before p l;
        property = update s.property p (s.property page - n);
        has_property = update s.has_property p true;
      }
      else record s { links = l } in
    record s' { nr_free = s.nr_free - n; has_property = update s'.has_property page false }

-- `default_alloc_pages`: the page, or `none` for NULL.
unfoldable pub alloc_pages : ℕ → Pages → Run (Option ℕ × Pages)
unfolding find_loop
alloc_pages n s = do
  assert (ltb 0 n)
  done (
      if ltb s.nr_free n then (none, s) else elim (find_loop (s.nr_free + 2) free_list n s) [
        | none ↦ (none, s)
        | some page ↦ (some page, take page n s)
      ])

-- The merge of the block at `base` with the one before it, and the block that `base` then names.
unfoldable pub merge_left : ℕ → Pages → ℕ × Pages
merge_left base s =
    let p = s.links.prev base in
    if p == free_list
    then (base, s)
    else if p + s.property p == base
    then (
      p,
      record s {
        property = update s.property p (u32 (s.property p + s.property base));
        has_property = update s.has_property base false;
        links = Links.del base s.links;
      },
    )
    else (base, s)

-- The merge with the one behind it.
unfoldable pub merge_right : ℕ → Pages → Pages
merge_right base s =
    let p = s.links.next base in
    if p == free_list
    then s
    else if base + s.property base == p
    then record s {
      property = update s.property base (u32 (s.property base + s.property p));
      has_property = update s.has_property p false;
      links = Links.del p s.links;
    }
    else s

unfoldable pub free_pages : ℕ → ℕ → Pages → Run Pages
unfolding clear_pages
free_pages base n s = do
  assert (ltb 0 n)
  s ← clear_pages n base s
  let (base', s') = merge_left base (enlist base n s)
  done (merge_right base' s')
