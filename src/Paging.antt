-- ===== src/Paging.antt =====
-- lab8/kern/mm/pmm.c: page tables of three levels, over the page manager of Pmm. A page is named by
-- its number there, and its physical page number is that number above `base`, which is `nbase`; page tables are the
-- entries of every page. The TLB and the contents of other pages are left out.
pub mod Routes
pub mod Mapping
pub mod Insert
pub mod Ranges
pub mod Forgotten
mod Tests
use oshub.Prelude.{
  ℕ, zero, suc, ◌+◌, ◌-◌, ◌*◌, ◌/◌, ◌%◌, ◌^◌, Bool, true, false, not, ◌==◌, ltb, leb, if◌then◌else◌,
  ◌&&◌, update, Option, none, some, Run, done, panic, assert, ◌>>=◌, ◌>>◌, Error, Eff, ok, fail,
  stop,
}
use oshub.Pmm
use oshub.Pmm.{Pages}

pub record Paging : Type 0 where
  pub pages : Pages
  pub tables : ℕ → ℕ → ℕ
  pub base : ℕ
  pub npage : ℕ

-- `PDX1`, `PDX0` and `PTX`
abbrev pub pdx1 : ℕ → ℕ
pdx1 la = la / 2 ^ 30 % 512

abbrev pub pdx0 : ℕ → ℕ
pdx0 la = la / 2 ^ 21 % 512

abbrev pub ptx : ℕ → ℕ
ptx la = la / 2 ^ 12 % 512

abbrev pub pgsize : ℕ
pgsize = 2 ^ 12

abbrev pub ptsize : ℕ
ptsize = 2 ^ 21

-- `PTE_U | PTE_V`
abbrev pub pte_dir : ℕ
pte_dir = 17

-- `pte & PTE_V`
abbrev pub is_valid : ℕ → Bool
is_valid pte = pte % 2 == 1

-- `(ppn << 10) | PTE_V | type`, where `type` has at most 10 bits.
abbrev pub pte_create : ℕ → ℕ → ℕ
pte_create ppn type = ppn * 2 ^ 10 + (type % 2 ^ 10 / 2 * 2 + 1)

-- `KADDR(PDE_ADDR(pte))` and `pde2page`: the page that an entry names, which must exist. The code
-- tests the upper bound only; below the first page there is no page that the model could give.
abbrev pub page_of : ℕ → Paging → Run ℕ
page_of pte s = do
  assert (leb s.base (pte / 2 ^ 10) && ltb (pte / 2 ^ 10) s.npage)
  done (pte / 2 ^ 10 - s.base)

abbrev pub pte2page : ℕ → Paging → Run ℕ
pte2page pte s = do assert (is_valid pte); page_of pte s

abbrev pub set_entry : ℕ → ℕ → ℕ → Paging → Paging
set_entry t i pte s = record s { tables = update s.tables t (update (s.tables t) i pte) }

abbrev pub set_page_ref : ℕ → ℕ → Paging → Paging
set_page_ref p n s = record s { pages = record s.pages { ref = update s.pages.ref p n } }

-- `page_ref_inc` and `page_ref_dec` on 32 bits.
abbrev pub page_ref_inc : ℕ → Paging → Paging
page_ref_inc p s = set_page_ref p ((s.pages.ref p + 1) % 2 ^ 32) s

abbrev pub page_ref_dec : ℕ → Paging → Paging
page_ref_dec p s = set_page_ref p ((s.pages.ref p + 2 ^ 32 - 1) % 2 ^ 32) s

unfoldable pub alloc_page : Paging → Run (Option ℕ × Paging)
alloc_page s = Pmm.alloc_pages 1 s.pages >>= λ (o, ps). done (o, record s { pages = ps })

unfoldable pub free_page : ℕ → Paging → Run Paging
free_page p s = Pmm.free_pages p 1 s.pages >>= λ ps. done (record s { pages = ps })

-- The new page becomes an empty table that the entry `i` of `t` names.
abbrev pub new_table : ℕ → ℕ → Option ℕ × Paging → Run (Bool × Paging)
new_table t i (none, s) = done (false, s)
new_table t i (some p, s) =
    let s1 = set_page_ref p 1 s in
    let s2 = record s1 { tables = update s1.tables p (λ _. 0) } in
    assert (ltb (s.base + p) s.npage)
    >> done (true, set_entry t i (pte_create (s.base + p) pte_dir) s2)

-- One of the two directories on the way of `get_pte`: whether its entry is there.
unfoldable pub ensure : Bool → ℕ → ℕ → Paging → Run (Bool × Paging)
ensure create t i s =
    if is_valid (s.tables t i)
    then done (true, s)
    else if create
    then (alloc_page s >>= new_table t i)
    else done (false, s)

-- The end of `get_pte`, and its second half: `none` stands for NULL, and an entry is named by its
-- table and its index there.
abbrev pub in_table : ℕ → ℕ → Bool × Paging → Run (Option (ℕ × ℕ) × Paging)
in_table t la (false, s) = done (none, s)
in_table t la (true, s) = page_of (s.tables t (pdx0 la)) s >>= λ t0. done (some (t0, ptx la), s)

abbrev pub in_directory : Bool → ℕ → ℕ → Bool × Paging → Run (Option (ℕ × ℕ) × Paging)
in_directory create pgdir la (false, s) = done (none, s)
in_directory create pgdir la (true, s) =
    page_of (s.tables pgdir (pdx1 la)) s >>= λ t1. ensure create t1 (pdx0 la) s >>= in_table t1 la

unfoldable pub get_pte : Bool → ℕ → ℕ → Paging → Run (Option (ℕ × ℕ) × Paging)
get_pte create pgdir la s = ensure create pgdir (pdx1 la) s >>= in_directory create pgdir la

abbrev pub page_at : Option (ℕ × ℕ) × Paging → Run (Option ℕ)
page_at (none, s) = done none
page_at (some (t, i), s) =
    if is_valid (s.tables t i)
    then (pte2page (s.tables t i) s >>= λ p. done (some p))
    else done none

unfoldable pub get_page : ℕ → ℕ → Paging → Run (Option ℕ)
get_page pgdir la s = get_pte false pgdir la s >>= page_at

-- A reference less, and no page without one.
unfoldable pub drop_page : ℕ → Paging → Run Paging
drop_page p s = let s' = page_ref_dec p s in if s'.pages.ref p == 0 then free_page p s' else done s'

unfoldable pub page_remove_pte : ℕ → ℕ → Paging → Run Paging
page_remove_pte t i s =
    if is_valid (s.tables t i)
    then (pte2page (s.tables t i) s >>= λ p. drop_page p s >>= λ s'. done (set_entry t i 0 s'))
    else done s

abbrev pub removed_at : Option (ℕ × ℕ) × Paging → Run Paging
removed_at (none, s) = done s
removed_at (some (t, i), s) = page_remove_pte t i s

unfoldable pub page_remove : ℕ → ℕ → Paging → Run Paging
page_remove pgdir la s = get_pte false pgdir la s >>= removed_at

-- `page_insert` at the entry: what it named before loses a reference, unless it is the same page.
abbrev pub replace : ℕ → ℕ → ℕ → Paging → Run Paging
replace page t i s =
    let s1 = page_ref_inc page s in
    if is_valid (s.tables t i)
    then (pte2page (s.tables t i) s1 >>= λ p.
        if p == page then done (page_ref_dec page s1) else page_remove_pte t i s1)
    else done s1

abbrev pub written : ℕ → ℕ → ℕ → ℕ → Paging → Run Paging → Eff Paging (Unit {0})
written page perm t i s (done s') = ok tt (set_entry t i (pte_create (s.base + page) perm) s')
written page perm t i s panic = stop

abbrev pub inserted_at : ℕ → ℕ → Option (ℕ × ℕ) × Paging → Eff Paging (Unit {0})
inserted_at page perm (none, s) = fail Error.e_no_mem s
inserted_at page perm (some (t, i), s) = written page perm t i s (replace page t i s)

abbrev pub insert_with : ℕ → ℕ → Run (Option (ℕ × ℕ) × Paging) → Eff Paging (Unit {0})
insert_with page perm (done r) = inserted_at page perm r
insert_with page perm panic = stop

unfoldable pub page_insert : ℕ → ℕ → ℕ → ℕ → Paging → Eff Paging (Unit {0})
page_insert pgdir page la perm s = insert_with page perm (get_pte true pgdir la s)
