-- ===== src/Paging/Ranges.antt =====
-- lab8/kern/mm/pmm.c: the functions on ranges of addresses, and `pgdir_alloc_page`. The fuel `f`
-- bounds the rounds of a loop; addresses are 64-bit words.
use oshub.Prelude.{
  ℕ, zero, suc, ◌+◌, ◌-◌, ◌%◌, ◌^◌, Bool, true, false, not, ◌==◌, ltb, if◌then◌else◌, ◌&&◌, Option,
  none, some, Run, done, panic, assert, ◌>>=◌, ◌>>◌, Eff, ok, fail, stop,
}
use oshub.Vmm.Areas.{user_access}
use oshub.Paging.{
  Paging, pdx1, pdx0, pgsize, ptsize, is_valid, page_of, set_entry, alloc_page, free_page, get_pte,
  page_remove_pte, page_insert,
}

abbrev pub pdsize : ℕ
pdsize = 2 ^ 30

abbrev pub align : ℕ → ℕ → ℕ
align a size = a - a % size

abbrev pub word : ℕ → ℕ
word a = a % 2 ^ 64

-- The assertions at the head of each function.
abbrev pub checked : ℕ → ℕ → Bool
checked start end = (start % pgsize == 0) && (end % pgsize == 0) && user_access start end

abbrev pub goes_on : ℕ → ℕ → Bool
goes_on start end = not (start == 0) && ltb start end

-- One round of `unmap_range` at `start`: the address of the next one.
abbrev pub unmap_at : ℕ → Option (ℕ × ℕ) × Paging → Run (ℕ × Paging)
unmap_at start (none, s) = done (word (align (start + ptsize) ptsize), s)
unmap_at start (some (t, i), s) =
    let next = word (start + pgsize) in
    if not (s.tables t i == 0)
    then (page_remove_pte t i s >>= λ s'. done (next, s'))
    else done (next, s)

unfoldable pub unmap_loop : ℕ → ℕ → ℕ → ℕ → Paging → Run Paging
unmap_loop zero pgdir start end s = done s
unmap_loop (suc f) pgdir start end s =
    get_pte false pgdir start s >>= unmap_at start >>= λ (next, s').
    (let rest = unmap_loop f pgdir next end s' in if goes_on next end then rest else done s')

unfoldable pub unmap_range : ℕ → ℕ → ℕ → ℕ → Paging → Run Paging
unmap_range f pgdir start end s = assert (checked start end) >> unmap_loop f pgdir start end s

-- Whether the first `n` entries of a table are invalid, all 512 in the code.
unfoldable pub is_empty_table : ℕ → ℕ → Paging → Bool
is_empty_table zero pt s = true
is_empty_table (suc n) pt s = not (is_valid (s.tables pt n)) && is_empty_table n pt s

-- A round of the inner loop of `exit_range` for the entry `i` of the directory `pd0`, with
-- `free_pd0`.
unfoldable pub exit_table : ℕ → ℕ → Bool → Paging → Run (Bool × Paging)
exit_table pd0 i free s =
    if is_valid (s.tables pd0 i)
    then (page_of (s.tables pd0 i) s >>= λ pt.
        if is_empty_table 512 pt s
        then (free_page pt s >>= λ s'. done (free, set_entry pd0 i 0 s'))
        else done (free, s))
    else done (false, s)

unfoldable pub exit_tables : ℕ → ℕ → ℕ → ℕ → ℕ → Bool → Paging → Run (Bool × Paging)
exit_tables zero pd0 d0start d1start end free s = done (free, s)
exit_tables (suc f) pd0 d0start d1start end free s =
    let next = word (d0start + ptsize) in
    exit_table pd0 (pdx0 d0start) free s >>= λ (free', s').
    (let rest = exit_tables f pd0 next d1start end free' s' in
      if goes_on next end && ltb next (d1start + pdsize) then rest else done (free', s'))

-- The level-0 directory `pd0` goes if `free_pd0` is still set.
abbrev pub free_directory : ℕ → ℕ → ℕ → Bool × Paging → Run Paging
free_directory pgdir i pd0 (true, s) = free_page pd0 s >>= λ s'. done (set_entry pgdir i 0 s')
free_directory pgdir i pd0 (false, s) = done s

-- A round of the outer loop.
unfoldable pub exit_directory : ℕ → ℕ → ℕ → ℕ → ℕ → Paging → Run Paging
exit_directory f pgdir d1start d0start end s =
    let i = pdx1 d1start in
    if is_valid (s.tables pgdir i)
    then (page_of (s.tables pgdir i) s >>= λ pd0.
        exit_tables f pd0 d0start d1start end true s >>= free_directory pgdir i pd0)
    else done s

unfoldable pub exit_loop : ℕ → ℕ → ℕ → ℕ → ℕ → Paging → Run Paging
exit_loop zero pgdir d1start d0start end s = done s
exit_loop (suc f) pgdir d1start d0start end s =
    let next = word (d1start + pdsize) in
    exit_directory f pgdir d1start d0start end s >>= λ s'.
    (let rest = exit_loop f pgdir next next end s' in if goes_on next end then rest else done s')

unfoldable pub exit_range : ℕ → ℕ → ℕ → ℕ → Paging → Run Paging
exit_range f pgdir start end s =
    assert (checked start end) >> exit_loop f pgdir (align start pdsize) (align start ptsize) end s

-- `pgdir_alloc_page` with the page that `alloc_page` returned; `pra_vaddr` is left out.
abbrev pub mapped_page : ℕ → Eff Paging (Unit {0}) → Run (Option ℕ × Paging)
mapped_page p (ok _ s') = do assert (s'.pages.ref p == 1); done (some p, s')
mapped_page p (fail _ s') = do s'' ← free_page p s'; done (none, s'')
mapped_page p stop = panic

abbrev pub with_page : ℕ → ℕ → ℕ → Option ℕ × Paging → Run (Option ℕ × Paging)
with_page pgdir la perm (none, s) = done (none, s)
with_page pgdir la perm (some p, s) = mapped_page p (page_insert pgdir p la perm s)

unfoldable pub pgdir_alloc_page : ℕ → ℕ → ℕ → Paging → Run (Option ℕ × Paging)
pgdir_alloc_page pgdir la perm s = alloc_page s >>= with_page pgdir la perm
