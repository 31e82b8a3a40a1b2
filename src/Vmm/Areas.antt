-- ===== src/Vmm/Areas.antt =====
-- lab8/kern/mm/vmm.c and vmm.h: one `struct mm_struct` and its areas. The area v is the list node
-- v, and 0 is the head `mmap_list` and NULL.
use oshub.Prelude.{
  ℕ, zero, suc, ◌+◌, ◌-◌, ◌%◌, ◌^◌, Bool, false, not, ltb, leb, ◌==◌, ◌&&◌, if◌then◌else◌, update,
  Run, done, assert, ◌>>=◌, ◌>>◌, Option, none, some, Error, e_inval, e_no_mem,
}
use oshub.Links
use oshub.Links.{Links}

-- `struct vma_struct`; `vm_flags` as its bits.
pub record Vma : Type 0 where
  pub vm_start : ℕ
  pub vm_end : ℕ
  pub readable : Bool
  pub writable : Bool
  pub stack : Bool

-- `struct mm_struct` and the fields of the areas.
pub record Mm : Type 0 where
  pub links : Links
  pub vmas : ℕ → Vma
  pub mmap_cache : ℕ
  pub map_count : ℕ
  pub mm_count : ℕ

abbrev pub mmap_list : ℕ
mmap_list = 0

-- `mm_create`, where `got` says whether `kmalloc` returned memory.
unfoldable pub mm_create : Bool → Mm → Option Mm
mm_create got s =
    if got
    then some (record s {
      links = Links.init mmap_list s.links;
      mmap_cache = 0;
      map_count = 0;
      mm_count = 0;
    })
    else none

-- `vma_create`, where `got` is what `kmalloc` returns.
unfoldable pub vma_create : Option ℕ → Vma → Mm → Option ℕ × Mm
vma_create none vma s = (none, s)
vma_create (some v) vma s = (some v, record s { vmas = update s.vmas v vma })

abbrev pub within : ℕ → Vma → Bool
within addr vma = leb vma.vm_start addr && ltb addr vma.vm_end

-- The walk of `find_vma` from the node `le` on.
unfoldable pub find_loop : ℕ → ℕ → ℕ → Mm → Option ℕ
find_loop zero le addr s = none
find_loop (suc f) le addr s =
    let le' = s.links.next le in
    let rest = find_loop f le' addr s in
    if le' == mmap_list then none else if within addr (s.vmas le') then some le' else rest

-- `if (vma != NULL) mm->mmap_cache = vma;`
abbrev pub remember : Option ℕ → Mm → Option ℕ × Mm
remember none s = (none, s)
remember (some v) s = (some v, record s { mmap_cache = v })

unfoldable pub find_vma : ℕ → Mm → Option ℕ × Mm
unfolding find_loop
find_vma addr s =
    remember
      (if not (s.mmap_cache == 0) && within addr (s.vmas s.mmap_cache)
        then some s.mmap_cache
        else find_loop (s.map_count + 1) mmap_list addr s)
      s

unfoldable pub check_vma_overlap : Vma → Vma → Run (Unit {0})
check_vma_overlap prev next =
    assert (ltb prev.vm_start prev.vm_end)
    >> assert (leb prev.vm_end next.vm_start)
    >> assert (ltb next.vm_start next.vm_end)

-- The walk of `insert_vma_struct`: the last area that does not begin above `start`.
unfoldable pub place_loop : ℕ → ℕ → ℕ → Mm → ℕ
place_loop zero le start s = le
place_loop (suc f) le start s =
    let le' = s.links.next le in
    let rest = place_loop f le' start s in
    if le' == mmap_list then le else if ltb start (s.vmas le').vm_start then le else rest

unfoldable pub insert_vma_struct : ℕ → Mm → Run Mm
insert_vma_struct v s =
    let le_prev = place_loop (s.map_count + 1) mmap_list (s.vmas v).vm_start s in
    let le_next = s.links.next le_prev in
    assert (ltb (s.vmas v).vm_start (s.vmas v).vm_end)
    >> (if le_prev == mmap_list then done tt else check_vma_overlap (s.vmas le_prev) (s.vmas v))
    >> (if le_next == mmap_list then done tt else check_vma_overlap (s.vmas v) (s.vmas le_next))
    >> done (record s { links = Links.add_after le_prev v s.links; map_count = s.map_count + 1 })

-- The loop of `mm_destroy`: the first area leaves the list while there is one.
unfoldable pub destroy_loop : ℕ → Mm → Mm
destroy_loop zero s = s
destroy_loop (suc f) s =
    let rest = destroy_loop f (record s { links = Links.del (s.links.next mmap_list) s.links }) in
    if s.links.next mmap_list == mmap_list then s else rest

unfoldable pub mm_destroy : Mm → Run Mm
unfolding destroy_loop
mm_destroy s = assert (s.mm_count == 0) >> done (destroy_loop (s.map_count + 1) s)

abbrev pub pgsize : ℕ
pgsize = 4096

abbrev pub round_down : ℕ → ℕ
round_down a = a - a % pgsize

abbrev pub round_up : ℕ → ℕ
round_up a = round_down ((a + pgsize - 1) % 2 ^ 64)

-- `USER_ACCESS`
abbrev pub user_access : ℕ → ℕ → Bool
user_access start end = leb 2097152 start && ltb start end && leb end (2 ^ 31)

-- Does an area that was found begin below `end`?
abbrev pub meets : Option ℕ → ℕ → Mm → Bool
meets none end s = false
meets (some v) end s = ltb (s.vmas v).vm_start end

-- `mm_map`, where `got` is what `kmalloc` returns; it gives the new area.
unfoldable pub mm_map : ℕ → ℕ → Vma → Option ℕ → Mm → Run ((Option Error × Option ℕ) × Mm)
unfolding find_vma vma_create insert_vma_struct
mm_map addr len flags got s =
    let start = round_down addr in
    let end = round_up ((addr + len) % 2 ^ 64) in
    if not (user_access start end)
    then done ((some e_inval, none), s)
    else let (found, s) = find_vma start s in
      if meets found end s
      then done ((some e_inval, none), s)
      else let (made, s) = vma_create got (record flags { vm_start = start; vm_end = end }) s in
        elim made [
          | none ↦ done ((some e_no_mem, none), s)
          | some v ↦ insert_vma_struct v s >>= λ s. done ((none, some v), s)
        ]
