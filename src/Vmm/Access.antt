-- ===== src/Vmm/Access.antt =====
-- Access of the kernel to the memory of a process, of lab8/kern/mm/vmm.c.
use oshub.Prelude.{
  ℕ, zero, suc, ◌+◌, ◌-◌, ◌%◌, ◌^◌, Bool, true, false, not, ltb, leb, ◌==◌, ◌&&◌, if◌then◌else◌,
  none, some,
}
use oshub.Memory.{Bytes, memcpy, strnlen}
use oshub.Vmm.Areas.{Vma, Mm, pgsize, round_down, user_access, find_vma}

-- The tests of the loop of `user_mem_check` at the address `start` in the area `vma`.
unfoldable pub permits : Bool → ℕ → Vma → Bool
permits write start vma =
    leb vma.vm_start start
    && (if write then vma.writable else vma.readable)
    && not (write && (vma.stack && ltb start (vma.vm_start + pgsize)))

-- The loop, with as much fuel as there are addresses.
unfoldable pub check_loop : ℕ → Bool → ℕ → ℕ → Mm → Bool × Mm
check_loop zero write start end s = (not (ltb start end), s)
check_loop (suc f) write start end s0 =
    let (found, s) = find_vma start s0 in
    if ltb start end
    then elim found [
      | none ↦ (false, s)
      | some v ↦
          let rest = check_loop f write (s.vmas v).vm_end end s in
          if permits write start (s.vmas v) then rest else (false, s)
    ]
    else (true, s0)

-- `user_mem_check` of a process that has an `mm_struct`, and where there is none.
unfoldable pub user_mem_check : ℕ → ℕ → Bool → Mm → Bool × Mm
user_mem_check addr len write s =
    let end = (addr + len) % 2 ^ 64 in
    if user_access addr end then check_loop (end - addr) write addr end s else (false, s)

-- `KERNBASE` and `KERNTOP`
abbrev pub kern_base : ℕ
kern_base = 2 ^ 64 - 1071644672

abbrev pub kern_top : ℕ
kern_top = kern_base + 132120576

unfoldable pub kern_mem_check : ℕ → ℕ → Bool
kern_mem_check addr len =
    let end = (addr + len) % 2 ^ 64 in leb kern_base addr && ltb addr end && leb end kern_top

-- A copy with its result, the areas and the memory.
abbrev pub copy_if : Bool × Mm → Bytes → Bytes → Bool × Mm × Bytes
copy_if (true, s) copied m = (true, s, copied)
copy_if (false, s) copied m = (false, s, m)

unfoldable pub copy_from_user : ℕ → ℕ → ℕ → Bool → Mm → Bytes → Bool × Mm × Bytes
unfolding user_mem_check
copy_from_user dst src len writable s m =
    copy_if (user_mem_check src len writable s) (memcpy dst src len m) m

unfoldable pub copy_to_user : ℕ → ℕ → ℕ → Mm → Bytes → Bool × Mm × Bytes
unfolding user_mem_check
copy_to_user dst src len s m = copy_if (user_mem_check dst len true s) (memcpy dst src len m) m

-- The loop of `copy_string`; every round copies some bytes or is the last one.
unfoldable pub copy_loop : ℕ → ℕ → ℕ → ℕ → ℕ → Mm → Bytes → Bool × Mm × Bytes
unfolding user_mem_check
copy_loop zero part dst src maxn s m = (false, s, m)
copy_loop (suc f) part0 dst src maxn s m =
    let part = if ltb maxn part0 then maxn else part0 in
    let alen = strnlen src part m in
    let (allowed, s) = user_mem_check src part false s in
    let rest =
      copy_loop f pgsize (dst + part) (src + part) (maxn - part) s (memcpy dst src part m) in
    if not allowed
    then (false, s, m)
    else if ltb alen part
    then (true, s, memcpy dst src (alen + 1) m)
    else if part == maxn
    then (false, s, m)
    else rest

unfoldable pub copy_string : ℕ → ℕ → ℕ → Mm → Bytes → Bool × Mm × Bytes
unfolding copy_loop
copy_string dst src maxn s m =
    copy_loop (maxn + 1) (round_down (src + pgsize) - src) dst src maxn s m
