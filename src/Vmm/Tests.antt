-- ===== src/Vmm/Tests.antt =====
-- A process with two areas.
use oshub.Prelude.{
  ℕ, ◌+◌, ◌%◌, ◌^◌, ◌≤◌, ◌<◌, ◌≡◌, ◌↔◌, refl, true, ◌==◌, ◌⊎◌, arith, if◌then◌else◌, done, panic,
  List, [], ◌∷◌, ◌++◌,
}
use oshub.Vmm.Areas.{Mm, user_access, find_vma, insert_vma_struct}
use oshub.Vmm.Access.{user_mem_check}
use oshub.Vmm.Lookup.{area_at, Areas, find_vma_lem}
use oshub.Vmm.Check.{Allowed, user_mem_check_lem}
use oshub.Vmm.Gap.{Overlaps}
use oshub.Vmm.Insert.{insert_vma_struct_lem}

-- 1 is the program from 0x800000 on, 2 the stack behind it, and 3 an area that is not in the list.
abbrev process : Mm
process = record {
  links = record {
    prev = λ x. if x == 0 then 2 else if x == 1 then 0 else if x == 2 then 1 else 0;
    next = λ x. if x == 0 then 1 else if x == 1 then 2 else 0;
  };
  vmas = λ v. record {
    vm_start = if v == 1 then 8388608 else if v == 2 then 8454144 else 4194304;
    vm_end = if v == 1 then 8454144 else if v == 2 then 8519680 else 4198400;
    readable = true;
    writable = true;
    stack = v == 2;
  };
  mmap_cache = 1;
  map_count = 2;
  mm_count = 1;
}

process-Areas : Areas process (1 ∷ 2 ∷ [])
process-Areas = record {
  ring = record {
    chain = ((refl, refl), ((refl, refl), (refl, refl)));
    distinct = (
      (λ e. omega (arith, e), (λ e. omega (arith, e), tt)),
      ((λ e. omega (arith, e), tt), (tt, tt)),
    );
  };
  ordered = (omega arith, omega arith, (omega arith, omega arith, tt));
  counted = refl;
  cached = λ addr ne i. rw i refl;
}

find_vma_lem_example :
    ((find_vma 8460000 process).0 ≡ area_at process.vmas (1 ∷ 2 ∷ []) 8460000)
    × ((find_vma 8460000 process).1.vmas ≡ process.vmas)
    × Areas (find_vma 8460000 process).1 (1 ∷ 2 ∷ [])
find_vma_lem_example = find_vma_lem process (1 ∷ 2 ∷ []) 8460000 process-Areas

user_mem_check_lem_example :
    (((user_mem_check 8450000 100 true process).0 ≡ true) ↔ (
      (user_access 8450000 ((8450000 + 100) % 2 ^ 64) ≡ true)
      × ((x : ℕ)
          → 8450000 ≤ x
          → x < (8450000 + 100) % 2 ^ 64
          → Allowed true process.vmas (1 ∷ 2 ∷ []) x)))
    × ((user_mem_check 8450000 100 true process).1.vmas ≡ process.vmas)
    × Areas (user_mem_check 8450000 100 true process).1 (1 ∷ 2 ∷ [])
user_mem_check_lem_example = user_mem_check_lem process (1 ∷ 2 ∷ []) 8450000 100 true process-Areas

insert_vma_struct_lem_example :
    ((insert_vma_struct 3 process ≡ panic)
      × (((process.vmas 3).vm_end ≤ (process.vmas 3).vm_start)
          ⊎ Overlaps process.vmas (1 ∷ 2 ∷ []) (process.vmas 3)))
    ⊎ ((ls : List ℕ) × (hs : List ℕ) × (s' : Mm) × (1 ∷ 2 ∷ [] ≡ ls ++ hs)
        × (insert_vma_struct 3 process ≡ done s')
        × (s'.vmas ≡ process.vmas)
        × Areas s' (ls ++ 3 ∷ hs))
insert_vma_struct_lem_example =
    insert_vma_struct_lem process (1 ∷ 2 ∷ []) 3 process-Areas
      (λ e. omega (arith, e), (λ e. omega (arith, e), (λ e. omega (arith, e), tt)))
