-- ===== src/Pmm/Tests.antt =====
-- The first-fit manager at concrete states, and the theorems about it there.
use oshub.Prelude.{
  ℕ, ◌≤◌, ◌<◌, ◌≡◌, refl, true, false, some, [], ◌∷◌, arith, done, inl, inr, List, ◌==◌,
  if◌then◌else◌,
}
use oshub.Links
use oshub.Pmm.{Pages, init_memmap, alloc_pages, free_pages}
use oshub.Pmm.Blocks.{Block, first_fit, allocate, release, absorb}
use oshub.Pmm.Walk.{IsFree}
use oshub.Pmm.Release.{covered}
use oshub.Pmm.Alloc.{Served, alloc_pages_refines}
use oshub.Pmm.Refine.{init_memmap_refines, free_pages_refines, free_pages-alloc_pages}
use oshub.Pmm.Behind.{free_pages-alloc_twice}

abbrev no_links : Links.Links
no_links = record { prev = λ _. 0; next = λ _. 0 }

-- All pages are reserved, and the list is empty.
abbrev boot : Pages
boot = record {
  links = no_links;
  nr_free = 0;
  property = λ _. 0;
  has_property = λ _. false;
  reserved = λ _. true;
  ref = λ _. 0;
}

boot-IsFree : IsFree boot []
boot-IsFree = record {
  ring = record { chain = (refl, refl); distinct = (tt, tt) };
  sizes = tt;
  flags = tt;
  others = λ p out. refl;
  ordered = tt;
  counted = refl;
  small = omega arith;
}

-- Three free blocks, of 2, 1 and 4 pages, at 10, 14 and 20; no page is reserved.
abbrev three : Pages
three = record {
  links = record {
    prev = λ p. if p == 0 then 20 else if p == 20 then 14 else if p == 14 then 10 else 0;
    next = λ p. if p == 0 then 10 else if p == 10 then 14 else if p == 14 then 20 else 0;
  };
  nr_free = 7;
  property = λ p. if p == 10 then 2 else if p == 14 then 1 else if p == 20 then 4 else 0;
  has_property = λ p. if p == 10 then true else if p == 14 then true else p == 20;
  reserved = λ _. false;
  ref = λ _. 1;
}

abbrev three_blocks : List Block
three_blocks = (10, 2) ∷ (14, 1) ∷ (20, 4) ∷ []

three-IsFree : IsFree three three_blocks
three-IsFree = record {
  ring = record {
    chain = ((refl, refl), ((refl, refl), ((refl, refl), (refl, refl))));
    distinct = omega arith;
  };
  sizes = (refl, (refl, (refl, tt)));
  flags = (refl, (refl, (refl, tt)));
  others = λ p out. ground arith;
  ordered = omega arith;
  counted = refl;
  small = omega arith;
}

alloc_pages_refines_example :
    (s' : Pages) × (alloc_pages 3 three ≡ done (first_fit 3 three_blocks, s'))
    × Served 3 three_blocks three s'
alloc_pages_refines_example = alloc_pages_refines three 3 three_blocks three-IsFree (omega arith)

-- The pages 12 and 13 join the blocks on both sides.
free_pages_refines_example :
    (s' : Pages) × (free_pages 12 2 three ≡ done s') × IsFree s' (release 12 2 three_blocks)
free_pages_refines_example =
    free_pages_refines three 12 2 three_blocks three-IsFree (omega arith) (omega arith)
      (inr (omega arith), (inl (omega arith), (inl (omega arith), tt))) (λ q lo hi. refl)
      (inr (omega arith)) (omega arith)

joined_both_sides : release 12 2 three_blocks ≡ (10, 5) ∷ (20, 4) ∷ []
unfolding release absorb
joined_both_sides = refl

init_memmap_refines_example :
    (s' : Pages) × (init_memmap 8 100 boot ≡ done s')
    × IsFree s' ((8, 100) ∷ [])
    × ((q : ℕ) → 8 ≤ q → q < 108 → s'.reserved q ≡ false)
init_memmap_refines_example =
    init_memmap_refines boot 8 100 boot-IsFree (omega arith) (omega arith) (omega arith)
      (λ q lo hi. refl)

free_pages-alloc_pages_example :
    (s1 : Pages) × (s2 : Pages) × (cs : List Block) × (alloc_pages 2 three ≡ done (some 10, s1))
    × (free_pages 10 2 s1 ≡ done s2)
    × IsFree s2 cs
    × ((q : ℕ) → covered q cs ≡ covered q three_blocks)
unfolding first_fit allocate
free_pages-alloc_pages_example =
    free_pages-alloc_pages three 2 10 three_blocks three-IsFree (omega arith) refl (λ q lo hi. refl)
      (inr (omega arith))

-- Five pages at 30, behind all three blocks, go to two owners.
free_pages-alloc_twice_example :
    (s1 : Pages) × (s2 : Pages) × (s3 : Pages) × (free_pages 30 5 three ≡ done s1)
    × (alloc_pages 5 s1 ≡ done (some 30, s2))
    × (alloc_pages 5 s2 ≡ done (some 30, s3))
free_pages-alloc_twice_example =
    free_pages-alloc_twice three 30 5 three_blocks three-IsFree (λ e. cc) (omega arith)
      (omega arith) (omega arith) (λ q lo hi. refl)
