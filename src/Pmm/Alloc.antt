-- ===== src/Pmm/Alloc.antt =====
-- `default_alloc_pages` of default_pmm.c implements the allocation of the abstract blocks.
use oshub.Prelude.{
  ℕ, ◌+◌, ◌-◌, ◌≤◌, ◌<◌, ◌≡◌, ◌≢◌, refl, sym, true, false, none, List, ◌∷◌, ◌++◌, arith, ltb-false,
  ltb-true, inl, inr, All, All-append, All-left, All-right, ◌∉◌, update, done, Option-cases,
  lt-cases,
}
use mathlib.Core.Path.{subst}
use oshub.Links.{Links}
use oshub.Links.Ring.{Ring, add-Ring, del-Ring, prev-Ring}
use oshub.Pmm.{Pages, free_list, find_loop, take, alloc_pages}
use oshub.Pmm.Blocks.{
  Block, starts, total, first_fit, allocate, Fits, first_fit-Fits, first_fit-none, allocate-none,
  allocate_at, keep, Ordered-without, Ordered-rest, total-append, start-not-mem, not-mem_with,
  not-mem_without, inner-not-mem, starts-append, length-le-total,
}
use oshub.Pmm.Walk.{IsFree, Chain-Forward, find_loop-first_fit}

-- The list of the starts of some blocks and then of others.
pub joined :
    {l : Links} (bs cs : List Block)
    → Ring l free_list (starts bs ++ starts cs)
    → Ring l free_list (starts (bs ++ cs))
joined {l} bs cs = subst (λ x. Ring l free_list x) (sym (starts-append bs cs))

pub parted :
    {l : Links} (bs cs : List Block)
    → Ring l free_list (starts (bs ++ cs))
    → Ring l free_list (starts bs ++ starts cs)
parted {l} bs cs = subst (λ x. Ring l free_list x) (starts-append bs cs)

module _ (s : Pages) (n p k : ℕ) (bs cs : List Block) (v : IsFree s (bs ++ (p, k) ∷ cs))
    (pos : 0 < n) where
  Ring-at : Ring s.links free_list (starts bs ++ p ∷ starts cs)
  Ring-at = parted bs ((p, k) ∷ cs) v.ring

  size_at : s.property p ≡ k
  size_at = (All-right (λ (b : Block). s.property b.0 ≡ b.1) bs ((p, k) ∷ cs) v.sizes).0

  apart : (p ∉ starts bs) × (p ∉ starts cs) × (p ∉ starts (bs ++ cs)) × (1 ≤ p)
  apart = start-not-mem p k 1 bs cs v.ordered

  sizes_beside :
      All (λ (b : Block). s.property b.0 ≡ b.1) bs × All (λ (b : Block). s.property b.0 ≡ b.1) cs
  sizes_beside = (All-left _ bs ((p, k) ∷ cs) v.sizes, (All-right _ bs ((p, k) ∷ cs) v.sizes).1)

  flags_beside :
      All (λ (b : Block). s.has_property b.0 ≡ true) bs
      × All (λ (b : Block). s.has_property b.0 ≡ true) cs
  flags_beside = (All-left _ bs ((p, k) ∷ cs) v.flags, (All-right _ bs ((p, k) ∷ cs) v.flags).1)

  total_at : total (bs ++ (p, k) ∷ cs) ≡ total bs + k + total cs
  total_at = omega (arith, total-append bs ((p, k) ∷ cs))

  -- The whole block goes.
  take_all : n ≡ k → IsFree (take p n s) (bs ++ cs)
  unfolding take
  take_all e =
      rw (size_at, ltb-false {a = n} {b = k} (omega arith))
        (record {
          ring = joined bs cs (del-Ring (starts bs) (starts cs) p Ring-at);
          sizes = All-append _ bs cs sizes_beside.0 sizes_beside.1;
          flags =
              keep s.has_property p false (λ _. true) (bs ++ cs) apart.2
                (All-append _ bs cs flags_beside.0 flags_beside.1);
          others = λ q out. ground (arith, v.others q, not-mem_with q p k bs cs);
          ordered = Ordered-without 1 p k bs cs v.ordered;
          counted = omega (arith, v.counted, total_at, total-append bs cs);
          small = omega (arith, v.small, total_at, total-append bs cs);
        })

  -- What the block has beyond `n` pages stays, as a block of its own at the same place.
  take_part : n < k → IsFree (take p n s) (bs ++ (p + n, k - n) ∷ cs)
  unfolding take
  take_part h =
      rw (size_at, ltb-true h, prev-Ring (starts bs) (starts cs) p Ring-at)
        (record {
          ring = joined bs ((p + n, k - n) ∷ cs) (
              add-Ring (starts bs) (starts cs) (p + n) (del-Ring (starts bs) (starts cs) p Ring-at)
                (omega arith, subst (λ l. (p + n) ∉ l) (starts-append bs cs) rest.3));
          sizes =
              All-append _ bs ((p + n, k - n) ∷ cs)
                (keep s.property (p + n) (k - n) (λ b. b.1) bs rest.1 sizes_beside.0)
                (ground arith, keep s.property (p + n) (k - n) (λ b. b.1) cs rest.2 sizes_beside.1);
          flags =
              All-append _ bs ((p + n, k - n) ∷ cs) (flag_kept bs rest.1 apart.0 flags_beside.0)
                (ground arith, flag_kept cs rest.2 apart.1 flags_beside.1);
          others = λ q out.
              let o = not-mem_without q (p + n) (k - n) bs cs out in
              ground (arith, v.others q, not-mem_with q p k bs cs);
          ordered = Ordered-rest 1 n p k bs cs h v.ordered;
          counted = omega (arith, v.counted, total_at, total-append bs ((p + n, k - n) ∷ cs));
          small = omega (arith, v.small, total_at, total-append bs ((p + n, k - n) ∷ cs));
        })
    where
      flag_kept :
          (ds : List Block)
          → (p + n) ∉ starts ds
          → p ∉ starts ds
          → All (λ (b : Block). s.has_property b.0 ≡ true) ds
          → All (λ (b : Block). update (update s.has_property (p + n) true) p false b.0 ≡ true) ds
      flag_kept ds o o' h' =
          keep (update s.has_property (p + n) true) p false (λ _. true) ds o'
            (keep s.has_property (p + n) true (λ _. true) ds o h')

      rest :
          (p + n ≢ p)
          × ((p + n) ∉ starts bs)
          × ((p + n) ∉ starts cs)
          × ((p + n) ∉ starts (bs ++ cs))
      rest =
          not-mem_without (p + n) p k bs cs
            (inner-not-mem (p + n) 1 p k bs cs v.ordered (omega arith) (omega arith))

-- What an allocation leaves: the blocks less `n` pages, and the other fields of every page.
pub record Served (n : ℕ) (bs : List Block) (s s' : Pages) : Type 0 where
  pub free : IsFree s' (allocate n bs)
  pub ref : s'.ref ≡ s.ref
  pub reserved : s'.reserved ≡ s.reserved

take-Served :
    (s : Pages) (n p : ℕ) (bs : List Block)
    → IsFree s bs
    → 0 < n
    → Fits n bs p
    → Served n bs s (take p n s)
unfolding take
take-Served s n p bs v pos f = record {
  free =
      rw (f.split, allocate_at n p size before after skipped fits)
        (elim (lt-cases n size) [
          | inl h ↦ rw (ltb-true h) (take_part s n p size before after w pos h)
          | inr h ↦ rw (ltb-false h) (take_all s n p size before after w pos (omega arith))
        ]);
  ref = ground arith;
  reserved = ground arith;
}
  where
    open f use {size, before, after, fits, skipped}

    w : IsFree s (before ++ (p, size) ∷ after)
    w = subst (λ l. IsFree s l) f.split v

-- An allocation of at least one page from a state that holds the blocks `bs` does not panic; it
-- returns the first page of the first block with enough pages, or NULL exactly if there is none,
-- and leaves `bs` without the pages that it gave out.
pub alloc_pages_refines :
    (s : Pages) (n : ℕ) (bs : List Block)
    → IsFree s bs
    → 0 < n
    → (s' : Pages) × (alloc_pages n s ≡ done (first_fit n bs, s')) × Served n bs s s'
unfolding alloc_pages
alloc_pages_refines s n bs v pos = elim (lt-cases s.nr_free n) [
  | inl few ↦ (
    s,
    rw (ltb-true pos, ltb-true few, first_fit-none n bs (omega (arith, v.counted))),
    unchanged (first_fit-none n bs (omega (arith, v.counted))),
  )
  | inr enough ↦
      rw (ltb-true pos, ltb-false enough, found)
        (elim (Option-cases (first_fit n bs)) [
          | inl e ↦ rw e (s, refl, unchanged e)
          | inr (p, e) ↦
              rw e (take p n s, refl, take-Served s n p bs v pos (first_fit-Fits n p bs e))
        ])
]
  where
    unchanged : first_fit n bs ≡ none → Served n bs s s
    unchanged e = record { free = rw (allocate-none n bs e) v; ref = refl; reserved = refl }

    found : find_loop (s.nr_free + 2) free_list n s ≡ first_fit n bs
    found =
        find_loop-first_fit s n (s.nr_free + 2) free_list bs
          (Chain-Forward s.links s.links free_list (starts bs) free_list (λ x. refl) v.ring.chain)
          v.ring.distinct.0 v.sizes (omega (arith, v.counted, length-le-total 1 bs v.ordered))
