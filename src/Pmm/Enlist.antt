-- ===== src/Pmm/Enlist.antt =====
-- The first part of `default_free_pages` of default_pmm.c: the new block enters the list.
use mathlib.Core.Path.{subst}
use oshub.Prelude.{
  ℕ, ◌+◌, ◌≤◌, ◌<◌, ◌^◌, ◌≡◌, refl, ap, true, false, List, [], ◌∷◌, ◌++◌, arith, length, All,
  All-append, All-left, All-right, ◌∉◌, update, is_nil, length-append,
}
use oshub.Links
use oshub.Links.{Links}
use oshub.Links.Ring.{Ring, add-Ring, add_before-Ring, is_empty-Ring}
use oshub.Pmm.{Pages, free_list, place_loop, enlist, u32}
use oshub.Pmm.Blocks.{
  Block, starts, total, Ordered, keep, start-not-mem, not-mem_without, starts-append, total-append,
  length-le-total,
}
use oshub.Pmm.Alloc.{joined, parted}
use oshub.Pmm.Walk.{IsFree, place_loop-before}
use oshub.Pmm.Release.{Ordered-with}

-- The state with the block `(b, n)` noted and the list `l`.
abbrev noted : ℕ → ℕ → Links → Pages → Pages
noted b n l s = record s {
  property = update s.property b (u32 n);
  has_property = update s.has_property b true;
  nr_free = u32 (s.nr_free + n);
  links = l;
}

module _ (s : Pages) (b n : ℕ) (xs cs : List Block) (v : IsFree s (xs ++ cs))
    (fits : total (xs ++ cs) + n < 2 ^ 32) where
  noted-IsFree :
      (l : Links)
      → Ring l free_list (starts (xs ++ (b, n) ∷ cs))
      → Ordered 1 (xs ++ (b, n) ∷ cs)
      → IsFree (noted b n l s) (xs ++ (b, n) ∷ cs)
  noted-IsFree l r o = record {
    ring = r;
    sizes =
        All-append _ xs ((b, n) ∷ cs)
          (keep s.property b (u32 n) (λ c. c.1) xs new.0 (All-left _ xs cs v.sizes))
          (ground arith, keep s.property b (u32 n) (λ c. c.1) cs new.1 (All-right _ xs cs v.sizes));
    flags =
        All-append _ xs ((b, n) ∷ cs)
          (keep s.has_property b true (λ _. true) xs new.0 (All-left _ xs cs v.flags))
          (
            ground arith,
            keep s.has_property b true (λ _. true) cs new.1 (All-right _ xs cs v.flags),
          );
    others =
        λ q out. let w = not-mem_without q b n xs cs out in ground (arith, v.others q w.3, w.0);
    ordered = o;
    counted = omega (arith, v.counted, total-append xs cs, total-append xs ((b, n) ∷ cs));
    small = omega (arith, total-append xs cs, total-append xs ((b, n) ∷ cs));
  }
    where
      new : (b ∉ starts xs) × (b ∉ starts cs) × (b ∉ starts (xs ++ cs)) × (1 ≤ b)
      new = start-not-mem b n 1 xs cs o

-- The first block of an empty list.
pub enlist_first :
    (s : Pages) (b n : ℕ)
    → IsFree s []
    → n < 2 ^ 32
    → 0 < n
    → 1 ≤ b
    → IsFree (enlist b n s) ((b, n) ∷ [])
unfolding enlist
enlist_first s b n v small pos lo = rw (is_empty-Ring [] v.ring) (
    noted-IsFree s b n [] [] v (omega arith) _ (add-Ring [] [] b v.ring (omega arith, tt))
      (lo, pos, tt))

below-starts :
    (b : ℕ) (xs : List Block) → All (λ c. c.0 + c.1 ≤ b) xs → All (λ x. x ≤ b) (starts xs)
below-starts b [] h = tt
below-starts b ((p, k) ∷ xs) h = (omega arith, below-starts b xs h.1)

-- A block in front of another one.
pub enlist_before :
    (s : Pages) (b n q m : ℕ) (xs cs : List Block)
    → IsFree s (xs ++ (q, m) ∷ cs)
    → All (λ c. c.0 + c.1 ≤ b) xs
    → b + n ≤ q
    → total (xs ++ (q, m) ∷ cs) + n < 2 ^ 32
    → 0 < n
    → 1 ≤ b
    → IsFree (enlist b n s) (xs ++ (b, n) ∷ (q, m) ∷ cs)
unfolding enlist
enlist_before s b n q m xs cs v lo hi small pos one =
    rw (is_empty-Ring (starts (xs ++ (q, m) ∷ cs)) v.ring, some_block xs, placed)
      (noted-IsFree s b n xs ((q, m) ∷ cs) v small _
        (joined xs ((b, n) ∷ (q, m) ∷ cs)
          (add_before-Ring (starts xs) (q ∷ starts cs) b Ring-at (omega arith, new)))
        o)
  where
    some_block : (ys : List Block) → is_nil (starts (ys ++ (q, m) ∷ cs)) ≡ false
    some_block [] = refl
    some_block ((r, t) ∷ ys) = refl

    Ring-at : Ring s.links free_list (starts xs ++ q ∷ starts cs)
    Ring-at = parted xs ((q, m) ∷ cs) v.ring

    o : Ordered 1 (xs ++ (b, n) ∷ (q, m) ∷ cs)
    o = Ordered-with 1 b n xs ((q, m) ∷ cs) lo hi pos one v.ordered

    new : b ∉ (starts xs ++ q ∷ starts cs)
    new =
        subst (λ l. b ∉ l) (starts-append xs ((q, m) ∷ cs))
          (start-not-mem b n 1 xs ((q, m) ∷ cs) o).2

    enough : length (starts xs) ≤ total (xs ++ (q, m) ∷ cs)
    enough = omega (
      arith,
      length-append (starts xs) (q ∷ starts cs),
      ap length (starts-append xs ((q, m) ∷ cs)),
      length-le-total 1 (xs ++ (q, m) ∷ cs) v.ordered,
    )

    placed : place_loop (u32 (s.nr_free + n) + 1) free_list b s.links ≡ Links.add_before q b s.links
    placed =
        place_loop-before s.links b (u32 (s.nr_free + n) + 1) free_list q (starts xs) (starts cs)
          Ring-at.chain Ring-at.distinct.0 (below-starts b xs lo) (omega arith)
          (omega (arith, v.counted, enough))
