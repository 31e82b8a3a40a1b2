-- ===== src/Pmm/Free.antt =====
-- The merges of `default_free_pages` of default_pmm.c: what each does to the free blocks.
use mathlib.Core.Path.{subst}
use oshub.Prelude.{
  ◌⊎◌, ℕ, ◌+◌, ◌≤◌, ◌<◌, ◌≡◌, ◌≢◌, refl, true, false, List, [], ◌∷◌, ◌++◌, arith, ==-ne, ==-refl,
  eq-cases, inl, inr, last_or, All, All-append, All-left, All-right, ◌∉◌, update,
}
use oshub.Links
use oshub.Links.{Links}
use oshub.Links.Ring.{del_second, prev-Ring, next-Ring, prev_second}
use oshub.Pmm.{Pages, free_list, merge_left, merge_right, u32}
use oshub.Pmm.Blocks.{
  Block, starts, total, keep, start-not-mem, not-mem_with, not-mem_without, total-append, absorb,
}
use oshub.Pmm.Alloc.{joined, parted}
use oshub.Pmm.Walk.{IsFree}
use oshub.Pmm.Release.{Ordered-joined, Below, second-not-mem}

-- The state with the block at `q` made part of the block at `p`.
abbrev joined_blocks : ℕ → ℕ → Pages → Pages
joined_blocks p q s = record s {
  property = update s.property p (u32 (s.property p + s.property q));
  has_property = update s.has_property q false;
  links = Links.del q s.links;
}

joined_blocks-IsFree :
    (s : Pages) (p k m : ℕ) (xs cs : List Block)
    → IsFree s (xs ++ (p, k) ∷ (p + k, m) ∷ cs)
    → IsFree (joined_blocks p (p + k) s) (xs ++ (p, k + m) ∷ cs)
joined_blocks-IsFree s p k m xs cs v = record {
  ring =
      joined xs ((p, k + m) ∷ cs) (
        del_second (starts xs) (starts cs) p (p + k) (parted xs ((p, k) ∷ (p + k, m) ∷ cs) v.ring));
  sizes =
      All-append _ xs ((p, k + m) ∷ cs)
        (keep s.property p _ (λ c. c.1) xs first.0 (All-left _ xs tail v.sizes))
        (
          ground (arith, sizes.0, sizes.1, v.small, sum),
          keep s.property p _ (λ c. c.1) cs first.1.1 sizes.2,
        );
  flags =
      All-append _ xs ((p, k + m) ∷ cs)
        (keep s.has_property (p + k) false (λ _. true) xs second.0 (All-left _ xs tail v.flags))
        (
          ground (arith, flags, second.2),
          keep s.has_property (p + k) false (λ _. true) cs second.1 flags.2,
        );
  others = λ q out.
      let w = not-mem_without q p (k + m) xs cs out in ground (arith, v.others q, outside q);
  ordered = Ordered-joined 1 p k m xs cs v.ordered;
  counted = omega (arith, v.counted, sum, total-append xs ((p, k + m) ∷ cs));
  small = omega (arith, v.small, sum, total-append xs ((p, k + m) ∷ cs));
}
  where
    tail : List Block
    tail = (p, k) ∷ (p + k, m) ∷ cs

    first :
        (p ∉ starts xs)
        × (p ∉ starts ((p + k, m) ∷ cs))
        × (p ∉ starts (xs ++ (p + k, m) ∷ cs))
        × (1 ≤ p)
    first = start-not-mem p k 1 xs ((p + k, m) ∷ cs) v.ordered

    second : ((p + k) ∉ starts xs) × ((p + k) ∉ starts cs) × (p + k ≢ p) × (1 ≤ p + k)
    second = second-not-mem 1 p k (p + k) m xs cs v.ordered

    sizes :
        (s.property p ≡ k) × (s.property (p + k) ≡ m) × All (λ (c : Block). s.property c.0 ≡ c.1) cs
    sizes =
        let a = All-right (λ (c : Block). s.property c.0 ≡ c.1) xs tail v.sizes in
        (a.0, a.1.0, a.1.1)

    flags :
        (s.has_property p ≡ true)
        × (s.has_property (p + k) ≡ true)
        × All (λ (c : Block). s.has_property c.0 ≡ true) cs
    flags =
        let a = All-right (λ (c : Block). s.has_property c.0 ≡ true) xs tail v.flags in
        (a.0, a.1.0, a.1.1)

    sum : total (xs ++ tail) ≡ total xs + (k + (m + total cs))
    sum = total-append xs tail

    outside : (q : ℕ) → q ∉ starts (xs ++ (p, k + m) ∷ cs) → q ≢ p + k → q ∉ starts (xs ++ tail)
    outside q out ne =
        let w = not-mem_without q p (k + m) xs cs out in
        not-mem_with q p k xs ((p + k, m) ∷ cs) w.0 (not-mem_with q (p + k) m xs cs ne w.3)

joined_touching :
    (s : Pages) (p k q m : ℕ) (xs cs : List Block)
    → p + k ≡ q
    → IsFree s (xs ++ (p, k) ∷ (q, m) ∷ cs)
    → IsFree (joined_blocks p q s) (xs ++ (p, k + m) ∷ cs)
joined_touching s p k q m xs cs e =
    subst
      (λ r.
        IsFree s (xs ++ (p, k) ∷ (r, m) ∷ cs)
        → IsFree (joined_blocks p r s) (xs ++ (p, k + m) ∷ cs))
      e (joined_blocks-IsFree s p k m xs cs)

size_of :
    (s : Pages) (b n : ℕ) (xs cs : List Block) → IsFree s (xs ++ (b, n) ∷ cs) → s.property b ≡ n
size_of s b n xs cs v = (All-right (λ (c : Block). s.property c.0 ≡ c.1) xs ((b, n) ∷ cs) v.sizes).0

-- The merge with the block behind.
pub merge_right-IsFree :
    (s : Pages) (b n : ℕ) (xs cs : List Block)
    → IsFree s (xs ++ (b, n) ∷ cs)
    → IsFree (merge_right b s) (xs ++ absorb b n cs)
unfolding merge_right absorb
merge_right-IsFree s b n xs [] v =
    rw (next-Ring (starts xs) [] b (parted xs ((b, n) ∷ []) v.ring)) v
merge_right-IsFree s b n xs ((q, m) ∷ cs) v =
    let second = second-not-mem 1 b n q m xs cs v.ordered in
    let size = size_of s b n xs ((q, m) ∷ cs) v in
    rw
      (
        next-Ring (starts xs) (q ∷ starts cs) b (parted xs ((b, n) ∷ (q, m) ∷ cs) v.ring),
        ==-ne {a = q} {b = free_list} (omega arith),
      )
      (elim (eq-cases (b + n) q) [
        | inl e ↦
            let e' : b + s.property b ≡ q = omega arith in
            rw (e, e', ==-refl q) (joined_touching s b n q m xs cs e v)
        | inr ne ↦ let ne' : b + s.property b ≢ q = omega arith in rw (==-ne ne, ==-ne ne') v
      ])

-- The merge with the block before: none if there is a gap, and else that of the two.
pub merge_left_alone :
    (s : Pages) (b n : ℕ) (xs cs : List Block)
    → IsFree s (xs ++ (b, n) ∷ cs)
    → Below b xs
    → merge_left b s ≡ (b, s)
unfolding merge_left
merge_left_alone s b n xs cs v lo =
    rw (prev-Ring (starts xs) (starts cs) b (parted xs ((b, n) ∷ cs) v.ring))
      (ground (arith, apart xs free_list (inl refl) (All-left _ xs ((b, n) ∷ cs) v.sizes) lo))
  where
    apart :
        (ys : List Block) (d : ℕ)
        → (d ≡ free_list) ⊎ (d + s.property d < b)
        → All (λ (c : Block). s.property c.0 ≡ c.1) ys
        → Below b ys
        → (last_or d (starts ys) ≡ free_list)
          ⊎ (last_or d (starts ys) + s.property (last_or d (starts ys)) < b)
    apart [] d h sz lo' = h
    apart ((p, k) ∷ ys) d h sz lo' = apart ys p (inr (omega (arith, sz.0))) sz.1 lo'.1

pub merge_left_touching :
    (s : Pages) (p k b n : ℕ) (xs cs : List Block)
    → IsFree s (xs ++ (p, k) ∷ (b, n) ∷ cs)
    → p + k ≡ b
    → (merge_left b s ≡ (p, joined_blocks p b s))
      × IsFree (joined_blocks p b s) (xs ++ (p, k + n) ∷ cs)
unfolding merge_left
merge_left_touching s p k b n xs cs v t =
    let size = size_of s p k xs ((b, n) ∷ cs) v in
    let e : p + s.property p ≡ b = omega arith in
    (
      rw (
        prev_second (starts xs) (starts cs) p b (parted xs ((p, k) ∷ (b, n) ∷ cs) v.ring),
        ==-ne {a = p} {b = free_list} (omega (arith, first.3)),
        e,
        ==-refl b,
      ),
      joined_touching s p k b n xs cs t v,
    )
  where
    first :
        (p ∉ starts xs) × (p ∉ starts ((b, n) ∷ cs)) × (p ∉ starts (xs ++ (b, n) ∷ cs)) × (1 ≤ p)
    first = start-not-mem p k 1 xs ((b, n) ∷ cs) v.ordered
