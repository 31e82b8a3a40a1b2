-- ===== src/Pmm/Refine.antt =====
-- `default_free_pages` of default_pmm.c implements the release of pages, where the pages do not
-- come behind all free blocks.
use mathlib.Core.Path.{subst}
use mathlib.Core.List.{append_assoc}
use oshub.Prelude.{
  ℕ, ◌+◌, ◌≤◌, ◌<◌, ◌^◌, ◌≡◌, ◌≢◌, sym, ap, ◌∙◌, ◌⊎◌, inl, inr, true, false, List, [], ◌∷◌, ◌++◌,
  arith, ltb-true, some, last_or, All, All-append, All-mono, ◌∉◌, done,
}
use oshub.Pmm.{
  Pages, free_list, enlist, init_memmap, alloc_pages, free_pages, merge_left, merge_right,
}
use oshub.Pmm.Blocks.{
  Block, starts, total, Ordered, Apart, release, first_fit, allocate, total-allocate,
}
use oshub.Pmm.Clear.{Cleared, clear_pages-Cleared, reset_pages-done}
use oshub.Pmm.Enlist.{enlist_first, enlist_before}
use oshub.Pmm.Free.{merge_left_alone, merge_left_touching, merge_right-IsFree}
use oshub.Pmm.Release.{
  covered, covered-release-allocate, Apart-allocate, Place, alone, touching, place, Below,
  release_alone, release_touching,
}
use oshub.Pmm.Alloc.{alloc_pages_refines}
use oshub.Pmm.Walk.{IsFree}

-- The list is empty, or some free block lies above `b`.
abbrev pub NotLast : ℕ → List Block → Type 0
NotLast b bs = (bs ≡ []) ⊎ (b < last_or free_list (starts bs))

pub apart-not-mem :
    (b n q lo : ℕ) (bs : List Block)
    → Ordered lo bs
    → Apart b n bs
    → b ≤ q
    → q < b + n
    → q ∉ starts bs
apart-not-mem b n q lo [] o a h h' = tt
apart-not-mem b n q lo ((p, k) ∷ bs) o a h h' =
    (omega arith, apart-not-mem b n q (p + k) bs o.2 a.1 h h')

-- The loop over the pages leaves the free blocks as they are.
pub Cleared-IsFree :
    (n b : ℕ) (s t : Pages) (bs : List Block)
    → IsFree s bs
    → Apart b n bs
    → Cleared n b s t
    → IsFree t bs
Cleared-IsFree n b s t bs v a c = record {
  ring = rw c.links v.ring;
  sizes = rw c.property v.sizes;
  flags = All-mono _ _ bs (λ d h. same d.0 ∙ h) v.flags;
  others = λ q out. same q ∙ v.others q out;
  ordered = v.ordered;
  counted = c.nr_free ∙ v.counted;
  small = v.small;
}
  where
    same : (q : ℕ) → t.has_property q ≡ s.has_property q
    same q = ground (arith, c.has_property q, v.others q, apart-not-mem b n q 1 bs v.ordered a)

last-le :
    (b d : ℕ) (bs : List Block)
    → d ≤ b
    → All (λ (c : Block). c.0 + c.1 ≤ b) bs
    → last_or d (starts bs) ≤ b
last-le b d [] h a = h
last-le b d ((p, k) ∷ bs) h a = last-le b p bs (omega arith) a.1

Below-le : (b : ℕ) (bs : List Block) → Below b bs → All (λ (c : Block). c.0 + c.1 ≤ b) bs
Below-le b [] h = tt
Below-le b ((p, k) ∷ bs) h = (omega arith, Below-le b bs h.1)

no_room :
    (b : ℕ) (bs : List Block) → All (λ (c : Block). c.0 + c.1 ≤ b) bs → bs ≢ [] → ¬ NotLast b bs
no_room b bs lo ne (inl e) = ne e
no_room b bs lo ne (inr h) = omega (arith, last-le b free_list bs (omega arith) lo)

snoc-ne-nil : (p k : ℕ) (xs : List Block) → (xs ++ (p, k) ∷ []) ≢ []
snoc-ne-nil p k [] e = cc
snoc-ne-nil p k (x ∷ xs) e = cc

-- What `default_free_pages` does after its loop.
abbrev pub finish : ℕ → ℕ → Pages → Pages
finish b n s = let (base, s') = merge_left b (enlist b n s) in merge_right base s'

module _ (s : Pages) (b n : ℕ) (pos : 0 < n) (one : 1 ≤ b) where
  finish_first : IsFree s [] → n < 2 ^ 32 → IsFree (finish b n s) (release b n [])
  unfolding release
  finish_first v small =
      let e = enlist_first s b n v small pos one in
      rw (merge_left_alone (enlist b n s) b n [] [] e tt)
        (merge_right-IsFree (enlist b n s) b n [] [] e)

  finish_alone :
      (q m : ℕ) (xs cs : List Block)
      → IsFree s (xs ++ (q, m) ∷ cs)
      → Below b xs
      → b + n ≤ q
      → total (xs ++ (q, m) ∷ cs) + n < 2 ^ 32
      → IsFree (finish b n s) (release b n (xs ++ (q, m) ∷ cs))
  finish_alone q m xs cs v lo hi small =
      let e = enlist_before s b n q m xs cs v (Below-le b xs lo) hi small pos one in
      rw
        (
          merge_left_alone (enlist b n s) b n xs ((q, m) ∷ cs) e lo,
          release_alone b n xs ((q, m) ∷ cs) lo hi pos,
        )
        (merge_right-IsFree (enlist b n s) b n xs ((q, m) ∷ cs) e)

  finish_touching :
      (p k q m : ℕ) (xs cs : List Block)
      → IsFree s (xs ++ (p, k) ∷ (q, m) ∷ cs)
      → Below b xs
      → p + k ≡ b
      → b + n ≤ q
      → total (xs ++ (p, k) ∷ (q, m) ∷ cs) + n < 2 ^ 32
      → IsFree (finish b n s) (release b n (xs ++ (p, k) ∷ (q, m) ∷ cs))
  finish_touching p k q m xs cs v lo t hi small =
      let e = enlisted in
      let left = merge_left_touching (enlist b n s) p k b n xs ((q, m) ∷ cs) e t in
      rw (left.0, release_touching b n p k xs ((q, m) ∷ cs) lo t)
        (merge_right-IsFree _ p (k + n) xs ((q, m) ∷ cs) left.1)
    where
      regroup : (ys : List Block) → (xs ++ (p, k) ∷ []) ++ ys ≡ xs ++ (p, k) ∷ ys
      regroup ys = append_assoc xs ((p, k) ∷ []) ys

      enlisted : IsFree (enlist b n s) (xs ++ (p, k) ∷ (b, n) ∷ (q, m) ∷ cs)
      enlisted =
          subst (λ l. IsFree (enlist b n s) l) (regroup ((b, n) ∷ (q, m) ∷ cs))
            (enlist_before s b n q m (xs ++ (p, k) ∷ []) cs
              (subst (λ l. IsFree s l) (sym (regroup ((q, m) ∷ cs))) v)
              (All-append _ xs ((p, k) ∷ []) (Below-le b xs lo) (omega arith, tt)) hi
              (rw (regroup ((q, m) ∷ cs)) small) pos one)

  finish-release :
      (bs : List Block)
      → IsFree s bs
      → Place b n bs
      → NotLast b bs
      → total bs + n < 2 ^ 32
      → IsFree (finish b n s) (release b n bs)
  finish-release bs v (alone [] [] e lo hi) last small =
      rw e (finish_first (subst (λ l. IsFree s l) e v) (omega arith))
  finish-release bs v (alone (x ∷ xs) [] e lo hi) last small = absurd (
      no_room b (x ∷ (xs ++ [])) (All-append _ (x ∷ xs) [] (Below-le b (x ∷ xs) lo) tt) (λ h. cc)
        (subst (λ l. NotLast b l) e last))
  finish-release bs v (alone xs ((q, m) ∷ cs) e lo hi) last small =
      rw e (finish_alone q m xs cs (subst (λ l. IsFree s l) e v) lo hi (rw e at small))
  finish-release bs v (touching xs p k [] e lo t hi) last small = absurd (
      no_room b (xs ++ (p, k) ∷ [])
        (All-append _ xs ((p, k) ∷ []) (Below-le b xs lo) (omega arith, tt)) (snoc-ne-nil p k xs)
        (subst (λ l. NotLast b l) e last))
  finish-release bs v (touching xs p k ((q, m) ∷ cs) e lo t hi) last small =
      rw e (finish_touching p k q m xs cs (subst (λ l. IsFree s l) e v) lo t hi (rw e at small))

-- Pages that are not reserved and in no free block come back without a panic, where the list is
-- empty or some free block lies above them: they are free then, joined to the blocks that they
-- touch, and the state stands for those blocks again.
pub free_pages_refines :
    (s : Pages) (b n : ℕ) (bs : List Block)
    → IsFree s bs
    → 0 < n
    → 1 ≤ b
    → Apart b n bs
    → ((q : ℕ) → b ≤ q → q < b + n → s.reserved q ≡ false)
    → NotLast b bs
    → total bs + n < 2 ^ 32
    → (s' : Pages) × (free_pages b n s ≡ done s') × IsFree s' (release b n bs)
unfolding free_pages
free_pages_refines s b n bs v pos one a plain last small =
    let (t, run, c) =
      clear_pages-Cleared n b s
        (λ q lo hi. (plain q lo hi, v.others q (apart-not-mem b n q 1 bs v.ordered a lo hi))) in
    let w = Cleared-IsFree n b s t bs v a c in
    (
      finish b n t,
      rw (ltb-true pos, run),
      finish-release t b n pos one bs w (place b n 1 bs v.ordered a) last small,
    )

-- At boot the reserved pages of a memory area become one free block and are no longer reserved,
-- and the first-fit manager holds exactly this block.
pub init_memmap_refines :
    (s : Pages) (b n : ℕ)
    → IsFree s []
    → 0 < n
    → 1 ≤ b
    → n < 2 ^ 32
    → ((q : ℕ) → b ≤ q → q < b + n → s.reserved q ≡ true)
    → (s' : Pages) × (init_memmap b n s ≡ done s')
      × IsFree s' ((b, n) ∷ [])
      × ((q : ℕ) → b ≤ q → q < b + n → s'.reserved q ≡ false)
unfolding init_memmap enlist
init_memmap_refines s b n v pos one small plain =
    let (t, run, l, f, has, res) = reset_pages-done n b s plain in
    let w : IsFree t [] = record {
      ring = rw l v.ring;
      sizes = tt;
      flags = tt;
      others = λ q out. ground (arith, has q, v.others q);
      ordered = tt;
      counted = f ∙ v.counted;
      small = v.small;
    } in
    (
      enlist b n t,
      rw (ltb-true pos, run),
      enlist_first t b n w small pos one,
      λ q lo hi. ground (arith, res q),
    )

-- An allocation followed by the release of the same pages: neither panics, and exactly the pages
-- that were free before are free again. The pages of free blocks are not reserved, and some free
-- block lies above those handed out, or none is left.
pub free_pages-alloc_pages :
    (s : Pages) (n p : ℕ) (bs : List Block)
    → IsFree s bs
    → 0 < n
    → first_fit n bs ≡ some p
    → ((q : ℕ) → p ≤ q → q < p + n → s.reserved q ≡ false)
    → NotLast p (allocate n bs)
    → (s1 : Pages) × (s2 : Pages) × (cs : List Block) × (alloc_pages n s ≡ done (some p, s1))
      × (free_pages p n s1 ≡ done s2)
      × IsFree s2 cs
      × ((q : ℕ) → covered q cs ≡ covered q bs)
free_pages-alloc_pages s n p bs v pos found plain last =
    let (s1, run, served) = alloc_pages_refines s n bs v pos in
    let out = Apart-allocate n p 1 bs v.ordered found in
    let (s2, back, free) =
      free_pages_refines s1 p n (allocate n bs) served.free pos out.1 out.0
        (λ q lo hi. ap (λ f. f q) served.reserved ∙ plain q lo hi) last
        (omega (arith, total-allocate n p bs found, v.small)) in
    (
      s1,
      s2,
      release p n (allocate n bs),
      rw (run, found),
      back,
      free,
      λ q. covered-release-allocate n p q 1 bs v.ordered found,
    )
