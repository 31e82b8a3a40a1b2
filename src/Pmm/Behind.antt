-- ===== src/Pmm/Behind.antt =====
-- `default_free_pages` of default_pmm.c where the pages come behind all free blocks: its walk adds
-- the block a second time, behind itself.
use oshub.Prelude.{
  ℕ, ◌+◌, ◌-◌, ◌≤◌, ◌<◌, ◌^◌, ◌≡◌, ◌≢◌, refl, sym, ap, ◌∙◌, false, some, List, [], ◌∷◌, ◌++◌, arith,
  ltb-true, ltb-false, leb-true, leb-false, ==-ne, last_or, All, All-append, All-mono, ◌⊎◌, inr,
  ◌∉◌, done, length, length-append,
}
use oshub.Links
use oshub.Links.{Links}
use oshub.Links.Ring.{Ring, add-Ring, next-Ring, is_empty-Ring}
use oshub.Pmm.{
  Pages, free_list, enlist, free_pages, alloc_pages, take, merge_left, merge_right, u32,
}
use oshub.Pmm.Blocks.{
  Block, starts, total, Ordered, first_fit, keep, starts-append, length-le-total,
}
use oshub.Pmm.Clear.{clear_pages-Cleared}
use mathlib.Core.List.{append-nil}
use mathlib.Core.Path.{subst}
use oshub.Pmm.Alloc.{joined, parted}
use oshub.Pmm.Refine.{finish, Cleared-IsFree, apart-not-mem}
use oshub.Pmm.Walk.{
  Forward-same, IsFree, Forward, Chain-Forward, find_loop-first_fit, place_loop-behind,
}

first_fit_last :
    (n b k : ℕ) (bs : List Block)
    → All (λ (c : Block). c.1 < n) bs
    → n ≤ k
    → first_fit n (bs ++ (b, k) ∷ []) ≡ some b
unfolding first_fit
first_fit_last n b k [] small fit = rw (leb-true fit)
first_fit_last n b k ((p, m) ∷ bs) small fit =
    rw (leb-false small.0) (first_fit_last n b k bs small.1 fit)

starts-le :
    (b : ℕ) (bs : List Block) → All (λ (c : Block). c.0 + c.1 ≤ b) bs → All (λ x. x ≤ b) (starts bs)
starts-le b [] h = tt
starts-le b ((p, k) ∷ bs) h = (omega arith, starts-le b bs h.1)

beyond-not-mem :
    (b lo : ℕ) (bs : List Block)
    → Ordered lo bs
    → All (λ (c : Block). c.0 + c.1 ≤ b) bs
    → b ∉ starts bs
beyond-not-mem b lo [] o h = tt
beyond-not-mem b lo ((p, k) ∷ bs) o h = (omega arith, beyond-not-mem b (p + k) bs o.2 h.1)

-- The list whose last node `b` is its own predecessor.
record Doubled (s : Pages) (b : ℕ) (bs : List Block) : Type 0 where
  forward : Forward s.links free_list (starts bs) free_list
  inside : free_list ∉ starts bs
  sizes : All (λ c. s.property c.0 ≡ c.1) bs
  last_next : s.links.next b ≡ free_list
  last_prev : s.links.prev b ≡ b
  counted : length (starts bs) ≤ s.nr_free + 1

-- An allocation that takes this block whole leaves it in the list.
alloc-Doubled :
    (s : Pages) (b n : ℕ) (bs : List Block)
    → Doubled s b (bs ++ (b, n) ∷ [])
    → s.property b ≡ n
    → All (λ (c : Block). c.1 < n) bs
    → 0 < n
    → n ≤ s.nr_free
    → alloc_pages n s ≡ done (some b, take b n s)
unfolding alloc_pages
alloc-Doubled s b n bs d size small pos enough = rw (
  ltb-true pos,
  ltb-false enough,
  find_loop-first_fit s n (s.nr_free + 2) free_list (bs ++ (b, n) ∷ []) d.forward d.inside d.sizes
      (omega (arith, d.counted)),
  first_fit_last n b n bs small (omega arith),
)

next-take :
    (s : Pages) (b n : ℕ)
    → s.property b ≡ n
    → s.links.next b ≡ free_list
    → s.links.prev b ≡ b
    → (x : ℕ) → (take b n s).links.next x ≡ s.links.next x
unfolding take Links.del Links.del_between
next-take s b n size last self x = rw (size, ltb-false {a = n} {b = n} (omega arith)) (ground arith)

take-Doubled :
    (s : Pages) (b n : ℕ) (bs : List Block)
    → Doubled s b (bs ++ (b, n) ∷ [])
    → s.property b ≡ n
    → length (starts (bs ++ (b, n) ∷ [])) + n ≤ s.nr_free + 1
    → Doubled (take b n s) b (bs ++ (b, n) ∷ [])
unfolding take Links.del Links.del_between
take-Doubled s b n bs d size room = record {
  forward =
      Forward-same s.links (take b n s).links free_list (starts (bs ++ (b, n) ∷ [])) free_list
        (next-take s b n size d.last_next d.last_prev) d.forward;
  inside = d.inside;
  sizes = rw (size, ltb-false {a = n} {b = n} (omega arith)) d.sizes;
  last_next = next-take s b n size d.last_next d.last_prev b ∙ d.last_next;
  last_prev = rw (size, ltb-false {a = n} {b = n} (omega arith)) (ground arith);
  counted = omega arith;
}

property-take : (s : Pages) (b n : ℕ) → s.property b ≡ n → (take b n s).property b ≡ n
unfolding take
property-take s b n size = rw (size, ltb-false {a = n} {b = n} (omega arith)) size

nr_free-take : (s : Pages) (b n : ℕ) → (take b n s).nr_free ≡ s.nr_free - n
unfolding take
nr_free-take s b n = ground arith

-- The walk of `default_free_pages` from the head of the list.
links-enlist :
    (s : Pages) (b n : ℕ) (bs : List Block)
    → IsFree s bs
    → bs ≢ []
    → All (λ (c : Block). c.0 + c.1 ≤ b) bs
    → b ∉ starts bs
    → b ≢ free_list
    → 0 < n
    → total bs + n < 2 ^ 32
    → (enlist b n s).links ≡ Links.add b b (Links.add (last_or free_list (starts bs)) b s.links)
unfolding enlist
links-enlist s b n [] v ne lo out nh pos small = absurd (ne refl)
links-enlist s b n ((p, k) ∷ bs) v ne lo out nh pos small =
    rw (is_empty-Ring (starts ((p, k) ∷ bs)) v.ring) (
      place_loop-behind s.links b (u32 (s.nr_free + n) + 1) free_list p (starts bs) v.ring.chain
        v.ring.distinct.0 out nh (starts-le b ((p, k) ∷ bs) lo)
        (omega (arith, v.counted, length-le-total 1 ((p, k) ∷ bs) v.ordered)))

-- A node added behind itself: the `next` pointers stay, and it becomes its own predecessor.
add_self :
    (l : Links) (b : ℕ)
    → ((x : ℕ) → (Links.add b b l).next x ≡ l.next x) × ((Links.add b b l).prev b ≡ b)
unfolding Links.add Links.add_after Links.add_between
add_self l b = (λ x. ground arith, ground arith)

module _ (s : Pages) (b n : ℕ) (bs : List Block) (v : IsFree s bs) (ne : bs ≢ [])
    (lo : All (λ (c : Block). c.0 + c.1 ≤ b) bs) (nh : b ≢ free_list) (pos : 0 < n)
    (small : total bs + n < 2 ^ 32) where
  last_added : Links
  last_added = Links.add (last_or free_list (starts bs)) b s.links

  new : b ∉ starts bs
  new = beyond-not-mem b 1 bs v.ordered lo

  last_added-Ring : Ring last_added free_list (starts (bs ++ (b, n) ∷ []))
  unfolding last_added
  last_added-Ring = joined bs ((b, n) ∷ []) (
      add-Ring (starts bs) [] b
        (subst (λ l. Ring s.links free_list l) (sym (append-nil (starts bs))) v.ring)
        (nh, subst (λ l. b ∉ l) (sym (append-nil (starts bs))) new))

  links_eq : (enlist b n s).links ≡ Links.add b b last_added
  unfolding last_added
  links_eq = links-enlist s b n bs v ne lo new nh pos small

  length_eq : length (starts (bs ++ (b, n) ∷ [])) ≡ length (starts bs) + 1
  length_eq = ap length (starts-append bs ((b, n) ∷ [])) ∙ length-append (starts bs) (b ∷ [])

  nr_free-enlist : (enlist b n s).nr_free ≡ total bs + n
  unfolding enlist
  nr_free-enlist = omega (arith, v.counted)

  -- The block stands last, and is its own predecessor.
  enlist-Doubled : Doubled (enlist b n s) b (bs ++ (b, n) ∷ [])
  unfolding enlist
  enlist-Doubled = record {
    forward =
        Chain-Forward last_added (enlist b n s).links free_list (starts (bs ++ (b, n) ∷ []))
          free_list same last_added-Ring.chain;
    inside = last_added-Ring.distinct.0;
    sizes =
        All-append _ bs ((b, n) ∷ []) (keep s.property b (u32 n) (λ c. c.1) bs new v.sizes)
          (ground arith, tt);
    last_next = same b ∙ next-Ring (starts bs) [] b (parted bs ((b, n) ∷ []) last_added-Ring);
    last_prev = ap (λ l. Links.prev l b) links_eq ∙ (add_self last_added b).1;
    counted = omega (arith, length_eq, nr_free-enlist, length-le-total 1 bs v.ordered);
  }
    where
      same : (x : ℕ) → (enlist b n s).links.next x ≡ last_added.next x
      same x = ap (λ l. Links.next l x) links_eq ∙ (add_self last_added b).0 x

  property-enlist : (enlist b n s).property b ≡ n
  unfolding enlist
  property-enlist = ground arith

  -- Neither merge finds a neighbour.
  finish_behind : finish b n s ≡ enlist b n s
  finish_behind =
      merges (enlist b n s) enlist-Doubled.last_next enlist-Doubled.last_prev property-enlist
    where
      merges :
          (e : Pages)
          → e.links.next b ≡ free_list
          → e.links.prev b ≡ b
          → e.property b ≡ n
          → (let (base, e') = merge_left b e in merge_right base e') ≡ e
      merges e last self size =
          let alone : merge_left b e ≡ (b, e) =
            unfold merge_left in
            rw (self, ==-ne nh, size, ==-ne {a = b + n} {b = b} (omega arith)) in
          rw alone (unfold merge_right in rw last)

-- Pages given back behind all free blocks are handed out twice: two allocations in a row of as
-- many pages both return the first of them, where every other free block is smaller and the other
-- blocks have that many pages together.
pub free_pages-alloc_twice :
    (s : Pages) (b n : ℕ) (bs : List Block)
    → IsFree s bs
    → bs ≢ []
    → All (λ (c : Block). (c.0 + c.1 ≤ b) × (c.1 < n)) bs
    → n ≤ total bs
    → total bs + n < 2 ^ 32
    → ((q : ℕ) → b ≤ q → q < b + n → s.reserved q ≡ false)
    → (s1 : Pages) × (s2 : Pages) × (s3 : Pages) × (free_pages b n s ≡ done s1)
      × (alloc_pages n s1 ≡ done (some b, s2))
      × (alloc_pages n s2 ≡ done (some b, s3))
unfolding free_pages
free_pages-alloc_twice s b n [] v ne lo enough small plain = absurd (ne refl)
free_pages-alloc_twice s b n ((p, k) ∷ bs) v ne lo enough small plain =
    let cs : List Block = (p, k) ∷ bs in
    let behind = All-mono _ (λ (c : Block). c.0 + c.1 ≤ b) cs (λ c h. h.0) lo in
    let less = All-mono _ (λ (c : Block). c.1 < n) cs (λ c h. h.1) lo in
    let apart =
      All-mono _ (λ (c : Block). (b + n ≤ c.0) ⊎ (c.0 + c.1 ≤ b)) cs (λ c h. inr h) behind in
    let nh : b ≢ free_list = omega arith in
    let (t, run, c) = clear_pages-Cleared n b s (λ q low high.
      (plain q low high, v.others q (apart-not-mem b n q 1 cs v.ordered apart low high))) in
    let w = Cleared-IsFree n b s t cs v apart c in
    let pos : 0 < n = omega arith in
    let d = enlist-Doubled t b n cs w ne behind nh pos small in
    let size = property-enlist t b n cs w ne behind nh pos small in
    let free = nr_free-enlist t b n cs w ne behind nh pos small in
    let more = length_eq t b n cs w ne behind nh pos small in
    let d' =
      take-Doubled (enlist b n t) b n cs d size
        (omega (arith, free, more, length-le-total 1 cs v.ordered)) in
    (
      enlist b n t,
      take b n (enlist b n t),
      take b n (take b n (enlist b n t)),
      rw (ltb-true pos, run, finish_behind t b n cs w ne behind nh pos small),
      alloc-Doubled (enlist b n t) b n cs d size less pos (omega (arith, free)),
      alloc-Doubled (take b n (enlist b n t)) b n cs d' (property-take _ b n size) less pos
          (omega (arith, free, nr_free-take (enlist b n t) b n)),
    )
