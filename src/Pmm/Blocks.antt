-- ===== src/Pmm/Blocks.antt =====
-- What the free list of default_pmm.c stands for: the free blocks, each its first page and its
-- number of pages, in the order of their addresses; and what an allocation and a release do to it.
use oshub.Prelude.{
  update, sym, ==-ne, leb-true, leb-false, ℕ, ◌+◌, ◌-◌, ◌≤◌, ◌<◌, ◌≡◌, ◌≢◌, refl, ap, ◌⊎◌, inl, inr,
  Option, none, some, List, [], ◌∷◌, ◌++◌, arith, ltb, leb, ◌==◌, if◌then◌else◌, Bool-cases, length,
  All, ◌∉◌, Distinct,
}

abbrev pub Block : Type 0
Block = ℕ × ℕ

abbrev pub starts : List Block → List ℕ
starts [] = []
starts ((p, k) ∷ bs) = p ∷ starts bs

abbrev pub total : List Block → ℕ
total [] = 0
total ((p, k) ∷ bs) = k + total bs

-- From `lo` on the blocks follow one another; none is empty and no two share a page.
abbrev pub Ordered : ℕ → List Block → Type 0
Ordered lo [] = Unit
Ordered lo ((p, k) ∷ bs) = (lo ≤ p) × (0 < k) × Ordered (p + k) bs

-- The first block with at least `n` pages.
unfoldable pub first_fit : ℕ → List Block → Option ℕ
first_fit n [] = none
first_fit n ((p, k) ∷ bs) = if leb n k then some p else first_fit n bs

-- Its first `n` pages are gone.
unfoldable pub allocate : ℕ → List Block → List Block
allocate n [] = []
allocate n ((p, k) ∷ bs) =
    if leb n k then (if ltb n k then (p + n, k - n) ∷ bs else bs) else (p, k) ∷ allocate n bs

-- A block in front of the others; one that it touches becomes part of it.
unfoldable pub absorb : ℕ → ℕ → List Block → List Block
absorb p k [] = (p, k) ∷ []
absorb p k ((q, m) ∷ bs) = if p + k == q then (p, k + m) ∷ bs else (p, k) ∷ (q, m) ∷ bs

-- The pages from `b` to `b + n` come back, joined to the blocks that they touch.
unfoldable pub release : ℕ → ℕ → List Block → List Block
unfolding absorb
release b n [] = (b, n) ∷ []
release b n ((p, k) ∷ bs) =
    if ltb b p
    then absorb b n ((p, k) ∷ bs)
    else if p + k == b
    then absorb p (k + n) bs
    else (p, k) ∷ release b n bs

-- The pages from `b` to `b + n` are in no block.
abbrev pub Apart : ℕ → ℕ → List Block → Type 0
Apart b n bs = All (λ c. (b + n ≤ c.0) ⊎ (c.0 + c.1 ≤ b)) bs

pub Ordered-weaken : (lo lo' : ℕ) (bs : List Block) → lo' ≤ lo → Ordered lo bs → Ordered lo' bs
Ordered-weaken lo lo' [] h o = tt
Ordered-weaken lo lo' ((p, k) ∷ bs) h o = (omega arith, o.1, o.2)

pub starts-append : (bs cs : List Block) → starts (bs ++ cs) ≡ starts bs ++ starts cs
starts-append [] cs = refl
starts-append ((p, k) ∷ bs) cs = ap (λ l. p ∷ l) (starts-append bs cs)

pub total-append : (bs cs : List Block) → total (bs ++ cs) ≡ total bs + total cs
total-append [] cs = omega arith
total-append ((p, k) ∷ bs) cs = omega (arith, total-append bs cs)

pub length-le-total : (lo : ℕ) (bs : List Block) → Ordered lo bs → length (starts bs) ≤ total bs
length-le-total lo [] o = omega arith
length-le-total lo ((p, k) ∷ bs) o = omega (arith, length-le-total (p + k) bs o.2)

-- Addresses below the first block are no block's start.
pub below-not-mem : (a lo : ℕ) (bs : List Block) → a < lo → Ordered lo bs → a ∉ starts bs
below-not-mem a lo [] h o = tt
below-not-mem a lo ((p, k) ∷ bs) h o = (omega arith, below-not-mem a (p + k) bs (omega arith) o.2)

Ordered-Distinct : (lo : ℕ) (bs : List Block) → Ordered lo bs → Distinct (starts bs)
Ordered-Distinct lo [] o = tt
Ordered-Distinct lo ((p, k) ∷ bs) o =
    (below-not-mem p (p + k) bs (omega arith) o.2, Ordered-Distinct (p + k) bs o.2)

-- A page inside a block is no block's start.
pub inner-not-mem :
    (a lo p k : ℕ) (bs cs : List Block)
    → Ordered lo (bs ++ (p, k) ∷ cs)
    → p < a
    → a < p + k
    → a ∉ starts (bs ++ (p, k) ∷ cs)
inner-not-mem a lo p k [] cs o h h' = (omega arith, below-not-mem a (p + k) cs h' o.2)
inner-not-mem a lo p k ((q, m) ∷ bs) cs o h h' =
    (λ e. bound e, inner-not-mem a (q + m) p k bs cs o.2 h h')
  where
    above : (lo' : ℕ) (ds : List Block) → Ordered lo' (ds ++ (p, k) ∷ cs) → lo' ≤ p
    above lo' [] o' = o'.0
    above lo' ((r, t) ∷ ds) o' = let i = above (r + t) ds o'.2 in omega arith

    bound : a ≢ q
    bound e = let i = above (q + m) bs o.2 in omega arith

-- What the search returns is a block of at least `n` pages, and all before it are smaller.
pub record Fits (n : ℕ) (bs : List Block) (p : ℕ) : Type 0 where
  pub size : ℕ
  pub before : List Block
  pub after : List Block
  pub split : bs ≡ before ++ (p, size) ∷ after
  pub fits : n ≤ size
  pub skipped : All (λ c. c.1 < n) before

pub first_fit-Fits : (n p : ℕ) (bs : List Block) → first_fit n bs ≡ some p → Fits n bs p
unfolding first_fit
first_fit-Fits n p [] e = absurd (cc)
first_fit-Fits n p ((q, k) ∷ bs) e = elim (Bool-cases (leb n k)) [
  | inl fit ↦ record {
    size = k;
    before = [];
    after = bs;
    split = ground arith;
    fits = ground arith;
    skipped = tt;
  }
  | inr small ↦
      let r = first_fit-Fits n p bs (rw small at e) in
      record {
        size = r.size;
        before = (q, k) ∷ r.before;
        after = r.after;
        split = ap (λ l. (q, k) ∷ l) r.split;
        fits = r.fits;
        skipped = (ground arith, r.skipped);
      }
]

pub first_fit-none : (n : ℕ) (bs : List Block) → total bs < n → first_fit n bs ≡ none
unfolding first_fit
first_fit-none n [] h = refl
first_fit-none n ((p, k) ∷ bs) h = ground (arith, first_fit-none n bs)

pub allocate-none : (n : ℕ) (bs : List Block) → first_fit n bs ≡ none → allocate n bs ≡ bs
unfolding first_fit allocate
allocate-none n [] h = refl
allocate-none n ((p, k) ∷ bs) h = elim (Bool-cases (leb n k)) [
  | inl fit ↦ absurd (let h' : some p ≡ none = (rw fit at h) in cc)
  | inr small ↦ rw small (ap (λ l. (p, k) ∷ l) (allocate-none n bs (rw small at h)))
]

-- An allocation takes exactly `n` pages.
pub total-allocate :
    (n p : ℕ) (bs : List Block) → first_fit n bs ≡ some p → total (allocate n bs) + n ≡ total bs
unfolding first_fit allocate
total-allocate n p [] e = absurd (cc)
total-allocate n p ((q, k) ∷ bs) e = ground (arith, total-allocate n p bs)

allocate-Ordered : (n lo : ℕ) (bs : List Block) → Ordered lo bs → Ordered lo (allocate n bs)
unfolding allocate
allocate-Ordered n lo [] o = tt
allocate-Ordered n lo ((p, k) ∷ bs) o =
    ground (arith, allocate-Ordered n (p + k) bs o.2, Ordered-weaken (p + k) lo bs)

-- Blocks put into the middle of others, and taken out, and the starts that are not there.
pub not-mem_with :
    (q p k : ℕ) (bs cs : List Block)
    → q ≢ p
    → q ∉ starts (bs ++ cs)
    → q ∉ starts (bs ++ (p, k) ∷ cs)
not-mem_with q p k [] cs n h = (n, h)
not-mem_with q p k ((r, m) ∷ bs) cs n h = (h.0, not-mem_with q p k bs cs n h.1)

pub not-mem_without :
    (q p k : ℕ) (bs cs : List Block)
    → q ∉ starts (bs ++ (p, k) ∷ cs)
    → (q ≢ p) × (q ∉ starts bs) × (q ∉ starts cs) × (q ∉ starts (bs ++ cs))
not-mem_without q p k [] cs h = (h.0, tt, h.1, h.1)
not-mem_without q p k ((r, m) ∷ bs) cs h =
    let i = not-mem_without q p k bs cs h.1 in (i.0, (h.0, i.1), i.2, (h.0, i.3))

-- In an ordered list a block's start is no other block's start.
pub start-not-mem :
    (p k lo : ℕ) (bs cs : List Block)
    → Ordered lo (bs ++ (p, k) ∷ cs)
    → (p ∉ starts bs) × (p ∉ starts cs) × (p ∉ starts (bs ++ cs)) × (lo ≤ p)
start-not-mem p k lo [] cs o =
    let out = below-not-mem p (p + k) cs (omega arith) o.2 in (tt, out, out, o.0)
start-not-mem p k lo ((r, m) ∷ bs) cs o =
    let i = start-not-mem p k (r + m) bs cs o.2 in
    ((omega arith, i.0), i.1, (omega arith, i.2), omega arith)

-- Facts about blocks that are read from a function of the page stay true if it changes elsewhere.
pub keep {ℓ} :
    {A : Type ℓ} (f : ℕ → A) (a : ℕ) (v : A) (g : Block → A) (bs : List Block)
    → a ∉ starts bs
    → All (λ b. f b.0 ≡ g b) bs
    → All (λ b. update f a v b.0 ≡ g b) bs
keep f a v g [] out h = tt
keep f a v g ((p, k) ∷ bs) out h = (rw (==-ne (λ e. out.0 (sym e))) h.0, keep f a v g bs out.1 h.1)

-- Allocation from the first block that fits.
pub allocate_at :
    (n p k : ℕ) (bs cs : List Block)
    → All (λ c. c.1 < n) bs
    → n ≤ k
    → allocate n (bs ++ (p, k) ∷ cs) ≡ bs ++ (if ltb n k then (p + n, k - n) ∷ cs else cs)
unfolding allocate
allocate_at n p k [] cs sk fit = rw (leb-true fit)
allocate_at n p k ((q, m) ∷ bs) cs sk fit =
    rw (leb-false sk.0) (ap (λ l. (q, m) ∷ l) (allocate_at n p k bs cs sk.1 fit))

pub Ordered-without :
    (lo p k : ℕ) (bs cs : List Block) → Ordered lo (bs ++ (p, k) ∷ cs) → Ordered lo (bs ++ cs)
Ordered-without lo p k [] cs o = Ordered-weaken (p + k) lo cs (omega arith) o.2
Ordered-without lo p k ((q, m) ∷ bs) cs o = (o.0, o.1, Ordered-without (q + m) p k bs cs o.2)

pub Ordered-rest :
    (lo n p k : ℕ) (bs cs : List Block)
    → n < k
    → Ordered lo (bs ++ (p, k) ∷ cs)
    → Ordered lo (bs ++ (p + n, k - n) ∷ cs)
Ordered-rest lo n p k [] cs h o =
    (omega arith, omega arith, Ordered-weaken (p + k) (p + n + (k - n)) cs (omega arith) o.2)
Ordered-rest lo n p k ((q, m) ∷ bs) cs h o = (o.0, o.1, Ordered-rest (q + m) n p k bs cs h o.2)
