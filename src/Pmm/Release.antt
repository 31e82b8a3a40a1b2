-- ===== src/Pmm/Release.antt =====
-- Where pages that come back belong among the free blocks, and what the release of them is there.
use oshub.Prelude.{
  ℕ, ◌+◌, ◌-◌, ◌≤◌, ◌<◌, ◌≡◌, ◌≢◌, refl, ap, inl, inr, List, [], ◌∷◌, ◌++◌, arith, ltb, ltb-true,
  ltb-false, ==-ne, ==-refl, if◌then◌else◌, eq-cases, All, ◌∉◌, Bool, true, false, ◌&&◌, ◌||◌, leb,
  not, some, Bool-cases,
}
use oshub.Pmm.Blocks.{
  Block, starts, Ordered, Apart, absorb, release, first_fit, allocate, Ordered-weaken,
  below-not-mem,
}

-- The first of the blocks, if there is one, begins behind the pages from `b` to `b + n`.
abbrev pub Beyond : ℕ → ℕ → List Block → Type 0
Beyond b n [] = Unit
Beyond b n ((q, m) ∷ bs) = b + n ≤ q

-- The blocks end below `b`, with a gap.
abbrev pub Below : ℕ → List Block → Type 0
Below b bs = All (λ (c : Block). c.0 + c.1 < b) bs

-- The place of `b` among the blocks: alone, or right behind a block that it touches.
pub data Place (b n : ℕ) (bs : List Block) : Type 0 where
  alone : (xs cs : List Block) → bs ≡ xs ++ cs → Below b xs → Beyond b n cs → Place b n bs
  touching :
      (xs : List Block) (p k : ℕ) (cs : List Block)
      → bs ≡ xs ++ (p, k) ∷ cs
      → Below b xs
      → p + k ≡ b
      → Beyond b n cs
      → Place b n bs

Beyond-of_Apart :
    (b n lo : ℕ) (bs : List Block) → b ≤ lo → Ordered lo bs → Apart b n bs → Beyond b n bs
Beyond-of_Apart b n lo [] h o a = tt
Beyond-of_Apart b n lo ((q, m) ∷ bs) h o a = omega arith

place_cons : (b n p k : ℕ) (bs : List Block) → p + k < b → Place b n bs → Place b n ((p, k) ∷ bs)
place_cons b n p k bs h (alone xs cs e lo hi) =
    alone ((p, k) ∷ xs) cs (ap (λ l. (p, k) ∷ l) e) (h, lo) hi
place_cons b n p k bs h (touching xs q m cs e lo t hi) =
    touching ((p, k) ∷ xs) q m cs (ap (λ l. (p, k) ∷ l) e) (h, lo) t hi

pub place : (b n lo : ℕ) (bs : List Block) → Ordered lo bs → Apart b n bs → Place b n bs
place b n lo [] o a = alone [] [] refl tt tt
place b n lo ((p, k) ∷ bs) o a = elim a.0 [
  | inl h ↦ alone [] ((p, k) ∷ bs) refl tt h
  | inr h ↦ elim (eq-cases (p + k) b) [
    | inl e ↦ touching [] p k bs refl tt e (Beyond-of_Apart b n (p + k) bs (omega arith) o.2 a.1)
    | inr ne ↦ place_cons b n p k bs (omega arith) (place b n (p + k) bs o.2 a.1)
  ]
]

-- A release far from the block before it, and one that joins it.
pub release_alone :
    (b n : ℕ) (xs cs : List Block)
    → Below b xs
    → Beyond b n cs
    → 0 < n
    → release b n (xs ++ cs) ≡ xs ++ absorb b n cs
unfolding release absorb
release_alone b n [] [] lo hi pos = refl
release_alone b n [] ((q, m) ∷ cs) lo hi pos = rw (ltb-true {a = b} {b = q} (omega arith))
release_alone b n ((p, k) ∷ xs) cs lo hi pos =
    rw (ltb-false {a = b} {b = p} (omega arith), ==-ne {a = p + k} {b = b} (omega arith))
      (ap (λ l. (p, k) ∷ l) (release_alone b n xs cs lo.1 hi pos))

pub release_touching :
    (b n p k : ℕ) (xs cs : List Block)
    → Below b xs
    → p + k ≡ b
    → release b n (xs ++ (p, k) ∷ cs) ≡ xs ++ absorb p (k + n) cs
unfolding release
release_touching b n p k [] cs lo t = rw (ltb-false {a = b} {b = p} (omega arith), t, ==-refl b)
release_touching b n p k ((q, m) ∷ xs) cs lo t =
    rw (ltb-false {a = b} {b = q} (omega arith), ==-ne {a = q + m} {b = b} (omega arith))
      (ap (λ l. (q, m) ∷ l) (release_touching b n p k xs cs lo.1 t))

-- The pages stand in order where they belong.
pub Ordered-with :
    (lo b n : ℕ) (xs cs : List Block)
    → All (λ (c : Block). c.0 + c.1 ≤ b) xs
    → Beyond b n cs
    → 0 < n
    → lo ≤ b
    → Ordered lo (xs ++ cs)
    → Ordered lo (xs ++ (b, n) ∷ cs)
Ordered-with lo b n [] [] a h pos l o = (l, pos, tt)
Ordered-with lo b n [] ((q, m) ∷ cs) a h pos l o = (l, pos, (h, o.1, o.2))
Ordered-with lo b n ((p, k) ∷ xs) cs a h pos l o =
    (o.0, o.1, Ordered-with (p + k) b n xs cs a.1 h pos a.0 o.2)

-- Two neighbours that touch are one block.
pub Ordered-joined :
    (lo p k m : ℕ) (xs cs : List Block)
    → Ordered lo (xs ++ (p, k) ∷ (p + k, m) ∷ cs)
    → Ordered lo (xs ++ (p, k + m) ∷ cs)
Ordered-joined lo p k m [] cs o =
    (o.0, omega arith, Ordered-weaken (p + k + m) (p + (k + m)) cs (omega arith) o.2.2)
Ordered-joined lo p k m ((q, r) ∷ xs) cs o = (o.0, o.1, Ordered-joined (q + r) p k m xs cs o.2)

-- The second of two neighbours is no other block's start.
pub second-not-mem :
    (lo p k q m : ℕ) (xs cs : List Block)
    → Ordered lo (xs ++ (p, k) ∷ (q, m) ∷ cs)
    → (q ∉ starts xs) × (q ∉ starts cs) × (q ≢ p) × (lo ≤ q)
second-not-mem lo p k q m [] cs o =
    (tt, below-not-mem q (q + m) cs (omega arith) o.2.2, omega arith, omega arith)
second-not-mem lo p k q m ((r, t) ∷ xs) cs o =
    let i = second-not-mem (r + t) p k q m xs cs o.2 in ((omega arith, i.0), i.1, i.2, omega arith)

-- Whether a page lies in one of the blocks.
pub covered : ℕ → List Block → Bool
covered q [] = false
covered q ((p, k) ∷ bs) = (leb p q && ltb q (p + k)) || covered q bs

covered_below : (q lo : ℕ) (bs : List Block) → q < lo → Ordered lo bs → covered q bs ≡ false
unfolding covered
covered_below q lo [] h o = refl
covered_below q lo ((p, k) ∷ bs) h o = ground (arith, covered_below q (p + k) bs)

first_fit-above : (n p lo : ℕ) (bs : List Block) → Ordered lo bs → first_fit n bs ≡ some p → lo ≤ p
unfolding first_fit
first_fit-above n p lo [] o e = absurd (cc)
first_fit-above n p lo ((r, k) ∷ bs) o e = ground (arith, first_fit-above n p (r + k) bs o.2)

covered-first :
    (n p q r k : ℕ) (bs : List Block)
    → Ordered (r + k) bs
    → n ≤ k
    → r ≡ p
    → covered q (if ltb n k then (r + n, k - n) ∷ bs else bs)
      ≡ (((leb r q && ltb q (r + k)) || covered q bs) && not (leb p q && ltb q (p + n)))
unfolding covered
covered-first n p q r k bs o fit e = elim (Bool-cases (ltb n k)) [
  | inl part ↦ rw part (ground (arith, covered_below q (r + k) bs))
  | inr whole ↦ rw whole (ground (arith, covered_below q (r + k) bs))
]

-- Exactly the pages that an allocation hands out leave the free blocks.
covered-allocate :
    (n p q lo : ℕ) (bs : List Block)
    → Ordered lo bs
    → first_fit n bs ≡ some p
    → covered q (allocate n bs) ≡ (covered q bs && not (leb p q && ltb q (p + n)))
unfolding covered allocate first_fit
covered-allocate n p q lo [] o e = absurd (cc)
covered-allocate n p q lo ((r, k) ∷ bs) o e = elim (Bool-cases (leb n k)) [
  | inl fit ↦
      let e' : some r ≡ some p = (rw fit at e) in
      rw fit (covered-first n p q r k bs o.2 (ground arith) (ground arith))
  | inr small ↦
      let e' : first_fit n bs ≡ some p = (rw small at e) in
      rw small
        (ground (arith, covered-allocate n p q (r + k) bs o.2, first_fit-above n p (r + k) bs o.2))
]

covered-absorb :
    (p k q : ℕ) (bs : List Block)
    → covered q (absorb p k bs) ≡ ((leb p q && ltb q (p + k)) || covered q bs)
unfolding covered absorb
covered-absorb p k q [] = refl
covered-absorb p k q ((r, m) ∷ bs) = ground arith

-- Exactly the pages that come back join the free blocks.
covered-release :
    (b n q lo : ℕ) (bs : List Block)
    → covered q (release b n bs) ≡ ((leb b q && ltb q (b + n)) || covered q bs)
unfolding covered release
covered-release b n q lo [] = refl
covered-release b n q lo ((p, k) ∷ bs) = ground (
  arith,
  covered-absorb b n q ((p, k) ∷ bs),
  covered-absorb p (k + n) q bs,
  covered-release b n q (p + k) bs,
)

Apart-above : (p n lo : ℕ) (bs : List Block) → p + n ≤ lo → Ordered lo bs → Apart p n bs
Apart-above p n lo [] h o = tt
Apart-above p n lo ((q, m) ∷ bs) h o =
    (inl (omega arith), Apart-above p n (q + m) bs (omega arith) o.2)

-- The pages handed out are in no free block any more.
pub Apart-allocate :
    (n p lo : ℕ) (bs : List Block)
    → Ordered lo bs
    → first_fit n bs ≡ some p
    → Apart p n (allocate n bs) × (lo ≤ p)
unfolding first_fit allocate
Apart-allocate n p lo [] o e = absurd (cc)
Apart-allocate n p lo ((r, k) ∷ bs) o e = elim (Bool-cases (leb n k)) [
  | inl fit ↦
      let e' : some r ≡ some p = (rw fit at e) in
      let same : r ≡ p = ground arith in rw (fit, ← same) (rest (ground arith), o.0)
  | inr small ↦
      let e' : first_fit n bs ≡ some p = (rw small at e) in
      let i = Apart-allocate n p (r + k) bs o.2 e' in rw small ((inr i.1, i.0), omega arith)
]
  where
    rest : n ≤ k → Apart r n (if ltb n k then (r + n, k - n) ∷ bs else bs)
    rest room = elim (Bool-cases (ltb n k)) [
      | inl part ↦ rw part (inl (omega arith), Apart-above r n (r + k) bs (ground arith) o.2)
      | inr whole ↦ rw whole (Apart-above r n (r + k) bs (omega arith) o.2)
    ]

covered-first_fit :
    (n p q : ℕ) (bs : List Block)
    → first_fit n bs ≡ some p
    → p ≤ q
    → q < p + n
    → covered q bs ≡ true
unfolding covered first_fit
covered-first_fit n p q [] e lo hi = absurd (cc)
covered-first_fit n p q ((r, k) ∷ bs) e lo hi = ground (arith, covered-first_fit n p q bs)

-- What was handed out comes back: the same pages are free.
pub covered-release-allocate :
    (n p q lo : ℕ) (bs : List Block)
    → Ordered lo bs
    → first_fit n bs ≡ some p
    → covered q (release p n (allocate n bs)) ≡ covered q bs
covered-release-allocate n p q lo bs o e = ground (
  arith,
  covered-release p n q lo (allocate n bs),
  covered-allocate n p q lo bs o e,
  covered-first_fit n p q bs e,
)
