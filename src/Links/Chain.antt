-- ===== src/Links/Chain.antt =====
-- Chains of linked nodes of list.h: what a node put in or taken out makes of them.
use oshub.Prelude.{
  All, All-left, All-right, ℕ, ◌≡◌, ◌≢◌, sym, ◌∙◌, List, [], ◌∷◌, ◌++◌, arith, update, last_or,
  head_or, ◌∉◌, Distinct,
}
use oshub.Links.{Links, add_between, del_between}

-- `b` stands behind `a`
abbrev pub Link : Links → ℕ → ℕ → Type 0
Link s a b = (s.next a ≡ b) × (s.prev b ≡ a)

-- From `p` both kinds of pointers go through `xs` to `q`.
abbrev pub Chain : Links → ℕ → List ℕ → ℕ → Type 0
Chain s p [] q = Link s p q
Chain s p (x ∷ xs) q = Link s p x × Chain s x xs q

-- Two stores that agree on the nodes of a chain both hold it.
pub frame :
    (s t : Links) (p : ℕ) (xs : List ℕ) (q : ℕ)
    → All (λ a. t.next a ≡ s.next a) (p ∷ xs)
    → All (λ b. t.prev b ≡ s.prev b) xs
    → t.prev q ≡ s.prev q
    → Chain s p xs q
    → Chain t p xs q
frame s t p [] q n b e c = (n.0 ∙ c.0, e ∙ c.1)
frame s t p (x ∷ xs) q n b e c = ((n.0 ∙ c.0.0, b.0 ∙ c.0.1), frame s t x xs q n.1 b.1 e c.1)

pub keep_one : (f : ℕ → ℕ) (a v : ℕ) (xs : List ℕ) → a ∉ xs → All (λ x. update f a v x ≡ f x) xs
keep_one f a v [] h = tt
keep_one f a v (x ∷ xs) h = (ground arith, keep_one f a v xs h.1)

pub keep_two :
    (f : ℕ → ℕ) (a v b w : ℕ) (xs : List ℕ)
    → a ∉ xs
    → b ∉ xs
    → All (λ x. update (update f a v) b w x ≡ f x) xs
keep_two f a v b w [] h k = tt
keep_two f a v b w (x ∷ xs) h k = (ground arith, keep_two f a v b w xs h.1 k.1)

pub not-mem-last : (a p : ℕ) (xs : List ℕ) → a ≢ p → a ∉ xs → a ≢ last_or p xs
not-mem-last a p [] h k = h
not-mem-last a p (x ∷ xs) h k = not-mem-last a x xs k.0 k.1

not-mem-head : (a q : ℕ) (xs : List ℕ) → a ≢ q → a ∉ xs → a ≢ head_or xs q
not-mem-head a q [] h k = h
not-mem-head a q (x ∷ xs) h k = k.0

-- `e` put between the two parts of a chain.
pub insert-Chain :
    (s : Links) (e p : ℕ) (xs ys : List ℕ) (q : ℕ)
    → e ∉ (p ∷ xs ++ ys)
    → e ≢ q
    → Distinct (p ∷ xs ++ ys)
    → q ∉ (xs ++ ys)
    → Chain s p (xs ++ ys) q
    → Chain (add_between e (last_or p xs) (head_or ys q) s) p (xs ++ e ∷ ys) q
unfolding add_between
insert-Chain s e p [] [] q new ne d out c = ground arith
insert-Chain s e p [] (y ∷ ys) q new ne d out c = (
  ground arith,
  (
    ground arith,
    frame s _ y ys q (keep_two s.next p e e y (y ∷ ys) d.0 new.1)
        (keep_two s.prev y e e p ys d.1.0 new.1.1) (ground arith) c.1,
  ),
)
insert-Chain s e p (x ∷ xs) ys q new ne d out c = (
  ground (
    arith,
    not-mem-last p x xs d.0.0 (All-left _ xs ys d.0.1),
    not-mem-head x q ys (λ h. out.0 (sym h)) (All-right _ xs ys d.1.0),
  ),
  insert-Chain s e x xs ys q new.1 ne d.1 out.1 c.1,
)

-- A node taken out of a chain.
pub delete-Chain :
    (s : Links) (e p : ℕ) (xs ys : List ℕ) (q : ℕ)
    → Distinct (p ∷ xs ++ e ∷ ys)
    → q ∉ (xs ++ e ∷ ys)
    → Chain s p (xs ++ e ∷ ys) q
    → Chain (del_between (last_or p xs) (head_or ys q) s) p (xs ++ ys) q
unfolding del_between
delete-Chain s e p [] [] q d out c = ground arith
delete-Chain s e p [] (y ∷ ys) q d out c = (
  ground arith,
  frame s _ y ys q (keep_one s.next p y (y ∷ ys) d.0.1) (keep_one s.prev y p ys d.1.1.0)
      (ground arith) c.1.1,
)
delete-Chain s e p (x ∷ xs) ys q d out c = (
  ground (
    arith,
    not-mem-last p x xs d.0.0 (All-left _ xs (e ∷ ys) d.0.1),
    not-mem-head x q ys (λ h. out.0 (sym h)) (All-right _ xs (e ∷ ys) d.1.0).1,
  ),
  delete-Chain s e x xs ys q d.1 out.1 c.1,
)

-- The neighbours of a node.
pub neighbours :
    (s : Links) (e p : ℕ) (xs ys : List ℕ) (q : ℕ)
    → Chain s p (xs ++ e ∷ ys) q
    → (s.prev e ≡ last_or p xs) × (s.next e ≡ head_or ys q)
neighbours s e p [] [] q c = (c.0.1, c.1.0)
neighbours s e p [] (y ∷ ys) q c = (c.0.1, c.1.0.0)
neighbours s e p (x ∷ xs) ys q c = neighbours s e x xs ys q c.1

-- The nodes beside the gap between the two parts of a chain.
pub gap :
    (s : Links) (p : ℕ) (xs ys : List ℕ) (q : ℕ)
    → Chain s p (xs ++ ys) q
    → (s.next (last_or p xs) ≡ head_or ys q) × (s.prev (head_or ys q) ≡ last_or p xs)
gap s p [] [] q c = c
gap s p [] (y ∷ ys) q c = c.0
gap s p (x ∷ xs) ys q c = gap s x xs ys q c.1

pub ∉-insert : (a e : ℕ) (xs ys : List ℕ) → a ≢ e → a ∉ (xs ++ ys) → a ∉ (xs ++ e ∷ ys)
∉-insert a e [] ys n h = (n, h)
∉-insert a e (x ∷ xs) ys n h = (h.0, ∉-insert a e xs ys n h.1)

pub ∉-delete : (a e : ℕ) (xs ys : List ℕ) → a ∉ (xs ++ e ∷ ys) → (a ≢ e) × (a ∉ (xs ++ ys))
∉-delete a e [] ys h = h
∉-delete a e (x ∷ xs) ys h = let r = ∉-delete a e xs ys h.1 in (r.0, (h.0, r.1))

pub Distinct-insert :
    (e : ℕ) (xs ys : List ℕ) → e ∉ (xs ++ ys) → Distinct (xs ++ ys) → Distinct (xs ++ e ∷ ys)
Distinct-insert e [] ys n h = (n, h)
Distinct-insert e (x ∷ xs) ys n h =
    (∉-insert x e xs ys (λ p. n.0 (sym p)) h.0, Distinct-insert e xs ys n.1 h.1)

pub Distinct-delete : (e : ℕ) (xs ys : List ℕ) → Distinct (xs ++ e ∷ ys) → Distinct (xs ++ ys)
Distinct-delete e [] ys h = h.1
Distinct-delete e (x ∷ xs) ys h = ((∉-delete x e xs ys h.0).1, Distinct-delete e xs ys h.1)

pub not-mem_of_Distinct : (e : ℕ) (xs ys : List ℕ) → Distinct (xs ++ e ∷ ys) → e ∉ (xs ++ ys)
not-mem_of_Distinct e [] ys d = d.0
not-mem_of_Distinct e (x ∷ xs) ys d =
    (λ p. (∉-delete x e xs ys d.0).0 (sym p), not-mem_of_Distinct e xs ys d.1)
