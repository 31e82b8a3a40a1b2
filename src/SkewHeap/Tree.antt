-- ===== src/SkewHeap/Tree.antt =====
-- The trees that the nodes of skew_heap.h make up, and the merge of two of them.
use oshub.Prelude.{
  ℕ, suc, ◌+◌, ◌≤◌, ◌<◌, ltb, ◌≡◌, Bool, true, false, arith, ◌==◌, if◌then◌else◌, Bool-cases, inl,
  inr,
}

pub data Tree : Type 0 where
  leaf : Tree
  node : Tree → ℕ → Tree → Tree

-- How often a node stands in a tree, and how many nodes it has.
abbrev pub count : ℕ → Tree → ℕ
count x leaf = 0
count x (node l y r) = (if x == y then 1 else 0) + count x l + count x r

abbrev pub size : Tree → ℕ
size leaf = 0
size (node l y r) = suc (size l + size r)

module _ (less : ℕ → ℕ → Bool) where
  unfoldable pub merge : Tree → Tree → Tree
  merge leaf b = b
  merge (node l x r) leaf = node l x r
  merge (node l x r) (node l' y r') = elim (less x y) [
    | true ↦ node (merge r (node l' y r')) x l
    | false ↦ node (merge (node l x r) r') y l'
  ]

  -- A merge has the nodes of both trees.
  pub count-merge : (x : ℕ) (a b : Tree) → count x (merge a b) ≡ count x a + count x b
  unfolding merge
  count-merge x leaf b = omega arith
  count-merge x (node l y r) leaf = omega arith
  count-merge x (node l y r) (node l' z r') =
      ground (arith, count-merge x r (node l' z r'), count-merge x (node l y r) r')

  pub size-merge : (a b : Tree) → size (merge a b) ≡ size a + size b
  unfolding merge
  size-merge leaf b = omega arith
  size-merge (node l y r) leaf = omega arith
  size-merge (node l y r) (node l' z r') =
      ground (arith, size-merge r (node l' z r'), size-merge (node l y r) r')

-- With a measure of the nodes: every node of the tree has at least `m`, and no node has less than
-- the one above it.
module _ (key : ℕ → ℕ) where
  abbrev pub AtLeast : ℕ → Tree → Type 0
  AtLeast m leaf = Unit
  AtLeast m (node l x r) = (m ≤ key x) × AtLeast m l × AtLeast m r

  abbrev pub IsHeap : Tree → Type 0
  IsHeap leaf = Unit
  IsHeap (node l x r) = AtLeast (key x) l × AtLeast (key x) r × IsHeap l × IsHeap r

  AtLeast-lower : (m n : ℕ) (t : Tree) → m ≤ n → AtLeast n t → AtLeast m t
  AtLeast-lower m n leaf h a = tt
  AtLeast-lower m n (node l x r) h a =
      (omega arith, AtLeast-lower m n l h a.1, AtLeast-lower m n r h a.2)

-- A merge that compares by the measure keeps the order.
module _ (key : ℕ → ℕ) (less : ℕ → ℕ → Bool) where
  -- The comparison is that of the measure, for a node of each tree.
  abbrev pub Compares : Tree → Tree → Type 0
  Compares u v = (x y : ℕ) → 0 < count x u → 0 < count y v → less x y ≡ ltb (key x) (key y)

  AtLeast-merge :
      (m : ℕ) (u v : Tree) → AtLeast key m u → AtLeast key m v → AtLeast key m (merge less u v)
  unfolding merge
  AtLeast-merge m leaf v a b = b
  AtLeast-merge m (node l x r) leaf a b = a
  AtLeast-merge m (node l x r) (node l' y r') a b = elim (Bool-cases (less x y)) [
    | inl e ↦ rw (e, merge) (a.0, AtLeast-merge m r (node l' y r') a.2 b, a.1)
    | inr e ↦ rw (e, merge) (b.0, AtLeast-merge m (node l x r) r' a b.2, b.1)
  ]

  pub IsHeap-merge :
      (u v : Tree) → Compares u v → IsHeap key u → IsHeap key v → IsHeap key (merge less u v)
  unfolding merge
  IsHeap-merge leaf v c a b = b
  IsHeap-merge (node l x r) leaf c a b = a
  IsHeap-merge (node l x r) (node l' y r') c a b =
      let here = c x y (ground arith) (ground arith) in
      elim (Bool-cases (less x y)) [
        | inl e ↦
            let lt : key x < key y = ground arith in
            let low = AtLeast-lower key (key x) (key y) in
            rw (e, merge)
              (
                AtLeast-merge (key x) r (node l' y r') a.1
                    (omega arith, low l' (omega arith) b.0, low r' (omega arith) b.1),
                a.0,
                IsHeap-merge r (node l' y r') (λ z w i j. c z w (ground arith) j) a.3 b,
                a.2,
              )
        | inr e ↦
            let ge : key y ≤ key x = ground arith in
            let low = AtLeast-lower key (key y) (key x) in
            rw (e, merge)
              (
                AtLeast-merge (key y) (node l x r) r'
                    (omega arith, low l (omega arith) a.0, low r (omega arith) a.1) b.1,
                b.0,
                IsHeap-merge (node l x r) r' (λ z w i j. c z w i (ground arith)) a b.3,
                b.2,
              )
      ]
