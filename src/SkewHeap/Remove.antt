-- ===== src/SkewHeap/Remove.antt =====
-- `skew_heap_insert`, and `skew_heap_remove` of the root, of skew_heap.h.
use oshub.Prelude.{ℕ, ◌+◌, ◌≤◌, ◌<◌, ◌≡◌, ◌≢◌, refl, inl, inr, Bool, arith}
use oshub.SkewHeap.{Store, null, init, insert, remove}
use oshub.SkewHeap.Tree
use oshub.SkewHeap.Tree.{Tree, leaf, node, count, size, count-merge}
use oshub.SkewHeap.Shape.{Rep, frame, set_parent-Rep}
use oshub.SkewHeap.Merge.{Merged, merge-Merged}

-- A heap without a parent: what a run queue's `lab6_run_pool` points at.
abbrev pub Top : Store → ℕ → Tree → Type 0
Top s a u = Rep s null a u × ((x : ℕ) → count x u ≤ 1)

above_null :
    {s : Store} {u : Tree} {out : ℕ × Store} (i : Merged s null null u out) → Rep out.1 null out.0 u
above_null i = elim i.either [ inl e ↦ rw (← e) i.rep | inr e ↦ rw (← e) i.rep ]

module _ (less : ℕ → ℕ → Bool) (f : ℕ) (s : Store) where
  -- `skew_heap_insert` of a node that is not in the heap, with fuel above the number of nodes, gives
  -- a root without a parent, whose tree is the heap's merged with that node, each node once.
  pub insert-Top :
      (a b : ℕ) (u : Tree)
      → Top s a u
      → b ≢ null
      → count b u ≡ 0
      → size u + 1 < f
      → let (root, s') = insert less f a b s in Top s' root (Tree.merge less u (node leaf b leaf))
  unfolding insert
  insert-Top a b u t ne new fuel = (
    above_null (
        merge-Merged less f (init b s) null null a b u (node leaf b leaf) kept single
          (λ x. ground (arith, t.1 x)) (omega arith)),
    λ x. ground (arith, count-merge less x u (node leaf b leaf), t.1 x),
  )
    where
      other : (x : ℕ) → 0 < count x u → x ≢ b
      other x i e = ground arith

      kept : Rep (init b s) null a u
      kept =
          frame s (init b s) null a u
            (λ x i.
              let h = other x i in
              unfold init in
              record { parent = ground arith; left = ground arith; right = ground arith })
            t.0

      single : Rep (init b s) null b (node leaf b leaf)
      single = unfold init in (refl, ne, ground arith, ground arith, ground arith)

  -- `skew_heap_remove` of the root, with fuel above the number of the other nodes, gives a root
  -- without a parent, whose tree is the two subtrees merged, each node once.
  pub remove-Top :
      (a : ℕ) (l r : Tree)
      → Top s a (node l a r)
      → size l + size r < f
      → let (root, s') = remove less f a a s in Top s' root (Tree.merge less l r)
  unfolding remove
  remove-Top a l r t fuel =
      let i =
        merge-Merged less f s a a (s.left a) (s.right a) l r t.0.3 t.0.4
          (λ x. ground (arith, t.1 x)) (omega arith) in
      let one : (x : ℕ) → count x (Tree.merge less l r) ≤ 1 =
        λ x. ground (arith, count-merge less x l r, t.1 x) in
      rw t.0.2 (set_parent-Rep _ i.above _ null (Tree.merge less l r) one i.rep, one)
