-- ===== src/SkewHeap/Merge.antt =====
-- `skew_heap_merge` of skew_heap.h merges the trees of its two roots.
use oshub.Prelude.{
  ℕ, zero, suc, ◌+◌, ◌≤◌, ◌<◌, ◌≡◌, ◌≢◌, refl, sym, ◌∙◌, ◌⊎◌, inl, inr, Bool, arith, ==-ne, update,
  Bool-cases,
}
use oshub.SkewHeap.{Store, null, set_parent, attach, merge}
use oshub.SkewHeap.Tree
use oshub.SkewHeap.Tree.{Tree, leaf, node, count, size, count-merge}
use oshub.SkewHeap.Shape.{
  Rep, Same, frame, root-count, Same-refl, Same-trans, set_parent-Same, set_parent-Rep,
  left-set_parent, right-set_parent,
}

-- The outcome stands for the tree `u`, whose root has one of two parents, and only nodes of the
-- tree have changed.
pub record Merged (s : Store) (qa qb : ℕ) (u : Tree) (out : ℕ × Store) : Type 0 where
  pub above : ℕ
  pub either : (above ≡ qa) ⊎ (above ≡ qb)
  pub rep : Rep out.1 above out.0 u
  pub same : (x : ℕ) → count x u ≡ 0 → Same s out.1 x

-- The smaller root takes the merged tree as its left child and its old left one as the right.
attach-Rep :
    (s s1 : Store) (q q1 a m : ℕ) (l u : Tree)
    → a ≢ null
    → s.parent a ≡ q
    → Rep s a (s.left a) l
    → Rep s1 q1 m u
    → ((x : ℕ) → count x u ≡ 0 → Same s s1 x)
    → ((x : ℕ) → count x (node u a l) ≤ 1)
    → Rep (attach a m (s.left a) s1) q a (node u a l)
      × ((x : ℕ) → count x (node u a l) ≡ 0 → Same s (attach a m (s.left a) s1) x)
unfolding attach
attach-Rep s s1 q q1 a m l u ne pa rl ru same one = (
  (
    refl,
    ne,
    ap_parent a (ground (arith, one a)) ∙ pa,
    rw (left-set_parent s2 m a a, left_at)
        (set_parent-Rep s2 q1 m a u (λ x. ground (arith, one x))
          (frame s1 s2 q1 m u (λ x i. changed x (ground (arith, one x))) ru)),
    rw (right-set_parent s2 m a a, right_at)
        (frame s t a (s.left a) l
          (λ x i.
            Same-trans (same x (ground (arith, one x)))
              (Same-trans (changed x (ground (arith, one x))) (later x (ground (arith, one x)))))
          rl),
  ),
  λ x none.
      Same-trans (same x (ground arith))
        (Same-trans (changed x (ground arith)) (later x (ground arith))),
)
  where
    s2 : Store
    s2 = record s1 { left = update s1.left a m; right = update s1.right a (s.left a) }

    t : Store
    t = set_parent m a s2

    changed : (x : ℕ) → x ≢ a → Same s1 s2 x
    changed x h = record { parent = refl; left = ground arith; right = ground arith }

    later : (x : ℕ) → count x u ≡ 0 → Same s2 t x
    later x none = set_parent-Same s2 m a x (λ nm e. ground (arith, root-count s1 q1 m u ru nm))

    ap_parent : (x : ℕ) → count x u ≡ 0 → t.parent x ≡ s.parent x
    ap_parent x none = let h = same x none in let k = later x none in k.parent ∙ h.parent

    left_at : s2.left a ≡ m
    left_at = ground arith

    right_at : s2.right a ≡ s.left a
    right_at = ground arith

-- The same, of the outcome of the recursive call.
attached :
    (s : Store) (q qa qb qa' qb' a : ℕ) (l r u : Tree) (out : ℕ × Store)
    → Rep s q a (node l a r)
    → (q ≡ qa) ⊎ (q ≡ qb)
    → ((x : ℕ) → count x (node u a l) ≤ 1)
    → Merged s qa' qb' u out
    → Merged s qa qb (node u a l) (a, attach a out.0 (s.left a) out.1)
attached s q qa qb qa' qb' a l r u out rep e one i =
    let (rep', same') =
      attach-Rep s out.1 q i.above a out.0 l u rep.1 rep.2 rep.3 i.rep i.same one in
    record { above = q; either = e; rep = rep'; same = same' }

module _ (less : ℕ → ℕ → Bool) where
  -- `skew_heap_merge` of two heaps with no node in common, with fuel above the number of their
  -- nodes, gives the root of the merged tree, writes the parent of every node below it, gives the
  -- root the parent of one of the two, and changes no node outside of them.
  pub merge-Merged :
      (f : ℕ) (s : Store) (qa qb a b : ℕ) (u v : Tree)
      → Rep s qa a u
      → Rep s qb b v
      → ((x : ℕ) → count x u + count x v ≤ 1)
      → size u + size v < f
      → Merged s qa qb (Tree.merge less u v) (merge less f a b s)
  unfolding merge Tree.merge
  merge-Merged zero s qa qb a b u v ra rb one fuel = absurd (omega arith)
  merge-Merged (suc f) s qa qb a b leaf v ra rb one fuel =
      rw ra (record { above = qb; either = inr refl; rep = rb; same = λ x h. Same-refl s x })
  merge-Merged (suc f) s qa qb a b (node l x r) leaf ra rb one fuel =
      let na : a ≢ null = λ e. ra.1 (sym ra.0 ∙ e) in
      rw (==-ne na, rb)
        (record { above = qa; either = inl refl; rep = ra; same = λ x h. Same-refl s x })
  merge-Merged (suc f) s qa qb a b (node l x r) (node l' y r') ra rb one fuel =
      let ra' : Rep s qa x (node l x r) = (refl, ra.1, ra.2, ra.3, ra.4) in
      let rb' : Rep s qb y (node l' y r') = (refl, rb.1, rb.2, rb.3, rb.4) in
      rw (ra.0, rb.0, ==-ne ra.1, ==-ne rb.1)
        (elim (Bool-cases (less x y)) [
          | inl e ↦
              rw (e, Tree.merge)
                (attached s qa qa qb x qb x l r (Tree.merge less r (node l' y r')) _ ra' (inl refl)
                  (λ z. ground (arith, one z, count-merge less z r (node l' y r')))
                  (merge-Merged f s x qb (s.right x) y r (node l' y r') ra.4 rb'
                    (λ z. ground (arith, one z)) (omega arith)))
          | inr e ↦
              rw (e, Tree.merge)
                (attached s qb qa qb qa y y l' r' (Tree.merge less (node l x r) r') _ rb' (inr refl)
                  (λ z. ground (arith, one z, count-merge less z (node l x r) r'))
                  (merge-Merged f s qa y x (s.right y) (node l x r) r' ra' rb.4
                    (λ z. ground (arith, one z)) (omega arith)))
        ])
