-- ===== src/SkewHeap/Shape.antt =====
-- What a root pointer of skew_heap.h stands for: the tree of the nodes below it.
use oshub.Prelude.{
  ℕ, ◌+◌, ◌≤◌, ◌<◌, ◌≡◌, ◌≢◌, refl, sym, ◌∙◌, Bool-cases, inl, inr, arith, ◌==◌, ==-ne,
}
use oshub.SkewHeap.{Store, null, set_parent}
use oshub.SkewHeap.Tree.{Tree, leaf, node, count}

-- `p` is the root of the tree, whose node has the parent `q`.
abbrev pub Rep : Store → ℕ → ℕ → Tree → Type 0
Rep s q p leaf = p ≡ null
Rep s q p (node l x r) =
    (p ≡ x) × (x ≢ null) × (s.parent x ≡ q) × Rep s x (s.left x) l × Rep s x (s.right x) r

-- The three pointers of the node are the same in both stores.
pub record Same (s t : Store) (x : ℕ) : Type 0 where
  pub parent : t.parent x ≡ s.parent x
  pub left : t.left x ≡ s.left x
  pub right : t.right x ≡ s.right x

pub frame :
    (s t : Store) (q p : ℕ) (u : Tree)
    → ((x : ℕ) → 0 < count x u → Same s t x)
    → Rep s q p u
    → Rep t q p u
frame s t q p leaf h r = r
frame s t q p (node l x r) h rep =
    let here = h x (ground arith) in
    (
      rep.0,
      rep.1,
      here.parent ∙ rep.2,
      rw here.left (frame s t x (s.left x) l (λ y i. h y (ground arith)) rep.3),
      rw here.right (frame s t x (s.right x) r (λ y i. h y (ground arith)) rep.4),
    )

pub root-count : (s : Store) (q p : ℕ) (u : Tree) → Rep s q p u → p ≢ null → 0 < count p u
root-count s q p leaf rep ne = absurd (ne rep)
root-count s q p (node l x r) rep ne = ground (arith, rep.0)

pub Same-refl : (s : Store) (x : ℕ) → Same s s x
Same-refl s x = record { parent = refl; left = refl; right = refl }

pub Same-trans : {s t u : Store} {x : ℕ} → Same s t x → Same t u x → Same s u x
Same-trans h k = record {
  parent = k.parent ∙ h.parent;
  left = k.left ∙ h.left;
  right = k.right ∙ h.right;
}

pub set_parent-Same : (s : Store) (p a x : ℕ) → (p ≢ null → x ≢ p) → Same s (set_parent p a s) x
unfolding set_parent
set_parent-Same s p a x ne = elim (Bool-cases (p == null)) [
  | inl e ↦ rw e (Same-refl s x)
  | inr e ↦
      let other : x ≢ p = ne (ground arith) in
      rw e (record { parent = ground arith; left = refl; right = refl })
]

parent-set_parent : (s : Store) (p a : ℕ) → p ≢ null → (set_parent p a s).parent p ≡ a
unfolding set_parent
parent-set_parent s p a ne = rw (==-ne ne) (ground arith)

pub left-set_parent : (s : Store) (p a x : ℕ) → (set_parent p a s).left x ≡ s.left x
unfolding set_parent
left-set_parent s p a x = ground arith

pub right-set_parent : (s : Store) (p a x : ℕ) → (set_parent p a s).right x ≡ s.right x
unfolding set_parent
right-set_parent s p a x = ground arith

-- `if (l) l->parent = a` gives the tree of `l` the parent `a`.
pub set_parent-Rep :
    (s : Store) (q p a : ℕ) (u : Tree)
    → ((x : ℕ) → count x u ≤ 1)
    → Rep s q p u
    → Rep (set_parent p a s) a p u
set_parent-Rep s q p a leaf one rep = rep
set_parent-Rep s q p a (node l x r) one rep =
    let t = set_parent p a s in
    let other : (y : ℕ) → 0 < count y l + count y r → y ≢ p =
      λ y i e. ground (arith, one y, rep.0) in
    (
      rep.0,
      rep.1,
      rw (← rep.0) (parent-set_parent s p a (λ e. rep.1 (sym rep.0 ∙ e))),
      rw (left-set_parent s p a x) (
          frame s t x (s.left x) l (λ y i. set_parent-Same s p a y (λ _. other y (ground arith)))
            rep.3),
      rw (right-set_parent s p a x) (
          frame s t x (s.right x) r (λ y i. set_parent-Same s p a y (λ _. other y (ground arith)))
            rep.4),
    )
