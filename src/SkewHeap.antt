-- ===== src/SkewHeap.antt =====
-- lab8/libs/skew_heap.h: skew heaps through `skew_heap_entry` nodes. The store gives the three
-- pointers of every node; a node is named by a number, and 0 is NULL.
pub mod Tree
pub mod Shape
pub mod Merge
pub mod Remove
mod Tests
use oshub.Prelude.{ℕ, zero, suc, Bool, ◌==◌, if◌then◌else◌, update}

-- `struct skew_heap_entry` of every node
pub record Store : Type 0 where
  pub parent : ℕ → ℕ
  pub left : ℕ → ℕ
  pub right : ℕ → ℕ

abbrev pub null : ℕ
null = 0

unfoldable pub init : ℕ → Store → Store
init a s = record {
  parent = update s.parent a null;
  left = update s.left a null;
  right = update s.right a null;
}

-- `if (l) l->parent = a`
unfoldable pub set_parent : ℕ → ℕ → Store → Store
set_parent l a s = if l == null then s else record s { parent = update s.parent l a }

-- The writes of `skew_heap_merge` at the smaller root `a` after its recursive call.
unfoldable pub attach : ℕ → ℕ → ℕ → Store → Store
attach a l r s = set_parent l a (record s { left = update s.left a l; right = update s.right a r })

-- `skew_heap_merge`, where `less a b` is `comp(a, b) == -1`: the new root and the store. The fuel
-- bounds the depth of the recursion.
unfoldable pub merge : (ℕ → ℕ → Bool) → ℕ → ℕ → ℕ → Store → ℕ × Store
merge less zero a b s = (a, s)
merge less (suc f) a b s =
    let under_a = merge less f (s.right a) b s in
    let under_b = merge less f a (s.right b) s in
    if a == null
    then (b, s)
    else if b == null
    then (a, s)
    else if less a b
    then (a, attach a under_a.0 (s.left a) under_a.1)
    else (b, attach b under_b.0 (s.left b) under_b.1)

unfoldable pub insert : (ℕ → ℕ → Bool) → ℕ → ℕ → ℕ → Store → ℕ × Store
unfolding init
insert less f a b s = merge less f a b (init b s)

-- `skew_heap_remove`: `b` leaves the heap with the root `a`.
unfoldable pub remove : (ℕ → ℕ → Bool) → ℕ → ℕ → ℕ → Store → ℕ × Store
unfolding set_parent
remove less f a b s =
    let p = s.parent b in
    let (rep, s1) = merge less f (s.left b) (s.right b) s in
    let s2 = set_parent rep p s1 in
    if p == null then (rep, s2) else (
      a,
      if s2.left p == b
          then record s2 { left = update s2.left p rep }
          else record s2 { right = update s2.right p rep },
    )
