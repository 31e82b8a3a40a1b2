-- ===== src/Sched/Pool.antt =====
-- The queue of default_sched_stride.c: a heap of processes with the same members as the list.
use mathlib.Core.Path.{subst}
use oshub.Prelude.{
  ℕ, ◌+◌, ◌-◌, ◌%◌, ◌^◌, ◌≤◌, ◌<◌, ◌≡◌, ◌≢◌, sym, ap, ◌∙◌, inl, inr, ◌==◌, if◌then◌else◌, List, [],
  ◌∷◌, ◌++◌, ◌∉◌, arith, eq-cases, lt-cases,
}
use mathlib.Core.List.{append-nil}
use oshub.Links
use oshub.Links.{Links}
use oshub.Links.Ring.{Ring, add_before-Ring, del_init-Ring}
use oshub.SkewHeap
use oshub.SkewHeap.{Store, null}
use oshub.SkewHeap.Tree
use oshub.SkewHeap.Tree.{
  Tree, leaf, node, count, size, count-merge, size-merge, AtLeast, IsHeap, IsHeap-merge,
}
use oshub.SkewHeap.Remove.{Top, insert-Top, remove-Top}
use oshub.Sched.{run_list}
use oshub.Sched.Stride.{less, big_stride}
use oshub.Sched.Window.{ahead, less-ahead, ahead-move, IsHeap-shift}

abbrev pub occurs : ℕ → List ℕ → ℕ
occurs x [] = 0
occurs x (y ∷ ys) = (if x == y then 1 else 0) + occurs x ys

occurs-append : (x : ℕ) (xs ys : List ℕ) → occurs x (xs ++ ys) ≡ occurs x xs + occurs x ys
occurs-append x [] ys = omega arith
occurs-append x (y ∷ xs) ys = omega (arith, occurs-append x xs ys)

occurs-split :
    (x : ℕ) (xs : List ℕ) → 0 < occurs x xs → (ys : List ℕ) × (zs : List ℕ) × (xs ≡ ys ++ x ∷ zs)
occurs-split x [] h = absurd (omega arith)
occurs-split x (y ∷ xs) h = elim (eq-cases x y) [
  | inl e ↦ ([], xs, ap (λ a. a ∷ xs) (sym e))
  | inr ne ↦
      let (ys, zs, e) = occurs-split x xs (ground (arith, h)) in (y ∷ ys, zs, ap (λ l. y ∷ l) e)
]

not-occurs : (x : ℕ) (xs : List ℕ) → occurs x xs ≡ 0 → x ∉ xs
not-occurs x [] h = tt
not-occurs x (y ∷ xs) h = (λ e. ground arith, not-occurs x xs (ground arith))

pub AtLeast-member :
    (key : ℕ → ℕ) (m : ℕ) (t : Tree) (x : ℕ) → AtLeast key m t → 0 < count x t → m ≤ key x
AtLeast-member key m (node a y b) x h i = elim (eq-cases x y) [
  | inl e ↦ rw e h.0
  | inr ne ↦ elim (lt-cases 0 (count x a)) [
    | inl j ↦ AtLeast-member key m a x h.1 j
    | inr j ↦ AtLeast-member key m b x h.2 (ground arith)
  ]
]
AtLeast-member key m leaf x h i = absurd (omega arith)

-- The heap `u` and the list hold the same processes; the strides of all of them lie within
-- `big_stride` from the base `m`, and the heap is ordered by the distance from there.
pub record Pool (l : Links) (pool : Store) (root n : ℕ) (stride : ℕ → ℕ) (u : Tree) (xs : List ℕ)
    (m : ℕ) : Type 0 where
  pub top : Top pool root u
  pub ordered : IsHeap (λ p. ahead m (stride p)) u
  pub window : (x : ℕ) → 0 < count x u → ahead m (stride x) ≤ big_stride
  pub words : (x : ℕ) → stride x < 2 ^ 32
  pub base : m < 2 ^ 32
  pub ring : Ring l run_list xs
  pub members : (x : ℕ) → count x u ≡ occurs x xs
  pub counted : n ≡ size u
  pub small : size u < 2 ^ 32

module _ {l : Links} {pool : Store} {root n : ℕ} {stride : ℕ → ℕ} where
  -- A process of the window that is not in the queue comes in.
  pub enter-Pool :
      (u : Tree) (xs : List ℕ) (m p : ℕ)
      → Pool l pool root n stride u xs m
      → p ≢ null
      → count p u ≡ 0
      → ahead m (stride p) ≤ big_stride
      → size u + 1 < 2 ^ 32
      → let heap = SkewHeap.insert (less stride) (n + 2) root p pool in
        Pool
          (Links.add_before run_list p l)
          heap.1
          heap.0
          ((n + 1) % 2 ^ 32)
          stride
          (Tree.merge (less stride) u (node leaf p leaf))
          (xs ++ p ∷ [])
          m
  enter-Pool u xs m p v nn new near small = record {
    top = insert-Top (less stride) (n + 2) pool root p u v.top nn new (omega (arith, v.counted));
    ordered =
        IsHeap-merge (λ q. ahead m (stride q)) (less stride) u (node leaf p leaf)
          (λ x y i j.
            less-ahead stride m x y v.base (v.words x) (v.words y) (v.window x i) (only y j near))
          v.ordered (tt, tt, tt, tt);
    window = λ x i. elim (eq-cases x p) [
      | inl e ↦ rw e near
      | inr ne ↦ v.window x (ground (arith, count-merge (less stride) x u (node leaf p leaf)))
    ];
    words = v.words;
    base = v.base;
    ring =
        add_before-Ring xs [] p (subst (λ k. Ring l run_list k) (sym (append-nil xs)) v.ring) (
          nn,
          subst (λ k. p ∉ k) (sym (append-nil xs)) (not-occurs p xs (sym (v.members p) ∙ new)),
        );
    members = λ x. ground (
      arith,
      count-merge (less stride) x u (node leaf p leaf),
      occurs-append x xs (p ∷ []),
      v.members x,
    );
    counted = omega (arith, size-merge (less stride) u (node leaf p leaf), v.counted);
    small = omega (arith, size-merge (less stride) u (node leaf p leaf));
  }
    where
      only :
          (y : ℕ)
          → 0 < count y (node leaf p leaf)
          → ahead m (stride p) ≤ big_stride
          → ahead m (stride y) ≤ big_stride
      only y j near = elim (eq-cases y p) [ inl e ↦ rw e near | inr ne ↦ absurd (ground arith) ]

  -- The root goes out, with any new stride; the base moves up to the one it had.
  pub leave-Pool :
      (a : Tree) (p : ℕ) (b : Tree) (xs : List ℕ) (m : ℕ) (stride' : ℕ → ℕ)
      → Pool l pool root n stride (node a p b) xs m
      → ((x : ℕ) → x ≢ p → stride' x ≡ stride x)
      → ((x : ℕ) → stride' x < 2 ^ 32)
      → let heap = SkewHeap.remove (less stride') (n + 2) p p pool in
        (ys : List ℕ) × Pool
          (Links.del_init p l)
          heap.1
          heap.0
          (n - 1)
          stride'
          (Tree.merge (less stride') a b)
          ys
          (stride p)
  leave-Pool a p b xs m stride' v same words =
      let (ys, zs, split) = occurs-split p xs (ground (arith, v.members p)) in
      (
        ys ++ zs,
        record {
          top =
              remove-Top (less stride') (n + 2) pool p a b
                (subst (λ q. Top pool q (node a p b)) v.top.0.0 v.top) (omega (arith, v.counted));
          ordered =
              IsHeap-merge (λ q. ahead (stride p) (stride' q)) (less stride') a b
                (λ x y i j.
                  less-ahead stride' (stride p) x y (v.words p) (words x) (words y)
                    (near x (omega arith)) (near y (omega arith)))
                (IsHeap-shift (λ q. ahead m (stride q)) _ (ahead m (stride p)) a
                  (λ x i. moved x (omega arith)) v.ordered.2)
                (IsHeap-shift (λ q. ahead m (stride q)) _ (ahead m (stride p)) b
                  (λ x i. moved x (omega arith)) v.ordered.3);
          window = λ x i. near x (omega (arith, count-merge (less stride') x a b));
          words = words;
          base = v.words p;
          ring = (del_init-Ring ys zs p (subst (λ k. Ring l run_list k) split v.ring)).0;
          members = λ x. count-merge (less stride') x a b ∙ remain x ys zs split;
          counted = omega (arith, size-merge (less stride') a b, v.counted);
          small = omega (arith, size-merge (less stride') a b, v.small);
        },
      )
    where
      apart : (x : ℕ) → 0 < count x a + count x b → x ≢ p
      apart x i e = ground (arith, v.top.1 p)

      inside : (x : ℕ) → 0 < count x a + count x b → 0 < count x (node a p b)
      inside x i = ground arith

      least : (x : ℕ) → 0 < count x a + count x b → ahead m (stride p) ≤ ahead m (stride x)
      least x i = elim (lt-cases 0 (count x a)) [
        | inl j ↦ AtLeast-member (λ q. ahead m (stride q)) (ahead m (stride p)) a x v.ordered.0 j
        | inr j ↦
            AtLeast-member (λ q. ahead m (stride q)) (ahead m (stride p)) b x v.ordered.1
              (omega arith)
      ]

      moved :
          (x : ℕ)
          → 0 < count x a + count x b
          → ahead (stride p) (stride' x) + ahead m (stride p) ≡ ahead m (stride x)
      moved x i = rw (same x (apart x i)) (
          ahead-move m (stride p) (stride x) v.base (v.words p) (v.words x) (least x i)
            (v.window x (inside x i)))

      near : (x : ℕ) → 0 < count x a + count x b → ahead (stride p) (stride' x) ≤ big_stride
      near x i = let e = moved x i in let w = v.window x (inside x i) in omega (arith, e, w)

      remain :
          (x : ℕ) (ys zs : List ℕ) → xs ≡ ys ++ p ∷ zs → count x a + count x b ≡ occurs x (ys ++ zs)
      remain x ys zs e =
          let listed : occurs x xs ≡ occurs x (ys ++ p ∷ zs) = ap (occurs x) e in
          omega (arith, v.members x, listed, occurs-append x ys (p ∷ zs), occurs-append x ys zs)
