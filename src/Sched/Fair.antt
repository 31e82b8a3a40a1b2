-- ===== src/Sched/Fair.antt =====
-- The run queue of default_sched_stride.c between two turns, and what keeps it.
use mathlib.Core.Path.{subst}
use oshub.Prelude.{
  ℕ, ◌+◌, ◌^◌, ◌≤◌, ◌<◌, ◌≡◌, ◌≢◌, refl, sym, ap, ◌∙◌, inl, inr, true, false, ◌==◌, ==-ne, ==-refl,
  if◌then◌else◌, List, [], ◌∷◌, ◌++◌, arith, eq-cases, Bool-cases, done, update-at, update-other,
}
use oshub.SkewHeap
use oshub.SkewHeap.Tree
use oshub.SkewHeap.Tree.{Tree, leaf, node, count, size, count-merge, size-merge}
use oshub.Sched.{Proc, Sched, null, set_proc, run_next}
use oshub.Sched.Stride.{positive, less, big_stride, strides, entered, enqueue}
use oshub.Sched.Window.{ahead}
use oshub.Sched.Pool.{Pool, enter-Pool}

-- The queue of the run queue, with its members marked as such and no others.
pub record Fair (s : Sched) (u : Tree) (xs : List ℕ) (m : ℕ) : Type 0 where
  pub pool : Pool s.run_link s.pool s.run_pool s.proc_num (strides s) u xs m
  pub queued : (x : ℕ) → (s.procs x).queued ≡ (if count x u == 0 then false else true)
  pub no_idle : count s.idle u ≡ 0

-- `current` has a stride in the window and is a process outside of the queue.
pub record Runs (s : Sched) (u : Tree) (m : ℕ) : Type 0 where
  pub some_process : s.current ≢ null
  pub not_idle : s.current ≢ s.idle
  pub outside : count s.current u ≡ 0
  pub near : ahead m (strides s s.current) ≤ big_stride

-- Writes that keep the stride and the mark of a process.
pub set_proc-Fair :
    (s : Sched) (u : Tree) (xs : List ℕ) (m p : ℕ) (x : Proc)
    → x.stride ≡ (s.procs p).stride
    → x.queued ≡ (s.procs p).queued
    → Fair s u xs m
    → Fair (set_proc p x s) u xs m
set_proc-Fair s u xs m p x e f v = record {
  pool =
      subst (λ g. Pool s.run_link s.pool s.run_pool s.proc_num g u xs m) (λ i y. same y i) v.pool;
  queued = λ y. elim (eq-cases y p) [
    | inl h ↦ rw (h, ==-refl p) (f ∙ v.queued p)
    | inr ne ↦ rw (==-ne ne) (v.queued y)
  ];
  no_idle = v.no_idle;
}
  where
    same : (y : ℕ) → strides s y ≡ strides (set_proc p x s) y
    same y = elim (eq-cases y p) [
      | inl h ↦ rw h (sym (ap (λ y. y.stride) (update-at s.procs p x) ∙ e))
      | inr ne ↦ sym (ap (λ y. y.stride) (update-other s.procs p x y ne))
    ]

pub run_next-Fair :
    (s : Sched) (u : Tree) (xs : List ℕ) (m p : ℕ) → Fair s u xs m → Fair (run_next p s) u xs m
unfolding run_next
run_next-Fair s u xs m p v = elim (Bool-cases (p == s.current)) [
  | inl e ↦ rw e (set_proc-Fair s u xs m p _ refl refl v)
  | inr e ↦
      let w =
        set_proc-Fair s u xs m p (record (s.procs p) { runs = (s.procs p).runs + 1 }) refl refl v in
      rw e (record { pool = w.pool; queued = w.queued; no_idle = w.no_idle })
]

-- The fields of the state that `run_next` leaves.
pub record Ran (s s' : Sched) (p : ℕ) : Type 0 where
  pub current : s'.current ≡ p
  pub idle : s'.idle ≡ s.idle
  pub stride : (x : ℕ) → strides s' x ≡ strides s x
  pub states : (x : ℕ) → (s'.procs x).state ≡ (s.procs x).state
  pub runs : (s'.procs p).runs ≡ (s.procs p).runs + 1

pub run_next-Ran : (s : Sched) (p : ℕ) → Ran s (run_next p s) p
unfolding run_next
run_next-Ran s p = elim (Bool-cases (p == s.current)) [
  | inl e ↦ rw e (record {
    current = ground arith;
    idle = refl;
    stride = λ x. ground arith;
    states = λ x. ground arith;
    runs = ground arith;
  })
  | inr e ↦ rw e (record {
    current = refl;
    idle = refl;
    stride = λ x. ground arith;
    states = λ x. ground arith;
    runs = ground arith;
  })
]

-- What `enqueue` keeps.
pub record Entered (s s' : Sched) : Type 0 where
  pub stride : (x : ℕ) → strides s' x ≡ strides s x
  pub states : (x : ℕ) → (s'.procs x).state ≡ (s.procs x).state
  pub share : (x : ℕ) → positive (s'.procs x).priority ≡ positive (s.procs x).priority
  pub idle : s'.idle ≡ s.idle

pub enter-Fair :
    (s : Sched) (u : Tree) (xs : List ℕ) (m p : ℕ)
    → Fair s u xs m
    → p ≢ null
    → p ≢ s.idle
    → count p u ≡ 0
    → ahead m (strides s p) ≤ big_stride
    → size u + 1 < 2 ^ 32
    → (s' : Sched) × (enqueue p s ≡ done s')
      × Fair s' (Tree.merge (less (strides s)) u (node leaf p leaf)) (xs ++ p ∷ []) m
      × Entered s s'
unfolding enqueue
enter-Fair s u xs m p v nn ni new near small = (
  t,
  rw (v.queued p, new) refl,
  record {
    pool =
        subst (λ f. Pool t.run_link t.pool t.run_pool t.proc_num f w (xs ++ p ∷ []) m)
          (λ i x. same x i) (enter-Pool u xs m p v.pool nn new near small);
    queued = λ x. elim (eq-cases x p) [
      | inl e ↦ rw (e, ==-refl p, ==-ne (some_here e)) refl
      | inr ne ↦ rw (==-ne ne, here x ne) (v.queued x)
    ];
    no_idle = ground (arith, count-merge (less (strides s)) s.idle u (node leaf p leaf), v.no_idle);
  },
  record { stride = λ x. sym (same x); states = λ x. ground arith; share = share; idle = refl },
)
  where
    t : Sched
    t = entered p (SkewHeap.insert (less (strides s)) (s.proc_num + 2) s.run_pool p s.pool) s

    w : Tree
    w = Tree.merge (less (strides s)) u (node leaf p leaf)

    same : (x : ℕ) → strides s x ≡ strides t x
    same x = ground arith

    some_here : {x : ℕ} → x ≡ p → count p w ≢ 0
    some_here e z = ground (arith, count-merge (less (strides s)) p u (node leaf p leaf))

    here : (x : ℕ) → x ≢ p → count x w ≡ count x u
    here x ne = ground (arith, count-merge (less (strides s)) x u (node leaf p leaf))

    twice : (k : ℕ) → positive (positive k) ≡ positive k
    twice k = ground arith

    share : (x : ℕ) → positive (t.procs x).priority ≡ positive (s.procs x).priority
    share x = elim (eq-cases x p) [
      | inl e ↦ rw e (
          ap (λ (y : Proc). positive y.priority) (update-at s.procs p _)
          ∙ twice (s.procs p).priority)
      | inr ne ↦ ap (λ (y : Proc). positive y.priority) (update-other s.procs p _ x ne)
    ]
