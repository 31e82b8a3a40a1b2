-- ===== src/Sched/Fairness.antt =====
-- What the stride class of default_sched_stride.c makes of `schedule` in sched.c: the process with
-- the least stride runs, and no process falls behind by more than `big_stride`.
use mathlib.Core.Path.{subst}
use native.Mathlib.Nat.{div-le_self}
use oshub.Prelude.{
  ℕ, ◌+◌, ◌/◌, ◌%◌, ◌^◌, ◌≤◌, ◌<◌, ◌≡◌, ◌≢◌, refl, sym, ap, ◌∙◌, inl, inr, true, false, ltb-true,
  ◌==◌, ==-ne, if◌then◌else◌, List, [], ◌∷◌, ◌++◌, arith, eq-cases, done, some, update-at,
  update-other,
}
use oshub.SkewHeap
use oshub.SkewHeap.Tree
use oshub.SkewHeap.Tree.{Tree, leaf, node, count, size, count-merge, size-merge}
use oshub.Sched.{
  Proc, Sched, set_proc, schedule, switch, switch_to, class_enqueue, run_next, is_runnable,
}
use oshub.Sched.Stride.{
  less, big_stride, strides, positive, passed, withdrawn, dequeue, pick_next, stride_class,
}
use oshub.Sched.Window.{ahead, ahead-pass}
use oshub.Sched.Pool.{Pool, AtLeast-member, leave-Pool}
use oshub.Sched.Fair.{Fair, Runs, set_proc-Fair, run_next-Fair, run_next-Ran, enter-Fair}

-- What the switch to `next` leaves: `next` had the least stride of the tree `w`, and the others
-- wait on in `u`.
pub record Picked (s s' : Sched) (w u : Tree) (m : ℕ) : Type 0 where
  pub least : (x : ℕ) → 0 < count x w → ahead m (strides s s'.current) ≤ ahead m (strides s x)
  pub left : (x : ℕ) → count x u + (if x == s'.current then 1 else 0) ≡ count x w
  pub states : (x : ℕ) → (s'.procs x).state ≡ (s.procs x).state
  pub runs : (s'.procs s'.current).runs ≡ (s.procs s'.current).runs + 1
  pub advance :
      strides s' s'.current
      ≡ (strides s s'.current + big_stride / positive (s.procs s'.current).priority) % 2 ^ 32
  pub others : (x : ℕ) → x ≢ s'.current → strides s' x ≡ strides s x
  pub idle : s'.idle ≡ s.idle

switch-Fair :
    (s : Sched) (a : Tree) (p : ℕ) (b : Tree) (xs : List ℕ) (m : ℕ)
    → Fair s (node a p b) xs m
    → (s' : Sched) × (u : Tree) × (ys : List ℕ) × (switch stride_class s ≡ done s')
      × Fair s' u ys (strides s s'.current)
      × Runs s' u (strides s s'.current)
      × Picked s s' (node a p b) u m
switch-Fair s a p b xs m v =
    let (ys, pool) = leave-Pool a p b xs m (strides s1) v.pool other words in
    let ran = run_next-Ran s2 p in
    (
      run_next p s2,
      u,
      ys,
      switched,
      subst (λ q. Fair (run_next p s2) u ys (strides s q)) (sym ran.current)
          (run_next-Fair s2 u ys (strides s p) p (record {
            pool =
                subst (λ g. Pool s2.run_link s2.pool s2.run_pool s2.proc_num g u ys (strides s p))
                  (λ i x. kept x i) pool;
            queued = λ x. elim (eq-cases x p) [
              | inl e ↦ rw (e, gone) (ap (λ y. y.queued) (update-at s1.procs p _))
              | inr ne ↦ rw (here x ne) (unmarked x ne ∙ v.queued x)
            ];
            no_idle = rw (here s.idle idle_ne) v.no_idle;
          })),
      subst (λ q. Runs (run_next p s2) u (strides s q)) (sym ran.current)
          (record {
            some_process = rw ran.current v.pool.top.0.1;
            not_idle = rw (ran.current, ran.idle) (λ e. idle_ne (sym e));
            outside = rw ran.current gone;
            near =
                rw
                  (
                    ran.current,
                    ran.stride p,
                    ← kept p,
                    pass,
                    ahead-pass (strides s p) _ (v.pool.words p) small,
                  )
                  small;
          }),
      record {
        least = λ x i. rw ran.current (least x i);
        left = λ x. rw ran.current (left x);
        states = λ x. ran.states x ∙ plain (λ y. y.state) refl refl x;
        runs = rw ran.current (ran.runs ∙ ap (λ n. n + 1) (plain (λ y. y.runs) refl refl p));
        advance = rw ran.current (ran.stride p ∙ sym (kept p) ∙ pass);
        others = λ x ne. ran.stride x ∙ sym (kept x) ∙ other x (λ e. ne (e ∙ sym ran.current));
        idle = ran.idle;
      },
    )
  where
    s1 : Sched
    s1 = set_proc p (passed (s.procs p)) s

    s2 : Sched
    s2 = withdrawn p (SkewHeap.remove (less (strides s1)) (s1.proc_num + 2) p p s1.pool) s1

    u : Tree
    u = Tree.merge (less (strides s1)) a b

    other : (x : ℕ) → x ≢ p → strides s1 x ≡ strides s x
    other x ne = ap (λ y. y.stride) (update-other s.procs p _ x ne)

    pass : strides s1 p ≡ (strides s p + big_stride / positive (s.procs p).priority) % 2 ^ 32
    pass = ap (λ y. y.stride) (update-at s.procs p _)

    words : (x : ℕ) → strides s1 x < 2 ^ 32
    words x = elim (eq-cases x p) [
      | inl e ↦ rw (e, pass) (omega arith)
      | inr ne ↦ rw (other x ne) (v.pool.words x)
    ]

    kept : (x : ℕ) → strides s1 x ≡ strides s2 x
    kept x = elim (eq-cases x p) [
      | inl e ↦ rw e (sym (ap (λ y. y.stride) (update-at s1.procs p _)))
      | inr ne ↦ sym (ap (λ y. y.stride) (update-other s1.procs p _ x ne))
    ]

    unmarked : (x : ℕ) → x ≢ p → (s2.procs x).queued ≡ (s.procs x).queued
    unmarked x ne =
        ap (λ y. y.queued) (update-other s1.procs p _ x ne ∙ update-other s.procs p _ x ne)

    plain :
        {A : Type 0} (f : Proc → A)
        → f (passed (s.procs p)) ≡ f (s.procs p)
        → f (record (s1.procs p) { queued = false }) ≡ f (s1.procs p)
        → (x : ℕ) → f (s2.procs x) ≡ f (s.procs x)
    plain f e g x = elim (eq-cases x p) [
      | inl h ↦ rw h (ap f (update-at s1.procs p _) ∙ g ∙ ap f (update-at s.procs p _) ∙ e)
      | inr ne ↦ ap f (update-other s1.procs p _ x ne ∙ update-other s.procs p _ x ne)
    ]

    left : (x : ℕ) → count x u + (if x == p then 1 else 0) ≡ count x (node a p b)
    left x = ground (arith, count-merge (less (strides s1)) x a b)

    gone : count p u ≡ 0
    gone = ground (arith, count-merge (less (strides s1)) p a b, v.pool.top.1 p)

    here : (x : ℕ) → x ≢ p → count x u ≡ count x (node a p b)
    here x ne = ground (arith, count-merge (less (strides s1)) x a b)

    idle_ne : s.idle ≢ p
    idle_ne e = ground (arith, v.no_idle)

    small : big_stride / positive (s.procs p).priority ≤ big_stride
    small = div-le_self big_stride (positive (s.procs p).priority)

    least : (x : ℕ) → 0 < count x (node a p b) → ahead m (strides s p) ≤ ahead m (strides s x)
    least x i =
        AtLeast-member (λ q. ahead m (strides s q)) (ahead m (strides s p)) (node a p b) x
          (omega arith, v.pool.ordered.0, v.pool.ordered.1) i

    picks : pick_next s ≡ (some p, s1)
    picks = unfold pick_next in rw (v.pool.top.0.0, ==-ne v.pool.top.0.1) refl

    queued : (s1.procs p).queued ≡ true
    queued = ap (λ y. y.queued) (update-at s.procs p _) ∙ v.queued p ∙ ground arith

    many : 0 < s.proc_num
    many = omega (arith, v.pool.counted)

    leaves : dequeue p s1 ≡ done s2
    leaves = unfold dequeue in rw (v.pool.top.0.0, queued, ltb-true many) refl

    switched : switch stride_class s ≡ done (run_next p s2)
    switched = unfold switch switch_to in rw (picks, leaves) refl

switch_some :
    (s : Sched) (w : Tree) (xs : List ℕ) (m : ℕ)
    → Fair s w xs m
    → 0 < size w
    → (s' : Sched) × (u : Tree) × (ys : List ℕ) × (switch stride_class s ≡ done s')
      × Fair s' u ys (strides s s'.current)
      × Runs s' u (strides s s'.current)
      × Picked s s' w u m
switch_some s leaf xs m v filled = absurd (omega arith)
switch_some s (node a p b) xs m v filled = switch-Fair s a p b xs m v

-- The stride of a process after a turn.
abbrev pub pass : Sched → ℕ → ℕ
pass s p = (strides s p + big_stride / positive (s.procs p).priority) % 2 ^ 32

-- The stride scheduler is fair on the circle of 32-bit strides. `current`, which can run, goes back
-- into the queue, and the process with the least stride of all runs, `base` being at or behind all
-- strides and none more than `big_stride` from it. The new state is as the old one, with the base
-- moved up to the stride the process had: no two strides are ever further apart than `big_stride`.
-- The process has then passed `big_stride` divided by its priority, and no other stride changes.
pub schedule_stride :
    (s : Sched) (u : Tree) (xs : List ℕ) (base : ℕ)
    → Fair s u xs base
    → Runs s u base
    → is_runnable (s.procs s.current).state ≡ true
    → size u + 1 < 2 ^ 32
    → (s' : Sched) × (u' : Tree) × (ys : List ℕ) × (schedule stride_class s ≡ done s')
      × Fair s' u' ys (strides s s'.current)
      × Runs s' u' (strides s s'.current)
      × ((x : ℕ)
          → 0 < count x (node u s.current leaf)
          → ahead base (strides s s'.current) ≤ ahead base (strides s x))
      × ((x : ℕ) → count x (node u' s'.current leaf) ≡ count x (node u s.current leaf))
      × ((x : ℕ) → (s'.procs x).state ≡ (s.procs x).state)
      × (strides s' s'.current ≡ pass s s'.current)
      × ((x : ℕ) → x ≢ s'.current → strides s' x ≡ strides s x)
unfolding schedule class_enqueue
schedule_stride s u xs base v r run small =
    let v1 =
      set_proc-Fair s u xs base s.current (record (s.procs s.current) { need_resched = false }) refl
        refl v in
    let (s2, put, v2, e) =
      enter-Fair s1 u xs base s.current v1 r.some_process r.not_idle r.outside near small in
    let (s', u', ys, go, v', r', k) =
      switch_some s2 w (xs ++ s.current ∷ []) base v2
        (omega (arith, size-merge (less (strides s1)) u one)) in
    let same : (x : ℕ) → strides s2 x ≡ strides s x = λ x. e.stride x ∙ settled x in
    let paid : (x : ℕ) → pass s2 x ≡ pass s x = λ x. rw (same x, e.share x ∙ share x) refl in
    (
      s',
      u',
      ys,
      rw (run, ==-ne r.not_idle, put, go) refl,
      subst (λ g. Fair s' u' ys g) (same s'.current) v',
      subst (λ g. Runs s' u' g) (same s'.current) r',
      λ x i.
          subst (λ g. ahead base (strides s s'.current) ≤ ahead base g) (same x)
            (subst (λ g. ahead base g ≤ ahead base (strides s2 x)) (same s'.current)
              (k.least x (rw (count-merge (less (strides s1)) x u one) (ground arith)))),
      λ x. ground (arith, k.left x, count-merge (less (strides s1)) x u one),
      λ x. k.states x ∙ e.states x ∙ ground arith,
      k.advance ∙ paid s'.current,
      λ x ne. k.others x ne ∙ same x,
    )
  where
    s1 : Sched
    s1 = set_proc s.current (record (s.procs s.current) { need_resched = false }) s

    one : Tree
    one = node leaf s.current leaf

    w : Tree
    w = Tree.merge (less (strides s1)) u one

    share : (x : ℕ) → positive (s1.procs x).priority ≡ positive (s.procs x).priority
    share x = ground arith

    settled : (x : ℕ) → strides s1 x ≡ strides s x
    settled x = elim (eq-cases x s.current) [
      | inl h ↦ rw h (ap (λ y. y.stride) (update-at s.procs s.current _))
      | inr ne ↦ ap (λ y. y.stride) (update-other s.procs s.current _ x ne)
    ]

    near : ahead base (strides s1 s.current) ≤ big_stride
    near = rw (settled s.current) r.near
