-- ===== src/Process/Forked.antt =====
-- `do_fork` as a whole, under the round-robin class.
use mathlib.Core.Path.{subst}
use mathlib.Core.Bool.{false≢true}
use oshub.Prelude.{
  ℕ, ◌+◌, ◌*◌, ◌^◌, ◌≤◌, ◌<◌, ◌≡◌, ◌≢◌, inl, inr, refl, sym, ◌∙◌, ap, true, false, ◌==◌, ==-refl,
  ==-ne, leb-false, arith, some, List, [], ◌∷◌, ◌++◌, length, All, ◌∉◌, done, Run, ◌>>=◌, ok,
}
use oshub.Sched.{Sched, null, runnable, uninit}
use oshub.Sched.RoundRobin.{round_robin}
use oshub.Sched.Ready.{Ready}
use oshub.Sched.Wakeup.{awake, wakeup_proc-round_robin}
use oshub.Process.{Procs, max_pid, find_proc}
use oshub.Process.Numbers.{Numbers}
use oshub.Process.Table.{Table, first_with, find_proc_lem}
use oshub.Process.Children.{Children}
use oshub.Process.Birth.{enter_lem}
use oshub.Process.Calls.{Resources, max_process, enter, wake_up}
use oshub.Process.Fork.{
  born, do_fork, started, running, with_kstack, with_mm, with_files, with_proc,
}
use oshub.Process.Born.{
  born-Numbers, born-Table, born-Children, born-parent, born-Ready, born_unique, born-sched,
}

-- The process `p` that `kmalloc` returned is none that the kernel knows: none of the list `xs`, of
-- the children `ks` of the current process, of the queue `ws`, and not `current` or `idleproc`.
pub record Unused (s : Procs) (xs ks ws : List ℕ) (p : ℕ) : Type 0 where
  pub some_proc : p ≢ null
  pub listed : p ∉ xs
  pub child : p ∉ ks
  pub waiting : p ∉ ws
  pub current : p ≢ s.sched.current
  pub idle : p ≢ s.sched.idle

-- The state with the new process `p`, whose number is `n`.
pub record Forked (s s' : Procs) (xs ks ws : List ℕ) (p n : ℕ) : Type 0 where
  pub number : s'.pid p ≡ n
  pub numbers : Numbers s' (p ∷ xs)
  pub table : Table s' (p ∷ xs)
  pub children : Children s' s.sched.current (p ∷ ks)
  pub ready : Ready s'.sched (ws ++ p ∷ [])
  pub runs : (s'.sched.procs p).state ≡ runnable
  pub unique : All (λ x. s.pid x ≢ n) xs
  pub others : (q : ℕ) → q ≢ p → s'.sched.procs q ≡ s.sched.procs q

first_with-head : (pid : ℕ → ℕ) (n p : ℕ) (xs : List ℕ) → pid p ≡ n → first_with pid n (p ∷ xs) ≡ p
first_with-head pid n p xs e = let same : (pid p == n) ≡ true = rw e (==-refl n) in rw same refl

asleep_yet :
    (ws : List ℕ) (p here : ℕ) (t : Sched)
    → (t.procs p).state ≡ uninit
    → t.current ≡ here
    → p ≢ here
    → awake t ws p ≡ ws ++ p ∷ []
asleep_yet ws p here t e c ne =
    let other : (p == t.current) ≡ false = ==-ne (λ h. ne (h ∙ c)) in rw (e, other) refl

module _ {R : Type 0} (res : Resources R) where
  -- A process that does not run yet starts to.
  started-Forked :
      (s s2 : Procs) (r : R) (xs ks ws : List ℕ) (p : ℕ)
      → Unused s xs ks ws p
      → Numbers s2 (p ∷ xs)
      → Table s2 (p ∷ xs)
      → Children s2 s.sched.current (p ∷ ks)
      → Ready s2.sched ws
      → length ws + 1 < 2 ^ 32
      → (s2.sched.procs p).state ≡ uninit
      → s2.sched.current ≡ s.sched.current
      → s2.sched.idle ≡ s.sched.idle
      → ((q : ℕ) → q ≢ p → s2.sched.procs q ≡ s.sched.procs q)
      → All (λ x. s.pid x ≢ s2.pid p) xs
      → (s' : Procs) × (started res round_robin p r (some s2) ≡ ok (s2.pid p) (s', r))
        × Forked s s' xs ks ws p (s2.pid p)
  unfolding wake_up
  started-Forked s s2 r xs ks ws p u v t w ready small asleep here idle procs new =
      elim (wakeup_proc-round_robin s2.sched ws p ready u.some_proc (λ e. u.idle (e ∙ idle))
        u.waiting small) [
          | inl (z, stops) ↦ let z' : false ≡ true = rw asleep at z in absurd (false≢true z')
          | inr (a, e, ready', run, others) ↦ (
            record s2 { sched = a },
            ap (running res round_robin p r)
                (ap (λ (m : Run Sched). m >>= λ t. done (record s2 { sched = t })) e),
            record {
              number = refl;
              numbers = record {
                ring = v.ring;
                distinct = v.distinct;
                counted = v.counted;
                safe = v.safe;
                gap = v.gap;
              };
              table = record { rings = t.rings; range = t.range };
              children = record { row = w.row; parents = w.parents; distinct = w.distinct };
              ready =
                  subst (λ k. Ready a k)
                    (asleep_yet ws p s.sched.current s2.sched asleep here u.current) ready';
              runs = run;
              unique = new;
              others = λ q ne. others q ne ∙ procs q ne;
            },
          )
        ]

  module _ (f flags stack : ℕ) (s : Procs) (xs ks ws : List ℕ) (p : ℕ) (r r1 r2 r3 r4 : R) where
    given :
        s.nr_process < max_process
        → (s.sched.procs s.sched.current).wait_state ≡ 0
        → p ≢ null
        → p ≢ s.sched.current
        → res.kmalloc r ≡ some (p, r1)
        → res.setup_kstack p r1 ≡ (true, r2)
        → res.copy_mm flags p r2 ≡ (true, r3)
        → res.copy_files flags p r3 ≡ (true, r4)
        → do_fork res round_robin f flags stack s r
          ≡ started res round_robin p (res.copy_thread p stack r4) (enter f p (born p s))
    unfolding do_fork
    given lt calm np ne e1 e2 e3 e4 =
        let awake_yet : (((born p s).sched.procs s.sched.current).wait_state == 0) ≡ true =
          rw ((born-sched s p np).3 s.sched.current (λ e. ne (sym e)), calm) refl in
        rw (leb-false lt) (
          ap (with_proc res round_robin f flags stack s r) e1
          ∙ rw awake_yet (
              ap (with_kstack res round_robin f flags stack p (born p s)) e2
              ∙ ap (with_mm res round_robin f flags stack p (born p s)) e3
              ∙ ap (with_files res round_robin f stack p (born p s)) e4))

    -- With a free place in the table of processes and every resource at hand, `do_fork` returns the
    -- number of a new process, which no other process has: `find_proc` finds it by this number, it
    -- is the youngest child of the current process, and it is runnable and waits at the end of the
    -- queue; the list, the hash table and the queue are in order with it, and the scheduler's
    -- fields of the other processes stay.
    pub do_fork_lem :
        Numbers s xs
        → Table s xs
        → Children s s.sched.current ks
        → Ready s.sched ws
        → Unused s xs ks ws p
        → s.nr_process < max_process
        → (s.sched.procs s.sched.current).wait_state ≡ 0
        → length ws + 1 < 2 ^ 32
        → 2 * max_pid * (length xs + 1) ≤ f
        → res.kmalloc r ≡ some (p, r1)
        → res.setup_kstack p r1 ≡ (true, r2)
        → res.copy_mm flags p r2 ≡ (true, r3)
        → res.copy_files flags p r3 ≡ (true, r4)
        → (n : ℕ) × (s' : Procs) × (do_fork res round_robin f flags stack s r
            ≡ ok n (s', res.copy_thread p stack r4))
          × Forked s s' xs ks ws p n
          × (find_proc f n s' ≡ p)
    do_fork_lem v t w ready u lt calm small fuel e1 e2 e3 e4 =
        let b : Procs = born p s in
        let np = u.some_proc in
        let (asleep, here, idle, procs) = born-sched s p np in
        let par = born-parent s p np in
        let family : Children b (b.parent p) ks =
          subst (λ k. Children b k ks) (sym par) (born-Children s p np ks u.child u.current w) in
        let (s2, e, v2, t2, w2, seen, new, pids, sch) =
          enter_lem f b xs ks p (born-Numbers s p np xs u.listed v)
            (born-Table s p np xs u.listed t) family np u.listed u.child (omega (arith, v.counted))
            fuel in
        let (s', r', fork) =
          started-Forked s s2 (res.copy_thread p stack r4) xs ks ws p u v2 t2
            (subst (λ k. Children s2 k (p ∷ ks)) par w2)
            (subst (λ k. Ready k ws) (sym sch) (born-Ready s p np ws u.waiting ready)) small
            (ap (λ (k : Sched). (k.procs p).state) sch ∙ asleep)
            (ap (λ (k : Sched). k.current) sch ∙ here) (ap (λ (k : Sched). k.idle) sch ∙ idle)
            (λ q ne. ap (λ (k : Sched). k.procs q) sch ∙ procs q ne)
            (born_unique s p np (s2.pid p) xs u.listed new) in
        (
          s2.pid p,
          s',
          given lt calm np u.current e1 e2 e3 e4
              ∙ ap (started res round_robin p (res.copy_thread p stack r4)) e
              ∙ r',
          fork,
          find_proc_lem f (s2.pid p) s' (p ∷ xs) fork.table (omega (arith, fuel))
              ∙ first_with-head s'.pid (s2.pid p) p xs fork.number,
        )
