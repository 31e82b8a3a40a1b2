-- ===== src/Process/Born.antt =====
-- The state of `do_fork` with its new process, before that enters the list: the others are as before.
use mathlib.Core.Path.{subst}
use oshub.Prelude.{
  ℕ, ◌-◌, ◌^◌, ◌≤◌, ◌<◌, ◌≡◌, ◌≢◌, inl, inr, refl, sym, ◌∙◌, ap, true, ==-ne, update, update-at,
  update-other, arith, List, [], ◌∷◌, All, ◌∉◌, Distinct, eq-cases,
}
use oshub.Links
use oshub.Links.Chain.{keep_one}
use oshub.Links.Ring.{init_other-Ring}
use oshub.Sched.{Proc, null, uninit}
use oshub.Sched.Ready.{Ready, keep_proc}
use oshub.Process.{Procs}
use oshub.Process.Numbers.{Numbers}
use oshub.Process.Table.{Table}
use oshub.Process.Family.{Row, Row-frame}
use oshub.Process.Children.{Children}
use oshub.Process.Birth.{All-update, map-update, renumbered-Table}
use oshub.Process.HandOver.{update-All}
use oshub.Process.Calls.{alloc_proc}
use oshub.Process.Fork.{born}

module _ (s : Procs) (p : ℕ) (np : p ≢ null) where
  pub born-Numbers : (xs : List ℕ) → p ∉ xs → Numbers s xs → Numbers (born p s) xs
  unfolding alloc_proc
  born-Numbers xs out v = record {
    ring = v.ring;
    distinct = subst Distinct (sym (map-update s.pid p (2 ^ 32 - 1) xs out)) v.distinct;
    counted = v.counted;
    safe = v.safe;
    gap = All-update (λ k. s.last_pid < k → s.next_safe ≤ k) s.pid p (2 ^ 32 - 1) xs out v.gap;
  }

  pub born-Table : (xs : List ℕ) → p ∉ xs → Table s xs → Table (born p s) xs
  unfolding alloc_proc
  born-Table xs out t =
      let w = renumbered-Table s xs p (2 ^ 32 - 1) out t in
      record { rings = w.rings; range = w.range }

  pub born-Children :
      (ks : List ℕ)
      → p ∉ ks
      → p ≢ s.sched.current
      → Children s s.sched.current ks
      → Children (born p s) s.sched.current ks
  unfolding alloc_proc
  born-Children ks out nc w = record {
    row =
        subst (λ k. Row (update s.yptr p null) (update s.optr p null) null k ks)
          (sym (update-other s.cptr p null s.sched.current (λ e. nc (sym e))))
          (Row-frame s.yptr s.optr (update s.yptr p null) (update s.optr p null) null
            (s.cptr s.sched.current) ks (keep_one s.yptr p null ks out)
            (keep_one s.optr p null ks out) w.row);
    parents =
        update-All (update s.parent p null) p s.sched.current s.sched.current ks out
          (update-All s.parent p null s.sched.current ks out w.parents);
    distinct = w.distinct;
  }

  pub born-parent : (born p s).parent p ≡ s.sched.current
  unfolding alloc_proc
  born-parent = update-at (update s.parent p null) p s.sched.current

  init-lone :
      (q : ℕ)
      → Links.is_empty q s.sched.run_link ≡ true
      → Links.is_empty q (Links.init p s.sched.run_link) ≡ true
  unfolding Links.is_empty Links.init
  init-lone q e = elim (eq-cases q p) [ inl h ↦ rw h (ground arith) | inr h ↦ rw (==-ne h) e ]

  pub born-Ready : (ws : List ℕ) → p ∉ ws → Ready s.sched ws → Ready (born p s).sched ws
  unfolding alloc_proc
  born-Ready ws out v = record {
    ring = (init_other-Ring ws p v.ring (np, out)).0;
    lone = λ q nq oq. init-lone q (v.lone q nq oq);
    queued = keep_proc (λ x. x.queued ≡ true) s.sched.procs p _ ws out v.queued;
    slices =
        keep_proc (λ x. (0 < x.time_slice) × (x.time_slice ≤ s.sched.max_time_slice)) s.sched.procs
          p _ ws out v.slices;
    counted = v.counted;
    small = v.small;
    positive = v.positive;
    no_idle = v.no_idle;
  }

  pub born_unique :
      (n : ℕ) (xs : List ℕ)
      → p ∉ xs
      → All (λ x. (born p s).pid x ≢ n) xs
      → All (λ x. s.pid x ≢ n) xs
  unfolding alloc_proc
  born_unique n [] out all = tt
  born_unique n (x ∷ xs) out all = (
    λ e. all.0 (update-other s.pid p (2 ^ 32 - 1) x (λ h. out.0 (sym h)) ∙ e),
    born_unique n xs out.1 all.1,
  )

  pub born-sched :
      (((born p s).sched.procs p).state ≡ uninit)
      × ((born p s).sched.current ≡ s.sched.current)
      × ((born p s).sched.idle ≡ s.sched.idle)
      × ((q : ℕ) → q ≢ p → (born p s).sched.procs q ≡ s.sched.procs q)
  unfolding alloc_proc
  born-sched = (
    ap (λ (x : Proc). x.state) (update-at s.sched.procs p _),
    refl,
    refl,
    λ q ne. update-other s.sched.procs p _ q ne,
  )
