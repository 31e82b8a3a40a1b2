-- ===== src/Sched/Ready.antt =====
-- The run queue of default_sched.c as a list of processes, and what each of its operations does to it.
use mathlib.Core.Path.{subst}
use mathlib.Core.List.{append-nil}
use oshub.Prelude.{
  ℕ, ◌+◌, ◌^◌, ◌≤◌, ◌<◌, ◌≡◌, ◌≢◌, sym, ◌∙◌, true, ◌==◌, ==-ne, if◌then◌else◌, done, none, some,
  List, [], ◌∷◌, ◌++◌, length, length-append, head_or, All, All-append, ◌∉◌, update, arith,
  Bool-cases, inl, inr, eq-cases, is_nil,
}
use oshub.Links
use oshub.Links.{Links}
use oshub.Links.Ring.{
  Ring, add_before-Ring, del_init-Ring, is_empty-add_before, is_empty-del_init, is_empty-member,
}
use oshub.Sched.{Proc, Sched, run_list, null, set_proc, run_next}
use oshub.Sched.RoundRobin.{enqueue, dequeue, entered, withdrawn, pick_next}

-- The processes `xs` wait in the queue, in this order, each with a slice to run.
pub record Ready (s : Sched) (xs : List ℕ) : Type 0 where
  pub ring : Ring s.run_link run_list xs
  pub lone : (p : ℕ) → p ≢ null → p ∉ xs → Links.is_empty p s.run_link ≡ true
  pub queued : All (λ p. (s.procs p).queued ≡ true) xs
  pub slices :
      All (λ p. (0 < (s.procs p).time_slice) × ((s.procs p).time_slice ≤ s.max_time_slice)) xs
  pub counted : s.proc_num ≡ length xs
  pub small : length xs < 2 ^ 32
  pub positive : 0 < s.max_time_slice
  pub no_idle : s.idle ∉ xs

pub keep_proc {ℓ} :
    (P : Proc → Type ℓ) (f : ℕ → Proc) (p : ℕ) (x : Proc) (xs : List ℕ)
    → p ∉ xs
    → All (λ q. P (f q)) xs
    → All (λ q. P (update f p x q)) xs
keep_proc P f p x [] out h = tt
keep_proc P f p x (q ∷ xs) out h =
    (rw (==-ne (λ e. out.0 (sym e))) h.0, keep_proc P f p x xs out.1 h.1)

∉-append : (a : ℕ) (xs ys : List ℕ) → a ∉ xs → a ∉ ys → a ∉ (xs ++ ys)
∉-append a xs ys h k = All-append _ xs ys h k

not-mem-snoc : (a p : ℕ) (xs : List ℕ) → a ∉ (xs ++ p ∷ []) → (a ≢ p) × (a ∉ xs)
not-mem-snoc a p [] h = (h.0, tt)
not-mem-snoc a p (x ∷ xs) h = let i = not-mem-snoc a p xs h.1 in (i.0, (h.0, i.1))

-- A process that does not wait yet goes to the end, with a slice of at least 1.
pub entered-Ready :
    (s : Sched) (xs : List ℕ) (p : ℕ)
    → Ready s xs
    → p ≢ null
    → p ≢ s.idle
    → p ∉ xs
    → length xs + 1 < 2 ^ 32
    → (enqueue p s ≡ done (entered p s)) × Ready (entered p s) (xs ++ p ∷ [])
unfolding enqueue
entered-Ready s xs p v nn ni out small = (
  rw (v.lone p nn out),
  record {
    ring =
        add_before-Ring xs [] p
          (subst (λ l. Ring s.run_link run_list l) (sym (append-nil xs)) v.ring)
          (nn, subst (λ l. p ∉ l) (sym (append-nil xs)) out);
    lone = λ q nq oq.
        let o = not-mem-snoc q p xs oq in
        is_empty-add_before xs p q v.ring o.0 nq o.1 ∙ v.lone q nq o.1;
    queued =
        All-append _ xs (p ∷ []) (keep_proc (λ x. x.queued ≡ true) s.procs p _ xs out v.queued)
          (ground arith, tt);
    slices =
        All-append _ xs (p ∷ [])
          (keep_proc (λ x. (0 < x.time_slice) × (x.time_slice ≤ s.max_time_slice)) s.procs p _ xs
            out v.slices)
          (ground (arith, v.positive), tt);
    counted = omega (arith, v.counted, length-append xs (p ∷ []));
    small = omega (arith, length-append xs (p ∷ []));
    positive = v.positive;
    no_idle = ∉-append s.idle xs (p ∷ []) v.no_idle (λ e. ni (sym e), tt);
  },
)

-- The first one leaves the queue.
pub withdrawn-Ready :
    (s : Sched) (p : ℕ) (xs : List ℕ)
    → Ready s (p ∷ xs)
    → (dequeue p s ≡ done (withdrawn p s)) × Ready (withdrawn p s) xs
unfolding dequeue
withdrawn-Ready s p xs v =
    let gone = del_init-Ring [] xs p v.ring in
    (
      rw (is_empty-member [] xs p v.ring, v.queued.0),
      record {
        ring = gone.0;
        lone = λ q nq oq. elim (eq-cases q p) [
          | inl e ↦ rw e gone.1
          | inr ne ↦ is_empty-del_init [] xs p q v.ring ne nq (ne, oq) ∙ v.lone q nq (ne, oq)
        ];
        queued = v.queued.1;
        slices = v.slices.1;
        counted = omega (arith, v.counted, v.small);
        small = omega (arith, v.small);
        positive = v.positive;
        no_idle = v.no_idle.1;
      },
    )

-- The first of the queue, or NULL.
pub pick_next-Ready :
    (s : Sched) (xs : List ℕ)
    → Ready s xs
    → pick_next s ≡ (if is_nil xs then none else some (head_or xs null), s)
unfolding pick_next
pick_next-Ready s [] v = rw v.ring.chain.0
pick_next-Ready s (p ∷ xs) v = rw (v.ring.chain.0.0, ==-ne (λ e. v.ring.distinct.0.0 (sym e)))

-- Writes to a process that waits nowhere keep the queue.
pub set_proc-Ready :
    (s : Sched) (xs : List ℕ) (p : ℕ) (x : Proc) → p ∉ xs → Ready s xs → Ready (set_proc p x s) xs
set_proc-Ready s xs p x out v = record {
  ring = v.ring;
  lone = v.lone;
  queued = keep_proc (λ y. y.queued ≡ true) s.procs p x xs out v.queued;
  slices =
      keep_proc (λ y. (0 < y.time_slice) × (y.time_slice ≤ s.max_time_slice)) s.procs p x xs out
        v.slices;
  counted = v.counted;
  small = v.small;
  positive = v.positive;
  no_idle = v.no_idle;
}

pub run_next-Ready :
    (s : Sched) (xs : List ℕ) (p : ℕ) → p ∉ xs → Ready s xs → Ready (run_next p s) xs
unfolding run_next
run_next-Ready s xs p out v = elim (Bool-cases (p == s.current)) [
  | inl e ↦ rw e (set_proc-Ready s xs p _ out v)
  | inr e ↦
      let w = set_proc-Ready s xs p _ out v in
      rw e (record {
        ring = w.ring;
        lone = w.lone;
        queued = w.queued;
        slices = w.slices;
        counted = w.counted;
        small = w.small;
        positive = w.positive;
        no_idle = w.no_idle;
      })
]
