-- ===== src/Sched/Rotation.antt =====
-- What the round-robin class of default_sched.c makes of `schedule` in sched.c: a queue.
use mathlib.Core.Path.{subst}
use mathlib.Core.List.{append_assoc}
use oshub.Prelude.{
  ℕ, zero, suc, ◌+◌, ◌^◌, ◌<◌, ◌≡◌, ◌≢◌, refl, sym, ap, ◌∙◌, true, false, not, ◌==◌, ==-ne,
  if◌then◌else◌, ◌&&◌, Run, done, ◌>>=◌, List, [], ◌∷◌, ◌++◌, length, length-append, head_or, All,
  All-append, ◌∉◌, arith, All-mono, Bool-cases, inl, inr,
}
use oshub.Sched.{
  Sched, null, set_proc, schedule, switch, switch_to, class_enqueue, run_next, is_runnable,
}
use oshub.Sched.Ready.{
  Ready, entered-Ready, withdrawn-Ready, pick_next-Ready, set_proc-Ready, run_next-Ready,
}
use oshub.Sched.RoundRobin.{round_robin, entered, withdrawn}

-- What a switch leaves when `next` has been chosen.
pub record Switched (s s' : Sched) (next : ℕ) : Type 0 where
  pub current : s'.current ≡ next
  pub idle : s'.idle ≡ s.idle
  pub runs : (s'.procs next).runs ≡ (s.procs next).runs + 1
  pub states : (q : ℕ) → (s'.procs q).state ≡ (s.procs q).state

run_next-Switched : (s : Sched) (p : ℕ) → Switched s (run_next p s) p
unfolding run_next
run_next-Switched s p = elim (Bool-cases (p == s.current)) [
  | inl e ↦ rw e (record {
    current = ground arith;
    idle = refl;
    runs = ground arith;
    states = λ q. ground arith;
  })
  | inr e ↦
      rw e (record { current = refl; idle = refl; runs = ground arith; states = λ q. ground arith })
]

abbrev pub tail : List ℕ → List ℕ
tail [] = []
tail (x ∷ xs) = xs

switch_lem :
    (s : Sched) (ws : List ℕ)
    → Ready s ws
    → (s' : Sched) × (switch round_robin s ≡ done s')
      × Ready s' (tail ws)
      × Switched s s' (head_or ws s.idle)
unfolding switch switch_to
switch_lem s [] v = (
  run_next s.idle s,
  rw (pick_next-Ready s [] v),
  run_next-Ready s [] s.idle tt v,
  run_next-Switched s s.idle,
)
switch_lem s (p ∷ ws) v =
    let (run, w) = withdrawn-Ready s p ws v in
    let r = run_next-Switched (withdrawn p s) p in
    (
      run_next p (withdrawn p s),
      rw (pick_next-Ready s (p ∷ ws) v, run),
      run_next-Ready (withdrawn p s) ws p v.ring.distinct.1.0 w,
      record { current = r.current; idle = r.idle; runs = r.runs; states = r.states },
    )

-- Who waits once `schedule` has put `current` back: it goes to the end if it can run.
abbrev waiting : Sched → List ℕ → List ℕ
waiting s xs =
    if is_runnable (s.procs s.current).state && not (s.current == s.idle)
    then xs ++ s.current ∷ []
    else xs

-- The first write of `schedule`.
abbrev settled : Sched → Sched
settled s = set_proc s.current (record (s.procs s.current) { need_resched = false }) s

settled-same :
    (s : Sched) (q : ℕ)
    → (((settled s).procs q).state ≡ (s.procs q).state)
      × (((settled s).procs q).runs ≡ (s.procs q).runs)
settled-same s q = (ground arith, ground arith)

entered-same :
    (s : Sched) (p q : ℕ)
    → (((entered p s).procs q).state ≡ (s.procs q).state)
      × (((entered p s).procs q).runs ≡ (s.procs q).runs)
entered-same s p q = (ground arith, ground arith)

Switched-from :
    (s t s' : Sched) (next : ℕ)
    → t.idle ≡ s.idle
    → ((q : ℕ) → ((t.procs q).state ≡ (s.procs q).state) × ((t.procs q).runs ≡ (s.procs q).runs))
    → Switched t s' next
    → Switched s s' next
Switched-from s t s' next i same r = record {
  current = r.current;
  idle = r.idle ∙ i;
  runs = r.runs ∙ ap (λ n. n + 1) (same next).1;
  states = λ q. r.states q ∙ (same q).0;
}

-- Under the round-robin class `schedule` does not panic. It runs the first of the processes that
-- wait, `current` put back at the end if it can run and is not `idleproc`; `idleproc` runs if
-- nobody waits. The others wait on, in the same order.
pub schedule-round_robin :
    (s : Sched) (xs : List ℕ)
    → Ready s xs
    → s.current ≢ null
    → s.current ∉ xs
    → length xs + 1 < 2 ^ 32
    → (s' : Sched) × (schedule round_robin s ≡ done s')
      × Ready s' (tail (waiting s xs))
      × Switched s s' (head_or (waiting s xs) s.idle)
unfolding schedule class_enqueue
schedule-round_robin s xs v nn out small =
    elim (Bool-cases (is_runnable (s.procs s.current).state)) [
      | inr e ↦ rw e (keep xs v1)
      | inl e ↦ elim (Bool-cases (s.current == s.idle)) [
        | inl i ↦ rw (e, i) (keep xs v1)
        | inr i ↦
            let (run, w) =
              entered-Ready (settled s) xs s.current v1 nn (λ e. ground arith) out small in
            let (s', go, w', r) =
              switch_lem (entered s.current (settled s)) (xs ++ s.current ∷ []) w in
            rw (e, i, run) (s', go, w', back s' _ r)
      ]
    ]
  where
    v1 : Ready (settled s) xs
    v1 = set_proc-Ready s xs s.current _ out v

    keep :
        (ws : List ℕ)
        → Ready (settled s) ws
        → (s' : Sched) × (switch round_robin (settled s) ≡ done s')
          × Ready s' (tail ws)
          × Switched s s' (head_or ws s.idle)
    keep ws w =
        let (s', go, w', r) = switch_lem (settled s) ws w in
        (s', go, w', Switched-from s (settled s) s' _ refl (settled-same s) r)

    back :
        (s' : Sched) (next : ℕ)
        → Switched (entered s.current (settled s)) s' next
        → Switched s s' next
    back s' next r = Switched-from s (settled s) s' next refl (settled-same s) (
        Switched-from (settled s) (entered s.current (settled s)) s' next refl
          (entered-same (settled s) s.current) r)

-- Everybody can run: `current`, and `xs` in the queue.
pub record Turn (s : Sched) (xs : List ℕ) : Type 0 where
  pub ready : Ready s xs
  pub here : is_runnable (s.procs s.current).state ≡ true
  pub others : All (λ p. is_runnable (s.procs p).state ≡ true) xs
  pub some_process : s.current ≢ null
  pub not_idle : s.current ≢ s.idle
  pub outside : s.current ∉ xs
  pub room : length xs + 1 < 2 ^ 32

-- `n` calls of `schedule`
unfoldable pub schedules : ℕ → Sched → Run Sched
schedules zero s = done s
schedules (suc n) s = do s' ← schedule round_robin s; schedules n s'

-- One call gives the turn to the first of the queue.
schedule-Turn :
    (s : Sched) (p : ℕ) (xs : List ℕ)
    → Turn s (p ∷ xs)
    → (s' : Sched) × (schedule round_robin s ≡ done s')
      × (s'.current ≡ p)
      × Turn s' (xs ++ s.current ∷ [])
schedule-Turn s p xs t =
    let (s', run, v, w) =
      subst
        (λ l.
          (s' : Sched) × (schedule round_robin s ≡ done s')
          × Ready s' (tail l)
          × Switched s s' (head_or l s.idle))
        list (schedule-round_robin s (p ∷ xs) t.ready t.some_process t.outside t.room) in
    (
      s',
      run,
      w.current,
      record {
        ready = v;
        here = rw (w.current, w.states p) t.others.0;
        others =
            All-append _ xs (s.current ∷ []) (All-mono _ _ xs (λ q h. rw (w.states q) h) t.others.1)
              (rw (w.states s.current) t.here, tt);
        some_process = λ e. t.ready.ring.distinct.0.0 (sym e ∙ w.current);
        not_idle = λ e. t.ready.no_idle.0 (sym w.idle ∙ sym e ∙ w.current);
        outside = rw w.current (
            All-append _ xs (s.current ∷ []) t.ready.ring.distinct.1.0
              (λ e. t.outside.0 (sym e), tt));
        room = omega (arith, t.room, length-append xs (s.current ∷ []));
      },
    )
  where
    list : waiting s (p ∷ xs) ≡ (p ∷ xs) ++ s.current ∷ []
    list = rw (t.here, ==-ne t.not_idle)

schedules_step :
    (n : ℕ) (s s1 : Sched) → schedule round_robin s ≡ done s1 → schedules (suc n) s ≡ schedules n s1
unfolding schedules
schedules_step n s s1 e = rw e refl

-- No process starves under round robin: while all can run, the process with `length ys` others
-- before it in the queue runs after `length ys + 1` calls of `schedule`. The queue then holds those
-- behind it, the process that ran first and the others, in this order.
pub schedules-round_robin :
    (s : Sched) (ys : List ℕ) (p : ℕ) (zs : List ℕ)
    → Turn s (ys ++ p ∷ zs)
    → (s' : Sched) × (schedules (suc (length ys)) s ≡ done s')
      × (s'.current ≡ p)
      × Turn s' (zs ++ s.current ∷ ys)
unfolding schedules
schedules-round_robin s [] p zs t =
    let (s', run, c, t') = schedule-Turn s p zs t in (s', rw run, c, t')
schedules-round_robin s (y ∷ ys) p zs t =
    let (s1, run1, c1, t1) = schedule-Turn s y (ys ++ p ∷ zs) t in
    let (s2, run2, c2, t2) =
      schedules-round_robin s1 ys p (zs ++ s.current ∷ [])
        (subst (λ l. Turn s1 l) (append_assoc ys (p ∷ zs) (s.current ∷ [])) t1) in
    (
      s2,
      schedules_step (suc (length ys)) s s1 run1 ∙ run2,
      c2,
      subst (λ l. Turn s2 l)
          (append_assoc zs (s.current ∷ []) (s1.current ∷ ys)
            ∙ ap (λ q. zs ++ s.current ∷ q ∷ ys) c1)
          t2,
    )
