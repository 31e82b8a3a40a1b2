-- ===== src/Sched/Wakeup.antt =====
-- `wakeup_proc` of sched.c under the round-robin class.
use mathlib.Core.Bool.{false≢true}
use oshub.Prelude.{
  ℕ, ◌+◌, ◌<◌, ◌^◌, ◌≡◌, ◌≢◌, ◌⊎◌, inl, inr, refl, ◌∙◌, ap, true, false, ◌==◌, ==-ne, ◌||◌,
  if◌then◌else◌, List, [], ◌∷◌, ◌++◌, ◌∉◌, length, Bool-cases, done, panic, update-at, update-other,
}
use oshub.Sched.{
  Proc, Sched, ProcState, runnable, sleeping, uninit, zombie, is_runnable, is_zombie, null,
  set_proc, wakeup_proc, class_enqueue,
}
use oshub.Sched.RoundRobin.{round_robin, entered}
use oshub.Sched.Ready.{Ready, set_proc-Ready, entered-Ready}

-- Who waits once `p` has been woken up.
abbrev pub awake : Sched → List ℕ → ℕ → List ℕ
awake s xs p = if is_runnable (s.procs p).state || (p == s.current) then xs else xs ++ p ∷ []

runs_already : (st : ProcState) → is_runnable st ≡ true → st ≡ runnable
runs_already runnable e = refl
runs_already uninit e = absurd (false≢true e)
runs_already sleeping e = absurd (false≢true e)
runs_already zombie e = absurd (false≢true e)

-- Under the round-robin class `wakeup_proc` of a process that waits nowhere and is not `idleproc`
-- panics if it is a zombie, and otherwise makes it runnable and keeps the queue, at whose end the
-- process waits then unless it was runnable or is `current`. No other process changes.
pub wakeup_proc-round_robin :
    (s : Sched) (xs : List ℕ) (p : ℕ)
    → Ready s xs
    → p ≢ null
    → p ≢ s.idle
    → p ∉ xs
    → length xs + 1 < 2 ^ 32
    → ((is_zombie (s.procs p).state ≡ true) × (wakeup_proc round_robin p s ≡ panic))
      ⊎ ((s' : Sched) × (wakeup_proc round_robin p s ≡ done s')
          × Ready s' (awake s xs p)
          × ((s'.procs p).state ≡ runnable)
          × ((q : ℕ) → q ≢ p → s'.procs q ≡ s.procs q))
unfolding wakeup_proc class_enqueue
wakeup_proc-round_robin s xs p v nn ni out small = elim (Bool-cases (is_zombie (s.procs p).state)) [
  | inl z ↦ inl (z, rw z refl)
  | inr nz ↦ elim (Bool-cases (is_runnable (s.procs p).state)) [
    | inl r ↦ inr (rw (nz, r) (s, refl, v, runs_already (s.procs p).state r, λ q ne. refl))
    | inr nr ↦ inr (asleep nr nz)
  ]
]
  where
    s1 : Sched
    s1 = set_proc p (record (s.procs p) { state = runnable; wait_state = 0 }) s

    v1 : Ready s1 xs
    v1 = set_proc-Ready s xs p _ out v

    one : (s1.procs p).state ≡ runnable
    one = ap (λ (x : Proc). x.state) (update-at s.procs p _)

    rest : (q : ℕ) → q ≢ p → s1.procs q ≡ s.procs q
    rest q ne = update-other s.procs p _ q ne

    asleep :
        is_runnable (s.procs p).state ≡ false
        → is_zombie (s.procs p).state ≡ false
        → (s' : Sched) × (wakeup_proc round_robin p s ≡ done s')
          × Ready s' (awake s xs p)
          × ((s'.procs p).state ≡ runnable)
          × ((q : ℕ) → q ≢ p → s'.procs q ≡ s.procs q)
    asleep nr nz = elim (Bool-cases (p == s.current)) [
      | inl e ↦ rw (nr, nz, e) (s1, refl, v1, one, rest)
      | inr e ↦
          let (put, w) = entered-Ready s1 xs p v1 nn ni out small in
          rw (nr, nz, e, ==-ne ni, put)
            (
              entered p s1,
              refl,
              w,
              ap (λ (x : Proc). x.state) (update-at s1.procs p _) ∙ one,
              λ q ne. update-other s1.procs p _ q ne ∙ rest q ne,
            )
    ]
