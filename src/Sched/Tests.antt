-- ===== src/Sched/Tests.antt =====
-- The scheduler at concrete states, and the theorems about it there.
use oshub.Prelude.{
  ℕ, ◌-◌, ◌^◌, ◌≤◌, ◌<◌, ◌≡◌, ◌≢◌, refl, true, ◌==◌, ◌||◌, if◌then◌else◌, List, [], ◌∷◌, arith,
  done, panic, ◌⊎◌,
}
use oshub.Links
use oshub.Links.{Links}
use oshub.Links.Ring.{Ring}
use oshub.SkewHeap.Tree.{Tree, leaf, node, count}
use oshub.Sched.{
  Proc, Sched, runnable, sleeping, is_zombie, set_proc, wakeup_proc, timer_list, schedule,
}
use oshub.Sched.RoundRobin.{round_robin}
use oshub.Sched.Stride.{stride_class, strides}
use oshub.Sched.Ready.{Ready}
use oshub.Sched.Rotation.{Turn, schedules, schedules-round_robin}
use oshub.Sched.Window.{ahead}
use oshub.Sched.Fair.{Fair, Runs}
use oshub.Sched.Fairness.{pass, schedule_stride}
use oshub.Sched.Wakeup.{wakeup_proc-round_robin}
use oshub.Sched.Timers.{add_timer, del_timer}
use oshub.Sched.Due.{due, add_timer_lem}
use oshub.Sched.Leave.{del_timer_lem}

-- All processes can run. 1 and 2 wait; the stride of 1 is just below `2 ^ 32`, that of 3 above 0.
abbrev proc : ℕ → Proc
proc p = record {
  state = runnable;
  wait_state = 0;
  runs = 0;
  need_resched = true;
  queued = p == 1 || p == 2;
  time_slice = 3;
  stride = if p == 1 then 2 ^ 32 - 5 else if p == 2 then 7 else if p == 3 then 10 else 0;
  priority = 1;
}

-- 3 is current and 9 is `idleproc`. The timers 6 and 7 expire in 3 and 5 ticks; 5 is in no list.
abbrev three_procs : Sched
three_procs = record {
  procs = proc;
  run_link = record {
    prev = λ p. if p == 0 then 2 else if p == 1 then 0 else if p == 2 then 1 else p;
    next = λ p. if p == 0 then 1 else if p == 1 then 2 else if p == 2 then 0 else p;
  };
  pool = record {
    parent = λ p. if p == 2 then 1 else 0;
    left = λ p. if p == 1 then 2 else 0;
    right = λ _. 0;
  };
  run_pool = 1;
  proc_num = 2;
  max_time_slice = 5;
  current = 3;
  idle = 9;
  timer_link = record {
    prev = λ t. if t == 0 then 7 else if t == 6 then 0 else if t == 7 then 6 else t;
    next = λ t. if t == 0 then 6 else if t == 6 then 7 else if t == 7 then 0 else t;
  };
  expires = λ t. if t == 5 then 4 else if t == 6 then 3 else 2;
  timer_proc = λ t. t;
}

one_two-Ready : Ready three_procs (1 ∷ 2 ∷ [])
one_two-Ready = record {
  ring = record { chain = ((refl, refl), ((refl, refl), (refl, refl))); distinct = omega arith };
  lone = λ p nn out. unfold Links.is_empty in ground arith;
  queued = (refl, (refl, tt));
  slices = omega arith;
  counted = refl;
  small = omega arith;
  positive = omega arith;
  no_idle = omega arith;
}

three_procs-Turn : Turn three_procs (1 ∷ 2 ∷ [])
three_procs-Turn = record {
  ready = one_two-Ready;
  here = refl;
  others = (refl, (refl, tt));
  some_process = λ e. omega (arith, e);
  not_idle = λ e. omega (arith, e);
  outside = omega arith;
  room = omega arith;
}

schedules-round_robin_example :
    (s' : Sched) × (schedules 2 three_procs ≡ done s') × (s'.current ≡ 2) × Turn s' (3 ∷ 1 ∷ [])
schedules-round_robin_example = schedules-round_robin three_procs (1 ∷ []) 2 [] three_procs-Turn

-- 4 sleeps.
abbrev sleeper : Sched
sleeper = set_proc 4 (record (proc 4) { state = sleeping }) three_procs

sleeper-Ready : Ready sleeper (1 ∷ 2 ∷ [])
sleeper-Ready = record {
  ring = one_two-Ready.ring;
  lone = one_two-Ready.lone;
  queued = (refl, (refl, tt));
  slices = omega arith;
  counted = refl;
  small = omega arith;
  positive = omega arith;
  no_idle = omega arith;
}

wakeup_proc-round_robin_example :
    ((is_zombie (sleeper.procs 4).state ≡ true) × (wakeup_proc round_robin 4 sleeper ≡ panic))
    ⊎ ((s' : Sched) × (wakeup_proc round_robin 4 sleeper ≡ done s')
        × Ready s' (1 ∷ 2 ∷ 4 ∷ [])
        × ((s'.procs 4).state ≡ runnable)
        × ((q : ℕ) → q ≢ 4 → s'.procs q ≡ sleeper.procs q))
wakeup_proc-round_robin_example =
    wakeup_proc-round_robin sleeper (1 ∷ 2 ∷ []) 4 sleeper-Ready (λ e. omega (arith, e))
      (λ e. omega (arith, e)) (omega arith) (omega arith)

abbrev waiting_heap : Tree
waiting_heap = node (node leaf 2 leaf) 1 leaf

waiting_heap-Fair : Fair three_procs waiting_heap (1 ∷ 2 ∷ []) (2 ^ 32 - 5)
waiting_heap-Fair = record {
  pool = record {
    top = (
      (refl, λ e. omega (arith, e), refl, (refl, λ e. omega (arith, e), refl, refl, refl), refl),
      λ x. ground arith,
    );
    ordered = omega arith;
    window = λ x i. ground arith;
    words = λ x. ground arith;
    base = omega arith;
    ring = one_two-Ready.ring;
    members = λ x. ground arith;
    counted = refl;
    small = omega arith;
  };
  queued = λ x. ground arith;
  no_idle = refl;
}

three_procs-Runs : Runs three_procs waiting_heap (2 ^ 32 - 5)
three_procs-Runs = record {
  some_process = λ e. omega (arith, e);
  not_idle = λ e. omega (arith, e);
  outside = refl;
  near = omega arith;
}

schedule_stride_example :
    (s' : Sched) × (u' : Tree) × (ys : List ℕ) × (schedule stride_class three_procs ≡ done s')
    × Fair s' u' ys (strides three_procs s'.current)
    × Runs s' u' (strides three_procs s'.current)
    × ((x : ℕ)
        → 0 < count x (node waiting_heap 3 leaf)
        → ahead (2 ^ 32 - 5) (strides three_procs s'.current)
          ≤ ahead (2 ^ 32 - 5) (strides three_procs x))
    × ((x : ℕ) → count x (node u' s'.current leaf) ≡ count x (node waiting_heap 3 leaf))
    × ((x : ℕ) → (s'.procs x).state ≡ (three_procs.procs x).state)
    × (strides s' s'.current ≡ pass three_procs s'.current)
    × ((x : ℕ) → x ≢ s'.current → strides s' x ≡ strides three_procs x)
schedule_stride_example =
    schedule_stride three_procs waiting_heap (1 ∷ 2 ∷ []) (2 ^ 32 - 5) waiting_heap-Fair
      three_procs-Runs refl (omega arith)

two_timers-Ring : Ring three_procs.timer_link timer_list (6 ∷ 7 ∷ [])
two_timers-Ring = record {
  chain = ((refl, refl), ((refl, refl), (refl, refl)));
  distinct = omega arith;
}

-- The timer 5 expires after 6, in 3 ticks, and before 7, in 5.
add_timer_lem_example :
    (s' : Sched) × (xs : List ℕ) × (add_timer 3 5 three_procs ≡ done s')
    × Ring s'.timer_link timer_list xs
    × (due s'.expires 0 xs ≡ (6, 3) ∷ (5, 4) ∷ (7, 5) ∷ [])
add_timer_lem_example =
    add_timer_lem 3 three_procs 5 (6 ∷ 7 ∷ []) two_timers-Ring (omega arith)
      (unfold Links.is_empty in refl) (omega arith) (λ e. omega (arith, e)) (omega arith)

del_timer_lem_example :
    Ring (del_timer 6 three_procs).timer_link timer_list (7 ∷ [])
    × (Links.is_empty 6 (del_timer 6 three_procs).timer_link ≡ true)
    × (due (del_timer 6 three_procs).expires 0 (7 ∷ []) ≡ (7, 5) ∷ [])
    × (del_timer 6 (del_timer 6 three_procs) ≡ del_timer 6 three_procs)
del_timer_lem_example = del_timer_lem three_procs 6 [] (7 ∷ []) two_timers-Ring (omega arith)
