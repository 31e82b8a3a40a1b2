-- ===== src/Sync/Tests.antt =====
-- A semaphore 10 that nobody waits for, and the process 1.
use oshub.Links
use oshub.Prelude.{◌+◌, ◌==◌, if◌then◌else◌, ◌≡◌, refl, false, arith, done, [], ◌∷◌}
use oshub.Sched.{Sched, runnable, set_proc, wakeup_proc, class_enqueue}
use oshub.Sched.RoundRobin.{round_robin, entered, enqueue}
use oshub.Sync.Wait.{Sync}
use oshub.Sync.Sem.{up, down_end, wt_ksem}
use oshub.Sync.Monitor.{Monitors, cond_signal_begin}
use oshub.Sync.Hoare.{asleep, cond_signal_lem}
use oshub.Sync.Handover.{Waiting, joined, up_lem, down_begin_lem}

abbrev machine : Sched
machine = record {
  procs = λ p. record {
    state = runnable;
    wait_state = 0;
    runs = 0;
    need_resched = false;
    queued = false;
    time_slice = 5;
    stride = 0;
    priority = 1;
  };
  run_link = record { prev = λ p. p; next = λ p. p };
  pool = record { parent = λ p. 0; left = λ p. 0; right = λ p. 0 };
  run_pool = 0;
  proc_num = 0;
  max_time_slice = 5;
  current = 1;
  idle = 9;
  timer_link = record { prev = λ t. t; next = λ t. t };
  expires = λ t. 0;
  timer_proc = λ t. 0;
}

abbrev start : Sync
start = record {
  sched = machine;
  wait_link = record { prev = λ x. x; next = λ x. x };
  proc = λ w. 0;
  wakeup_flags = λ w. 0;
  wait_queue = λ w. 0;
  value = λ sem. 0;
}

start-Waiting : Waiting start 10 []
start-Waiting = record { ring = record { chain = (refl, refl); distinct = (tt, tt) }; here = tt }

abbrev one_waits : Sync
one_waits = joined 10 20 start

one_waits-Waiting : Waiting one_waits 10 (20 ∷ [])
one_waits-Waiting =
    (down_begin_lem start 10 20 [] start-Waiting (λ e. omega (arith, e), tt) refl
      (λ e. omega (arith, e))).1

abbrev woken : Sched
woken =
    set_proc 1 (record (one_waits.sched.procs 1) { state = runnable; wait_state = 0 })
      one_waits.sched

wakes : wakeup_proc round_robin 1 one_waits.sched ≡ done woken
unfolding wakeup_proc
wakes = refl

up_lem_example :
    (s' : Sync) × (up round_robin 10 one_waits ≡ done s')
    × (s'.sched ≡ woken)
    × (s'.value ≡ one_waits.value)
    × Waiting s' 10 []
    × (down_end 10 20 wt_ksem s' ≡ done (0, s'))
up_lem_example = up_lem round_robin one_waits 10 20 [] woken one_waits-Waiting refl wakes

-- 30 waits for `next` of the monitor 1 when the process 2 signals the condition variable 10.
abbrev monitor : Monitors
monitor = record {
  sync = record one_waits { sched = record one_waits.sched { current = 2 } };
  mutex = λ _. 40;
  next = λ _. 50;
  next_count = λ _. 0;
  count = λ cv. if cv == 10 then 1 else 0;
  owner = λ _. 1;
}

abbrev one_enters : Sched
one_enters = entered 1 (
    set_proc 1 (record (monitor.sync.sched.procs 1) { state = runnable; wait_state = 0 })
      monitor.sync.sched)

signal_wakes : wakeup_proc round_robin 1 monitor.sync.sched ≡ done one_enters
unfolding wakeup_proc class_enqueue enqueue Links.is_empty
signal_wakes = refl

monitor-Waiting : Waiting monitor.sync 10 (20 ∷ [])
monitor-Waiting = record { ring = one_waits-Waiting.ring; here = one_waits-Waiting.here }

next-Waiting : Waiting monitor.sync 50 []
unfolding Links.add_before Links.add_between Links.init
next-Waiting = record { ring = record { chain = (refl, refl); distinct = (tt, tt) }; here = tt }

cond_signal_lem_example :
    (s' : Monitors) × (cond_signal_begin round_robin 10 30 monitor ≡ done (false, s'))
    × Waiting s'.sync 10 []
    × Waiting s'.sync 50 (30 ∷ [])
    × (s'.next_count 1 ≡ 0 + 1)
    × (s'.count ≡ monitor.count)
    × (s'.sync.sched ≡ asleep one_enters)
    × (down_end 10 20 wt_ksem s'.sync ≡ done (0, s'.sync))
cond_signal_lem_example =
    cond_signal_lem round_robin monitor 10 30 20 [] [] one_enters (omega arith) monitor-Waiting
      next-Waiting (omega arith) (omega arith) (omega arith) refl signal_wakes refl (omega arith)
