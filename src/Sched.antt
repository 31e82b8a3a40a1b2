-- ===== src/Sched.antt =====
-- lab8/kern/schedule/sched.c and sched.h, and the fields of `struct proc_struct`
-- (lab8/kern/process/proc.h) that the scheduler reads and writes. A process is named by a number,
-- and 0 is NULL; `run_link` of process p is the list node p, and the node 0 is `rq->run_list`.
-- Interrupts are off in each of these functions, so each is one step.
pub mod RoundRobin
pub mod Ready
pub mod Rotation
pub mod Timers
pub mod Due
pub mod Leave
pub mod Stride
pub mod Window
pub mod Pool
pub mod Fair
pub mod Fairness
pub mod Wakeup
mod Tests
use oshub.Prelude.{
  ℕ, ◌+◌, Bool, true, false, not, ◌==◌, ◌≡◌, refl, if◌then◌else◌, update, Run, done, assert, ◌>>=◌,
  ◌>>◌, Option, none, some,
}
use oshub.Links
use oshub.Links.{Links}
use oshub.SkewHeap.{Store}

-- `enum proc_state`
pub data ProcState : Type 0 where
  uninit sleeping runnable zombie : ProcState

abbrev pub is_runnable : ProcState → Bool
is_runnable runnable = true
is_runnable _ = false

abbrev pub is_zombie : ProcState → Bool
is_zombie zombie = true
is_zombie _ = false

-- `struct proc_struct`; `queued` says that `rq` is the run queue and not NULL.
pub record Proc : Type 0 where
  pub state : ProcState
  pub wait_state : ℕ
  pub runs : ℕ
  pub need_resched : Bool
  pub queued : Bool
  pub time_slice : ℕ
  pub stride : ℕ
  pub priority : ℕ

-- All processes, `struct run_queue`, `current` and `idleproc`; all timers, by their fields, where
-- the node 0 of `timer_link` is `timer_list`.
pub record Sched : Type 0 where
  pub procs : ℕ → Proc
  pub run_link : Links
  pub pool : Store
  pub run_pool : ℕ
  pub proc_num : ℕ
  pub max_time_slice : ℕ
  pub current : ℕ
  pub idle : ℕ
  pub timer_link : Links
  pub expires : ℕ → ℕ
  pub timer_proc : ℕ → ℕ

abbrev pub timer_list : ℕ
timer_list = 0

abbrev pub run_list : ℕ
run_list = 0

abbrev pub null : ℕ
null = 0

abbrev pub max_slice : ℕ
max_slice = 5

abbrev pub set_proc : ℕ → Proc → Sched → Sched
set_proc p x s = record s { procs = update s.procs p x }

-- `struct sched_class`
pub record Class : Type 0 where
  pub init : Sched → Sched
  pub enqueue : ℕ → Sched → Run Sched
  pub dequeue : ℕ → Sched → Run Sched
  pub pick_next : Sched → Option ℕ × Sched
  pub proc_tick : ℕ → Sched → Sched

-- `proc_run(next)`: the switch to the other context makes `next` the current process.
unfoldable pub run_next : ℕ → Sched → Sched
run_next next s =
    let s' = set_proc next (record (s.procs next) { runs = (s.procs next).runs + 1 }) s in
    if next == s.current then s' else record s' { current = next }

module _ (c : Class) where
  unfoldable pub class_enqueue : ℕ → Sched → Run Sched
  class_enqueue p s = if not (p == s.idle) then c.enqueue p s else done s

  unfoldable pub class_proc_tick : ℕ → Sched → Sched
  class_proc_tick p s =
      if not (p == s.idle)
      then c.proc_tick p s
      else set_proc p (record (s.procs p) { need_resched = true }) s

  -- `sched_init`, with `c` for `sched_class`
  unfoldable pub sched_init : Sched → Sched
  sched_init s =
      c.init
        (record s { timer_link = Links.init timer_list s.timer_link; max_time_slice = max_slice })

  -- A process that is runnable already only gets a warning.
  unfoldable pub wakeup_proc : ℕ → Sched → Run Sched
  unfolding class_enqueue
  wakeup_proc p s = do
    assert (not (is_zombie (s.procs p).state))
    let s' = set_proc p (record (s.procs p) { state = runnable; wait_state = 0 }) s
    if is_runnable (s.procs p).state
        then done s
        else if p == s.current
        then done s'
        else class_enqueue p s'

  -- The second half of `schedule`: the next process leaves the queue and runs, or `idleproc`.
  unfoldable pub switch_to : Option ℕ × Sched → Run Sched
  switch_to (none, s) = done (run_next s.idle s)
  switch_to (some p, s) = do s' ← c.dequeue p s; done (run_next p s')

  unfoldable pub switch : Sched → Run Sched
  unfolding switch_to
  switch s = switch_to (c.pick_next s)

  -- `current` goes back into the queue first, if it can run.
  unfoldable pub schedule : Sched → Run Sched
  unfolding class_enqueue switch
  schedule s = do
    let here = s.current
    let s1 = set_proc here (record (s.procs here) { need_resched = false }) s
    s2 ← if is_runnable (s.procs here).state then class_enqueue here s1 else done s1
    switch s2
