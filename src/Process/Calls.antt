-- ===== src/Process/Calls.antt =====
-- `do_fork`, `do_exit`, `do_wait` and `do_kill` of lab8/kern/process/proc.c. What they do with
-- memory, kernel stacks and open files goes through the operations of `Resources`, on a state of
-- its own. The fuel `f` bounds the walks through lists of processes.
use oshub.Prelude.{
  ℕ, zero, suc, ◌+◌, ◌-◌, ◌^◌, Bool, true, false, not, ◌==◌, if◌then◌else◌, ◌&&◌, update, Option,
  none, some, Run, done, panic, ◌>>=◌, Error, Eff, ok, fail, stop,
}
use oshub.Links
use oshub.SkewHeap
use oshub.Sched.{Class, uninit, sleeping, is_zombie, null, set_proc, wakeup_proc}
use oshub.Sched.Timers.{interrupted}
use oshub.Process.{
  Procs, youngest, set_links, remove_links, get_pid, hash_proc, unhash_proc, find_proc,
}

abbrev pub max_process : ℕ
max_process = 4096

-- `WT_CHILD`, which is interruptible.
abbrev pub wt_child : ℕ
wt_child = 2 ^ 31 + 1

-- The flags CLONE_VM and CLONE_FS and the trap frame are arguments of `copy_mm`, `copy_files` and
-- `copy_thread`; those that report success or failure leave a state in both cases.
pub record Resources (R : Type 0) : Type 0 where
  pub kmalloc : R → Option (ℕ × R)
  pub kfree : ℕ → R → R
  pub setup_kstack : ℕ → R → Bool × R
  pub put_kstack : ℕ → R → R
  pub copy_mm : ℕ → ℕ → R → Bool × R
  pub copy_files : ℕ → ℕ → R → Bool × R
  pub put_files : ℕ → R → R
  pub copy_thread : ℕ → ℕ → R → R
  -- The part of `do_exit` that gives back the memory and the files of the process.
  pub release : ℕ → R → R

-- The fields that `alloc_proc` sets: `pid` to the 32 bits of -1.
unfoldable pub alloc_proc : ℕ → Procs → Procs
alloc_proc p s = record s {
  sched = record s.sched {
    procs = update s.sched.procs p (record {
      state = uninit;
      wait_state = 0;
      runs = 0;
      need_resched = false;
      queued = false;
      time_slice = 0;
      stride = 0;
      priority = 0;
    });
    run_link = Links.init p s.sched.run_link;
    pool = SkewHeap.init p s.sched.pool;
  };
  pid = update s.pid p (2 ^ 32 - 1);
  parent = update s.parent p null;
  cptr = update s.cptr p null;
  yptr = update s.yptr p null;
  optr = update s.optr p null;
  exiting = update s.exiting p false;
}

-- The part of `do_fork` with interrupts off: the process gets its number and its places.
abbrev pub placed : ℕ → Option (ℕ × Procs) → Option Procs
placed p none = none
placed p (some (n, s)) = some (set_links p (hash_proc p (record s { pid = update s.pid p n })))

unfoldable pub enter : ℕ → ℕ → Procs → Option Procs
enter f p s = placed p (get_pid f s)

-- The part of `do_wait` with interrupts off.
unfoldable pub reap : ℕ → Procs → Procs
reap p s = remove_links p (unhash_proc p s)

-- The loop of `do_wait` over the children from `p` on: the first zombie, or NULL.
unfoldable pub find_zombie : ℕ → ℕ → Procs → ℕ
find_zombie zero p s = null
find_zombie (suc f) p s =
    let rest = find_zombie f (s.optr p) s in
    if p == null then null else if is_zombie (s.sched.procs p).state then p else rest

-- What one round of `do_wait` from `repeat` on comes to: a child to reap, a process that sleeps
-- until a child ends, or -E_BAD_PROC.
pub data Waiting : Type 0 where
  found : ℕ → Waiting
  asleep : Procs → Waiting
  bad_proc : Waiting

unfoldable pub fall_asleep : Procs → Procs
fall_asleep s =
    let here = s.sched.current in
    record s {
      sched =
          set_proc here (record (s.sched.procs here) { state = sleeping; wait_state = wt_child })
            s.sched;
    }

-- `code` is `proc`, a child with the number that was asked for, or a zombie.
unfoldable pub wait_round : ℕ → ℕ → Procs → Waiting
wait_round f pid s =
    let here = s.sched.current in
    let proc = find_proc f pid s in
    let child = find_zombie f (s.cptr here) s in
    if not (pid == 0)
    then if not (proc == null) && (s.parent proc == here)
      then if is_zombie (s.sched.procs proc).state then found proc else asleep (fall_asleep s)
      else bad_proc
    else if not (child == null)
    then found child
    else if s.cptr here == null
    then bad_proc
    else asleep (fall_asleep s)

-- In the loop of `do_exit` the child `p` of the process `here` goes to `initproc`.
unfoldable pub handed_over : ℕ → ℕ → Procs → Procs
handed_over here p s =
    let t = youngest p s.initproc (record s { cptr = update s.cptr here (s.optr p) }) in
    record t { parent = update t.parent p s.initproc }

module _ (c : Class) where
  unfoldable pub wake_up : ℕ → Procs → Run Procs
  wake_up p s = do t ← wakeup_proc c p s.sched; done (record s { sched = t })

  unfoldable pub do_kill : ℕ → ℕ → Procs → Eff Procs (Unit {0})
  unfolding wake_up
  do_kill f pid s =
      let p = find_proc f pid s in
      let s' = record s { exiting = update s.exiting p true } in
      if p == null
      then fail Error.e_inval s
      else if s.exiting p
      then fail Error.e_killed s
      else if interrupted (s.sched.procs p).wait_state
      then elim (wake_up p s') [ done t ↦ ok tt t | panic ↦ stop ]
      else ok tt s'

  -- The end of a turn of the loop of `do_exit`, for the child `p`.
  abbrev pub notify : ℕ → ℕ → Procs → Run Procs
  notify init p s =
      if is_zombie (s.sched.procs p).state && ((s.sched.procs init).wait_state == wt_child)
      then wake_up init s
      else done s

  -- The loop of `do_exit`: the children go to `initproc`, from the youngest on, and it wakes up if
  -- it waits for a child and one of them is a zombie.
  unfoldable pub adopt : ℕ → ℕ → Procs → Run Procs
  adopt zero here s = done s
  adopt (suc f) here s =
      let p = s.cptr here in
      let rest = notify s.initproc p (handed_over here p s) >>= adopt f here in
      if p == null then done s else rest
