-- ===== src/Process/Fork.antt =====
-- `do_fork`, `do_exit` and `do_wait` of lab8/kern/process/proc.c over the resources of a process.
use oshub.Prelude.{
  ℕ, Bool, true, false, not, ◌==◌, leb, if◌then◌else◌, update, Option, none, some, Run, done, panic,
  assert, ◌>>=◌, ◌>>◌, Error, Eff, ok, fail, stop, assert_then,
}
use oshub.Sched.{Class, zombie, set_proc, schedule}
use oshub.Process.{Procs}
use oshub.Process.Calls.{
  Resources, max_process, wt_child, alloc_proc, enter, reap, Waiting, found, asleep, bad_proc,
  wait_round, wake_up, adopt,
}

-- The new process `p`, and who its parent is.
abbrev pub born : ℕ → Procs → Procs
born p s = let a = alloc_proc p s in record a { parent = update a.parent p s.sched.current }

module _ {R : Type 0} (res : Resources R) (c : Class) where
  open res use {
    kmalloc, kfree, setup_kstack, put_kstack, copy_mm, copy_files, put_files, copy_thread, release,
  }

  -- The labels at the end of `do_fork`, each of which falls through to the next.
  abbrev pub cleanup_proc : ℕ → Procs → R → Eff (Procs × R) ℕ
  cleanup_proc p s r = fail Error.e_no_mem (s, kfree p r)

  abbrev pub cleanup_kstack : ℕ → Procs → R → Eff (Procs × R) ℕ
  cleanup_kstack p s r = cleanup_proc p s (put_kstack p r)

  abbrev pub cleanup_fs : ℕ → Procs → R → Eff (Procs × R) ℕ
  cleanup_fs p s r = cleanup_kstack p s (put_files p r)

  abbrev pub running : ℕ → R → Run Procs → Eff (Procs × R) ℕ
  running p r (done s) = ok (s.pid p) (s, r)
  running p r panic = stop

  -- The process `p` has its resources: it is entered, and runs from now on.
  abbrev pub started : ℕ → R → Option Procs → Eff (Procs × R) ℕ
  started p r none = stop
  started p r (some s) = running p r (wake_up c p s)

  abbrev pub with_files : ℕ → ℕ → ℕ → Procs → Bool × R → Eff (Procs × R) ℕ
  with_files f stack p s (false, r) = cleanup_fs p s r
  with_files f stack p s (true, r) = let r' = copy_thread p stack r in started p r' (enter f p s)

  abbrev pub with_mm : ℕ → ℕ → ℕ → ℕ → Procs → Bool × R → Eff (Procs × R) ℕ
  with_mm f flags stack p s (false, r) = cleanup_kstack p s r
  with_mm f flags stack p s (true, r) = with_files f stack p s (copy_files flags p r)

  abbrev pub with_kstack : ℕ → ℕ → ℕ → ℕ → Procs → Bool × R → Eff (Procs × R) ℕ
  with_kstack f flags stack p s (false, r) = cleanup_proc p s r
  with_kstack f flags stack p s (true, r) = with_mm f flags stack p s (copy_mm flags p r)

  abbrev pub with_proc : ℕ → ℕ → ℕ → Procs → R → Option (ℕ × R) → Eff (Procs × R) ℕ
  with_proc f flags stack s r none = fail Error.e_no_mem (s, r)
  with_proc f flags stack s r (some (p, r')) =
      assert_then (((born p s).sched.procs s.sched.current).wait_state == 0)
        (with_kstack f flags stack p (born p s) (setup_kstack p r'))

  unfoldable pub do_fork : ℕ → ℕ → ℕ → Procs → R → Eff (Procs × R) ℕ
  do_fork f flags stack s r =
      if leb max_process s.nr_process
      then fail Error.e_no_free_proc (s, r)
      else with_proc f flags stack s r (kmalloc r)

  -- `do_exit` comes back only to panic, which it does if no other process was there to run.
  unfoldable pub do_exit : ℕ → ℕ → Procs → R → Run (Procs × R)
  do_exit f code s r = do
    let here = s.sched.current
    assert (not (here == s.sched.idle))
    assert (not (here == s.initproc))
    let r' = release here r
    let s1 = record s {
      sched = set_proc here (record (s.sched.procs here) { state = zombie }) s.sched;
      exit_code = update s.exit_code here code;
    }
    let par = s.parent here
    s2 ← if (s1.sched.procs par).wait_state == wt_child then wake_up c par s1 else done s1
    s3 ← adopt c f here s2
    t ← schedule c s3.sched
    assert (not (t.current == here))
    done (record s3 { sched = t }, r')

  -- `do_wait` up to its return or to `schedule`; `writable` is what `user_mem_check` says of
  -- `code_store`. After `schedule` the process exits if it was killed, or does another round.
  pub data Waited : Type 0 where
    reaped : ℕ → Procs → R → Waited
    switched : Procs → Waited
    refused : Error → Waited
    panicked : Waited

  abbrev pub waited : Procs → R → Waiting → Waited
  waited s r (found p) =
      if p == s.sched.idle
      then panicked
      else if p == s.initproc
      then panicked
      else reaped (s.exit_code p) (reap p s) (kfree p (put_kstack p r))
  waited s r (asleep s') = elim (schedule c s'.sched) [
    | done t ↦ switched (record s' { sched = t })
    | panic ↦ panicked
  ]
  waited s r bad_proc = refused Error.e_bad_proc

  unfoldable pub do_wait : ℕ → ℕ → Bool → Procs → R → Waited
  do_wait f pid writable s r =
      if writable then waited s r (wait_round f pid s) else refused Error.e_inval
