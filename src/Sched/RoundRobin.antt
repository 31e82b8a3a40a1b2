-- ===== src/Sched/RoundRobin.antt =====
-- lab8/kern/schedule/default_sched.c: the round-robin class.
use oshub.Prelude.{
  ℕ, ◌+◌, ◌-◌, ◌%◌, ◌^◌, true, not, ◌==◌, ltb, if◌then◌else◌, ◌||◌, ◌&&◌, Run, done, assert, ◌>>◌,
  Option, none, some,
}
use oshub.Links
use oshub.Sched.{Sched, Class, run_list, set_proc}

unfoldable pub init : Sched → Sched
init s = record s { run_link = Links.init run_list s.run_link; proc_num = 0 }

-- The slice that a process enters the queue with.
abbrev pub fresh_slice : Sched → ℕ → ℕ
fresh_slice s slice = if slice == 0 || ltb s.max_time_slice slice then s.max_time_slice else slice

-- The writes of `RR_enqueue`, and of `RR_dequeue`.
abbrev pub entered : ℕ → Sched → Sched
entered p s = record s {
  procs =
      (set_proc p
        (record (s.procs p) { time_slice = fresh_slice s (s.procs p).time_slice; queued = true })
        s).procs;
  run_link = Links.add_before run_list p s.run_link;
  proc_num = (s.proc_num + 1) % 2 ^ 32;
}

abbrev pub withdrawn : ℕ → Sched → Sched
withdrawn p s = record s {
  run_link = Links.del_init p s.run_link;
  proc_num = (s.proc_num + 2 ^ 32 - 1) % 2 ^ 32;
}

unfoldable pub enqueue : ℕ → Sched → Run Sched
enqueue p s = do assert (Links.is_empty p s.run_link); done (entered p s)

unfoldable pub dequeue : ℕ → Sched → Run Sched
dequeue p s = do
  assert (not (Links.is_empty p s.run_link) && (s.procs p).queued)
  done (withdrawn p s)

unfoldable pub pick_next : Sched → Option ℕ × Sched
pick_next s =
    let le = s.run_link.next run_list in (if not (le == run_list) then some le else none, s)

unfoldable pub proc_tick : ℕ → Sched → Sched
proc_tick p s =
    let slice = (s.procs p).time_slice in
    let left = if ltb 0 slice then slice - 1 else slice in
    set_proc p
      (record (s.procs p) {
        time_slice = left;
        need_resched = if left == 0 then true else (s.procs p).need_resched;
      })
      s

-- `default_sched_class`
abbrev pub round_robin : Class
round_robin = record {
  init = init;
  enqueue = enqueue;
  dequeue = dequeue;
  pick_next = pick_next;
  proc_tick = proc_tick;
}
