-- ===== src/Sched/Stride.antt =====
-- lab8/kern/schedule/default_sched_stride.c: the stride class, with the skew heap
-- (USE_SKEW_HEAP is 1). The node of process p in `lab6_run_pool` is p too.
use oshub.Prelude.{
  ℕ, ◌+◌, ◌-◌, ◌/◌, ◌%◌, ◌^◌, Bool, true, false, not, ◌==◌, ltb, leb, if◌then◌else◌, ◌&&◌, Run,
  done, assert, ◌>>◌, Option, none, some,
}
use oshub.Links
use oshub.SkewHeap
use oshub.SkewHeap.{Store}
use oshub.Sched.{Proc, Sched, Class, run_list, null, set_proc}
use oshub.Sched.RoundRobin.{fresh_slice}

abbrev pub big_stride : ℕ
big_stride = 2 ^ 30

-- `proc_stride_comp_f(a, b) == -1`: the 32-bit difference of the strides is negative.
abbrev pub less : (ℕ → ℕ) → ℕ → ℕ → Bool
less stride a b = leb (2 ^ 31) ((stride a + 2 ^ 32 - stride b) % 2 ^ 32)

abbrev pub strides : Sched → ℕ → ℕ
strides s p = (s.procs p).stride

unfoldable pub init : Sched → Sched
init s = record s { run_link = Links.init run_list s.run_link; run_pool = null; proc_num = 0 }

-- A priority of 0 counts as 1.
abbrev pub positive : ℕ → ℕ
positive priority = if priority == 0 then 1 else priority

-- The writes of `stride_enqueue`: the process, the heap, the list and the number. The number of
-- processes bounds the recursion in the heap.
abbrev pub accepted : Sched → Proc → Proc
accepted s x = record x {
  time_slice = fresh_slice s x.time_slice;
  priority = positive x.priority;
  queued = true;
}

abbrev pub entered : ℕ → ℕ × Store → Sched → Sched
entered p heap s = record s {
  procs = (set_proc p (accepted s (s.procs p)) s).procs;
  run_pool = heap.0;
  pool = heap.1;
  run_link = Links.add_before run_list p s.run_link;
  proc_num = (s.proc_num + 1) % 2 ^ 32;
}

unfoldable pub enqueue : ℕ → Sched → Run Sched
enqueue p s = do
  assert (not (s.procs p).queued)
  done (entered p (SkewHeap.insert (less (strides s)) (s.proc_num + 2) s.run_pool p s.pool) s)

abbrev pub withdrawn : ℕ → ℕ × Store → Sched → Sched
withdrawn p heap s = record s {
  procs = (set_proc p (record (s.procs p) { queued = false }) s).procs;
  run_pool = heap.0;
  pool = heap.1;
  run_link = Links.del_init p s.run_link;
  proc_num = s.proc_num - 1;
}

unfoldable pub dequeue : ℕ → Sched → Run Sched
dequeue p s = do
  assert ((s.procs p).queued && ltb 0 s.proc_num)
  done (withdrawn p (SkewHeap.remove (less (strides s)) (s.proc_num + 2) s.run_pool p s.pool) s)

-- The pass of the process that is picked.
abbrev pub passed : Proc → Proc
passed x = record x { stride = (x.stride + big_stride / positive x.priority) % 2 ^ 32 }

unfoldable pub pick_next : Sched → Option ℕ × Sched
pick_next s =
    if s.run_pool == null
    then (none, s)
    else (some s.run_pool, set_proc s.run_pool (passed (s.procs s.run_pool)) s)

unfoldable pub proc_tick : ℕ → Sched → Sched
proc_tick p s =
    let slice = (s.procs p).time_slice in
    let left = if ltb 0 slice then slice - 1 else slice in
    set_proc p
      (record (s.procs p) {
        time_slice = left;
        need_resched = if left == 0 then true else (s.procs p).need_resched;
      })
      s

-- `stride_sched_class`
abbrev pub stride_class : Class
stride_class = record {
  init = init;
  enqueue = enqueue;
  dequeue = dequeue;
  pick_next = pick_next;
  proc_tick = proc_tick;
}
