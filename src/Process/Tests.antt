-- ===== src/Process/Tests.antt =====
-- Two processes forked one after the other, and the theorems about proc.c there.
use oshub.Prelude.{
  ℕ, ◌+◌, ◌<◌, ◌≡◌, ◌≢◌, refl, true, false, ◌==◌, ==-refl, ◌&&◌, if◌then◌else◌, update, arith, some,
  List, [], ◌∷◌, All, done, ok,
}
use oshub.Links
use oshub.Links.{Links}
use oshub.Sched.{
  Proc, Sched, null, runnable, sleeping, zombie, set_proc, wakeup_proc, class_enqueue,
}
use oshub.Sched.RoundRobin.{round_robin, entered, enqueue}
use oshub.Sched.Ready.{Ready}
use oshub.Process.{Procs, max_pid, youngest, set_links, hash_proc, get_pid, find_proc}
use oshub.Process.Numbers.{Numbers, get_pid_lem}
use oshub.Process.Table.{Table, first_with, find_proc_lem}
use oshub.Process.Children.{Children}
use oshub.Process.Birth.{placed-Numbers, placed-Table}
use oshub.Process.Death.{reap_lem}
use oshub.Process.Adopt.{Adopted, awaits, any_zombie, adopt_lem}
use oshub.Process.Forked.{Unused, Forked, do_fork_lem}
use oshub.Process.Calls.{Resources, wt_child, reap, adopt}
use oshub.Process.Fork.{do_fork}

-- Every node is a list of its own.
abbrev lone_links : Links
lone_links = record { prev = λ p. p; next = λ p. p }

-- 1 is a zombie, 5 is `initproc` and waits for a child, and 9 is `idleproc`.
abbrev proc : ℕ → Proc
proc p = record {
  state = if p == 5 then sleeping else if p == 1 then zombie else runnable;
  wait_state = if p == 5 then wt_child else 0;
  runs = 0;
  need_resched = false;
  queued = false;
  time_slice = 0;
  stride = 0;
  priority = 0;
}

abbrev empty_queue : Sched
empty_queue = record {
  procs = proc;
  run_link = lone_links;
  pool = record { parent = λ _. 0; left = λ _. 0; right = λ _. 0 };
  run_pool = 0;
  proc_num = 0;
  max_time_slice = 5;
  current = 1;
  idle = 9;
  timer_link = lone_links;
  expires = λ _. 0;
  timer_proc = λ _. 0;
}

-- Only `idleproc` is there; 1 has been the last number.
abbrev no_procs : Procs
no_procs = record {
  sched = empty_queue;
  pid = λ _. 0;
  parent = λ _. 9;
  cptr = λ _. 0;
  yptr = λ _. 0;
  optr = λ _. 0;
  exit_code = λ _. 0;
  exiting = λ _. false;
  list_links = lone_links;
  hash_links = lone_links;
  nr_process = 1;
  initproc = 5;
  last_pid = 1;
  next_safe = 8192;
}

-- The process 1 has the number 1.
abbrev one_proc : Procs
one_proc = set_links 1 (hash_proc 1 (record no_procs { pid = update no_procs.pid 1 1 }))

one_proc-Numbers : Numbers one_proc (1 ∷ [])
one_proc-Numbers =
    placed-Numbers no_procs [] 1 1 tt
      (record {
        ring = record { chain = (refl, refl); distinct = (tt, tt) };
        distinct = tt;
        counted = refl;
        safe = omega arith;
        gap = tt;
      })
      (omega arith) tt refl

one_proc-Table : Table one_proc (1 ∷ [])
one_proc-Table =
    placed-Table no_procs [] 1 1 tt
      (record { rings = λ b lb. record { chain = (refl, refl); distinct = (tt, tt) }; range = tt })
      (omega arith) (omega arith)

-- 1 is the child of 9, and 1 and 5 have no children.
one_proc-parent : Children one_proc 9 (1 ∷ [])
unfolding set_links youngest hash_proc
one_proc-parent = record {
  row = (refl, omega arith, refl, refl);
  parents = (refl, tt);
  distinct = (tt, tt);
}

one_proc-child : Children one_proc 1 []
unfolding set_links youngest hash_proc
one_proc-child = record { row = refl; parents = tt; distinct = tt }

one_proc-init : Children one_proc one_proc.initproc []
unfolding set_links youngest hash_proc
one_proc-init = record { row = refl; parents = tt; distinct = tt }

one_proc-current : Children one_proc one_proc.sched.current []
unfolding set_links youngest hash_proc
one_proc-current = one_proc-child

nine_ne : 9 ≢ one_proc.initproc
unfolding set_links youngest hash_proc
nine_ne = omega arith

one_proc-Ready : Ready one_proc.sched []
unfolding set_links youngest hash_proc Links.is_empty
one_proc-Ready = record {
  ring = record { chain = (refl, refl); distinct = (tt, tt) };
  lone = λ q nq out. ==-refl q;
  queued = tt;
  slices = tt;
  counted = refl;
  small = omega arith;
  positive = omega arith;
  no_idle = tt;
}

one_proc-Unused : Unused one_proc (1 ∷ []) [] [] 2
unfolding set_links youngest hash_proc
one_proc-Unused = record {
  some_proc = omega arith;
  listed = (omega arith, tt);
  child = tt;
  waiting = tt;
  current = omega arith;
  idle = omega arith;
}

few_procs : one_proc.nr_process < 4096
unfolding set_links youngest hash_proc
few_procs = omega arith

calm : (one_proc.sched.procs one_proc.sched.current).wait_state ≡ 0
unfolding set_links youngest hash_proc
calm = refl

get_pid_lem_example :
    (p : ℕ) × (n : ℕ) × (get_pid 32768 one_proc
      ≡ some (p, record one_proc { last_pid = p; next_safe = n }))
    × (0 < p)
    × (p < max_pid)
    × All (λ x. one_proc.pid x ≢ p) (1 ∷ [])
    × Numbers (record one_proc { last_pid = p; next_safe = n }) (1 ∷ [])
get_pid_lem_example =
    get_pid_lem 32768 one_proc (1 ∷ []) one_proc-Numbers (omega arith) (omega arith)

find_proc_lem_example : find_proc 2 1 one_proc ≡ first_with one_proc.pid 1 (1 ∷ [])
find_proc_lem_example = find_proc_lem 2 1 one_proc (1 ∷ []) one_proc-Table (omega arith)

reap_lem_example :
    Numbers (reap 1 one_proc) []
    × Table (reap 1 one_proc) []
    × Children (reap 1 one_proc) 9 []
    × (find_proc 1 (one_proc.pid 1) (reap 1 one_proc) ≡ null)
    × ((q : ℕ) (zs : List ℕ) → q ≢ 9 → Children one_proc q zs → Children (reap 1 one_proc) q zs)
reap_lem_example =
    reap_lem 1 one_proc [] [] [] [] 1 9 one_proc-Numbers one_proc-Table one_proc-parent
      (omega arith)

-- 5 has been woken up.
abbrev five_ready : Sched
five_ready =
    entered 5 (set_proc 5 (record (proc 5) { state = runnable; wait_state = 0 }) empty_queue)

five_wakes : wakeup_proc round_robin one_proc.initproc one_proc.sched ≡ done five_ready
unfolding wakeup_proc class_enqueue enqueue set_links youngest hash_proc Links.is_empty
five_wakes = refl

five_calm : ((five_ready.procs one_proc.initproc).wait_state == wt_child) ≡ false
unfolding set_links youngest hash_proc
five_calm = refl

adopt_lem_example :
    Adopted one_proc 9
      (1 ∷ [])
      []
      (if awaits one_proc && any_zombie one_proc.sched (1 ∷ []) then five_ready else one_proc.sched)
      (adopt round_robin 2 9 one_proc)
adopt_lem_example =
    adopt_lem round_robin 2 one_proc 9 (1 ∷ []) [] five_ready nine_ne five_wakes five_calm
      one_proc-parent one_proc-init (omega arith)

-- The next block that `kmalloc` returns is the state, and nothing fails.
abbrev blocks : Resources ℕ
blocks = record {
  kmalloc = λ r. some (r, r + 1);
  kfree = λ _ r. r;
  setup_kstack = λ _ r. (true, r);
  put_kstack = λ _ r. r;
  copy_mm = λ _ _ r. (true, r);
  copy_files = λ _ _ r. (true, r);
  put_files = λ _ r. r;
  copy_thread = λ _ _ r. r;
  release = λ _ r. r;
}

do_fork_lem_example :
    (n : ℕ) × (s' : Procs) × (do_fork blocks round_robin 32768 0 0 one_proc 2 ≡ ok n (s', 3))
    × Forked one_proc s' (1 ∷ []) [] [] 2 n
    × (find_proc 32768 n s' ≡ 2)
do_fork_lem_example =
    do_fork_lem blocks 32768 0 0 one_proc (1 ∷ []) [] [] 2 2 3 3 3 3 one_proc-Numbers one_proc-Table
      one_proc-current one_proc-Ready one_proc-Unused few_procs calm (omega arith) (omega arith)
      refl refl refl refl

-- `idleproc` runs, and its child 1 is a zombie.
abbrev nine_runs : Procs
nine_runs = record one_proc { sched = record one_proc.sched { current = 9 } }
