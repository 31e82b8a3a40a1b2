-- ===== src/Process.antt =====
-- lab8/kern/process/proc.c: the set of processes, their numbers, the table that finds a process by
-- its number, and the tree of parents and children. A process is named by a number, and 0 is NULL,
-- as in Sched, whose state is part of this one. Interrupts are off in each of these functions, so
-- each is one step.
pub mod Pid
pub mod Numbers
pub mod Table
pub mod Hashing
pub mod Family
pub mod Calls
pub mod Fork
pub mod Birth
pub mod Death
pub mod Waiting
pub mod HandOver
pub mod Adopt
pub mod Born
pub mod Forked
mod Tests
pub mod Children
use oshub.Prelude.{
  ℕ, zero, suc, ◌+◌, ◌-◌, ◌*◌, ◌/◌, ◌%◌, ◌^◌, Bool, true, false, not, ◌==◌, ltb, leb, if◌then◌else◌,
  ◌&&◌, update, Option, none, some,
}
use oshub.Links
use oshub.Links.{Links}
use oshub.Sched.{Sched, null}

abbrev pub max_pid : ℕ
max_pid = 8192

abbrev pub hash_list_size : ℕ
hash_list_size = 1024

abbrev pub proc_list : ℕ
proc_list = 0

-- The fields of every `struct proc_struct` that the scheduler does not use, `exiting` for the flag
-- PF_EXITING, the only one; and the variables of proc.c. `list_link` of process p is the node p of
-- `list_links`, whose node 0 is `proc_list`. In `hash_links` the nodes below 1024 are the heads
-- `hash_list[i]`, and `hash_link` of process p is the node p + 1024.
pub record Procs : Type 0 where
  pub sched : Sched
  pub pid : ℕ → ℕ
  pub parent : ℕ → ℕ
  pub cptr : ℕ → ℕ
  pub yptr : ℕ → ℕ
  pub optr : ℕ → ℕ
  pub exit_code : ℕ → ℕ
  pub exiting : ℕ → Bool
  pub list_links : Links
  pub hash_links : Links
  pub nr_process : ℕ
  pub initproc : ℕ
  pub last_pid : ℕ
  pub next_safe : ℕ

-- `proc->optr->yptr = y` and its mirror image: a store through a pointer that may be NULL.
abbrev pub store : ℕ → ℕ → (ℕ → ℕ) → ℕ → ℕ
store p v f = if p == null then f else update f p v

-- The part of `set_links`, and of the loop of `do_exit`, that makes `proc` the youngest child.
unfoldable pub youngest : ℕ → ℕ → Procs → Procs
youngest proc parent s = record s {
  yptr = store (s.cptr parent) proc (update s.yptr proc null);
  optr = update s.optr proc (s.cptr parent);
  cptr = update s.cptr parent proc;
}

unfoldable pub set_links : ℕ → Procs → Procs
unfolding youngest
set_links proc s =
    youngest proc (s.parent proc) (record s {
      list_links = Links.add proc_list proc s.list_links;
      nr_process = s.nr_process + 1;
    })

-- `if (proc->yptr != NULL) … else proc->parent->cptr = proc->optr`
unfoldable pub remove_links : ℕ → Procs → Procs
remove_links proc s = record s {
  list_links = Links.del proc s.list_links;
  yptr = store (s.optr proc) (s.yptr proc) s.yptr;
  optr = store (s.yptr proc) (s.optr proc) s.optr;
  cptr = if s.yptr proc == null then update s.cptr (s.parent proc) (s.optr proc) else s.cptr;
  nr_process = s.nr_process - 1;
}

-- Where the loop of `get_pid` stands.
pub record Cursor : Type 0 where
  pub le : ℕ
  pub last : ℕ
  pub safe : ℕ

-- One turn of the loop, at the process `proc`: `goto repeat` puts the cursor back to the head.
unfoldable pub next_cursor : ℕ → ℕ → Cursor → Cursor
next_cursor proc pid c =
    if pid == c.last
    then if leb c.safe (c.last + 1)
      then record {
        le = proc_list;
        last = if leb max_pid (c.last + 1) then 1 else c.last + 1;
        safe = max_pid;
      }
      else record { le = proc; last = c.last + 1; safe = c.safe }
    else if ltb c.last pid && ltb pid c.safe
    then record { le = proc; last = c.last; safe = pid }
    else record { le = proc; last = c.last; safe = c.safe }

-- `none` means that the fuel ran out.
unfoldable pub search_pid : ℕ → Links → (ℕ → ℕ) → Cursor → Option (ℕ × ℕ)
search_pid zero l pid c = none
search_pid (suc f) l pid c =
    let proc = l.next c.le in
    let rest = search_pid f l pid (next_cursor proc (pid proc) c) in
    if proc == proc_list then some (c.last, c.safe) else rest

abbrev pub numbered : Procs → Option (ℕ × ℕ) → Option (ℕ × Procs)
numbered s none = none
numbered s (some (last, safe)) = some (last, record s { last_pid = last; next_safe = safe })

unfoldable pub get_pid : ℕ → Procs → Option (ℕ × Procs)
get_pid f s =
    let last = s.last_pid + 1 in
    let search = λ (from : ℕ).
      search_pid f s.list_links s.pid (record { le = proc_list; last = from; safe = max_pid }) in
    numbered s (
      if leb max_pid last
      then search 1
      else if leb s.next_safe last
      then search last
      else some (last, s.next_safe))

-- `hash32(pid, HASH_SHIFT)` of lab8/libs/hash.c
unfoldable pub hash32 : ℕ → ℕ → ℕ
hash32 val bits = val * 0x9e370001 % 2 ^ 32 / 2 ^ (32 - bits)

abbrev pub pid_hashfn : ℕ → ℕ
pid_hashfn pid = hash32 pid 10

abbrev pub hash_link : ℕ → ℕ
hash_link proc = proc + hash_list_size

unfoldable pub hash_proc : ℕ → Procs → Procs
hash_proc proc s = record s {
  hash_links = Links.add (pid_hashfn (s.pid proc)) (hash_link proc) s.hash_links;
}

unfoldable pub unhash_proc : ℕ → Procs → Procs
unhash_proc proc s = record s { hash_links = Links.del (hash_link proc) s.hash_links }

-- The loop of `find_proc` at `le`.
unfoldable pub find_in : ℕ → ℕ → ℕ → ℕ → Procs → ℕ
find_in zero list le pid s = null
find_in (suc f) list le pid s =
    let le' = s.hash_links.next le in
    let rest = find_in f list le' pid s in
    if le' == list
    then null
    else if s.pid (le' - hash_list_size) == pid
    then le' - hash_list_size
    else rest

unfoldable pub find_proc : ℕ → ℕ → Procs → ℕ
find_proc f pid s =
    if ltb 0 pid && ltb pid max_pid then find_in f (pid_hashfn pid) (pid_hashfn pid) pid s else null
