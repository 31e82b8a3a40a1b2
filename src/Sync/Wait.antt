-- ===== src/Sync/Wait.antt =====
-- sync/wait.c: queues of processes that wait. An entry `wait_t` is its list node, a queue is its
-- head node, and 0 is NULL for processes and entries.
use oshub.Prelude.{
  ℕ, zero, suc, ◌^◌, Bool, true, false, not, ◌==◌, ◌&&◌, if◌then◌else◌, update, Run, done, assert,
  ◌>>=◌, ◌>>◌, Option, none, some,
}
use oshub.Links
use oshub.Links.{Links}
use oshub.Sched.{Sched, Class, sleeping, null, set_proc, wakeup_proc}

-- `wait_t` of every entry, the value of every semaphore, by its queue, and the scheduler.
pub record Sync : Type 0 where
  pub sched : Sched
  pub wait_link : Links
  pub proc : ℕ → ℕ
  pub wakeup_flags : ℕ → ℕ
  pub wait_queue : ℕ → ℕ
  pub value : ℕ → ℕ

-- `WT_INTERRUPTED`
abbrev pub wt_interrupted : ℕ
wt_interrupted = 2 ^ 31

unfoldable pub wait_init : ℕ → ℕ → Sync → Sync
wait_init wait p s = record s {
  proc = update s.proc wait p;
  wakeup_flags = update s.wakeup_flags wait wt_interrupted;
  wait_link = Links.init wait s.wait_link;
}

unfoldable pub wait_queue_init : ℕ → Sync → Sync
wait_queue_init queue s = record s { wait_link = Links.init queue s.wait_link }

unfoldable pub wait_queue_add : ℕ → ℕ → Sync → Run Sync
wait_queue_add queue wait s =
    assert (Links.is_empty wait s.wait_link && not (s.proc wait == null))
    >> done (record s {
      wait_queue = update s.wait_queue wait queue;
      wait_link = Links.add_before queue wait s.wait_link;
    })

-- The assertion that an entry is in the queue.
abbrev pub queued : ℕ → ℕ → Sync → Bool
queued queue wait s = not (Links.is_empty wait s.wait_link) && (s.wait_queue wait == queue)

unfoldable pub wait_queue_del : ℕ → ℕ → Sync → Run Sync
wait_queue_del queue wait s =
    assert (queued queue wait s) >> done (record s { wait_link = Links.del_init wait s.wait_link })

-- The entry of a node, unless it is the head.
abbrev pub entry : ℕ → ℕ → Option ℕ
entry queue le = if not (le == queue) then some le else none

unfoldable pub wait_queue_next : ℕ → ℕ → Sync → Run (Option ℕ)
wait_queue_next queue wait s =
    assert (queued queue wait s) >> done (entry queue (s.wait_link.next wait))

unfoldable pub wait_queue_prev : ℕ → ℕ → Sync → Run (Option ℕ)
wait_queue_prev queue wait s =
    assert (queued queue wait s) >> done (entry queue (s.wait_link.prev wait))

unfoldable pub wait_queue_first : ℕ → Sync → Option ℕ
wait_queue_first queue s = entry queue (s.wait_link.next queue)

unfoldable pub wait_queue_last : ℕ → Sync → Option ℕ
wait_queue_last queue s = entry queue (s.wait_link.prev queue)

unfoldable pub wait_queue_empty : ℕ → Sync → Bool
wait_queue_empty queue s = Links.is_empty queue s.wait_link

unfoldable pub wait_in_queue : ℕ → Sync → Bool
wait_in_queue wait s = not (Links.is_empty wait s.wait_link)

-- `wait_current_del`
unfoldable pub wait_current_del : ℕ → ℕ → Sync → Run Sync
wait_current_del queue wait s = if wait_in_queue wait s then wait_queue_del queue wait s else done s

unfoldable pub wait_current_set : ℕ → ℕ → ℕ → Sync → Run Sync
wait_current_set queue wait flags s =
    let here = s.sched.current in
    let asleep =
      set_proc here (record (s.sched.procs here) { state = sleeping; wait_state = flags })
        s.sched in
    assert (not (here == null))
    >> wait_queue_add queue wait (record (wait_init wait here s) { sched = asleep })

module _ (c : Class) where
  -- The second half of `wakeup_wait`.
  unfoldable pub wake : ℕ → ℕ → Sync → Run Sync
  wake wait flags s = wakeup_proc c (s.proc wait) s.sched >>= λ sched.
      done (record s { sched = sched; wakeup_flags = update s.wakeup_flags wait flags })

  unfoldable pub wakeup_wait : ℕ → ℕ → ℕ → Bool → Sync → Run Sync
  wakeup_wait queue wait flags del s =
      (if del then wait_queue_del queue wait s else done s) >>= λ s. wake wait flags s

  unfoldable pub wakeup_first : ℕ → ℕ → Bool → Sync → Run Sync
  wakeup_first queue flags del s = elim (wait_queue_first queue s) [
    | none ↦ done s
    | some wait ↦ wakeup_wait queue wait flags del s
  ]

  -- The two loops of `wakeup_queue`, for at most `f` entries.
  unfoldable pub wake_all : ℕ → ℕ → ℕ → Sync → Run Sync
  wake_all zero queue flags s = done s
  wake_all (suc f) queue flags s = elim (wait_queue_first queue s) [
    | none ↦ done s
    | some wait ↦ wakeup_wait queue wait flags true s >>= λ s. wake_all f queue flags s
  ]

  unfoldable pub wake_from : ℕ → ℕ → Option ℕ → ℕ → Sync → Run Sync
  wake_from zero queue at flags s = done s
  wake_from (suc f) queue none flags s = done s
  wake_from (suc f) queue (some wait) flags s = wakeup_wait queue wait flags false s >>= λ s.
      wait_queue_next queue wait s >>= λ next. wake_from f queue next flags s

  unfoldable pub wakeup_queue : ℕ → ℕ → ℕ → Bool → Sync → Run Sync
  wakeup_queue f queue flags del s =
      if del then wake_all f queue flags s else wake_from f queue (wait_queue_first queue s) flags s
