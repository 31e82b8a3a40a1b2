-- ===== src/Sync/Monitor.antt =====
-- sync/monitor.c: monitors and condition variables on semaphores. A condition variable is named by
-- its semaphore `sem`. `cond_signal` and `cond_wait` may sleep in `down` and are the part before
-- and the part after; the entry `wait` is the one of that call. The output on the console is left
-- out.
use oshub.Prelude.{
  ℕ, zero, suc, ◌+◌, ◌-◌, Bool, true, false, ltb, if◌then◌else◌, update, Run, done, assert, ◌>>=◌,
  ◌>>◌,
}
use oshub.Sched.{Class}
use oshub.Sync.Wait.{Sync}
use oshub.Sync.Sem.{sem_init, up, down_begin, down_done, wt_ksem}

-- `monitor_t` and `condvar_t`
pub record Monitors : Type 0 where
  pub sync : Sync
  pub mutex : ℕ → ℕ
  pub next : ℕ → ℕ
  pub next_count : ℕ → ℕ
  pub count : ℕ → ℕ
  pub owner : ℕ → ℕ

abbrev pub add_next : ℕ → ℕ → Monitors → Monitors
add_next mt n s = record s { next_count = update s.next_count mt n }

abbrev pub add_count : ℕ → ℕ → Monitors → Monitors
add_count cv n s = record s { count = update s.count cv n }

-- The loop of `monitor_init` at `i`, with that many elements left of the array `cv` that `kmalloc`
-- returned.
unfoldable pub init_condvars : ℕ → ℕ → ℕ → ℕ → Monitors → Monitors
init_condvars mt cv i zero s = s
init_condvars mt cv i (suc left) s = init_condvars mt cv (i + 1) left (record s {
  count = update s.count (cv + i) 0;
  owner = update s.owner (cv + i) mt;
  sync = sem_init (cv + i) 0 s.sync;
})

unfoldable pub monitor_init : ℕ → ℕ → ℕ → Monitors → Run Monitors
monitor_init mt num_cv cv s = do
  assert (ltb 0 num_cv)
  let s1 = record s {
    next_count = update s.next_count mt 0;
    sync = sem_init (s.next mt) 0 (sem_init (s.mutex mt) 1 s.sync);
  }
  assert (ltb 0 cv)
  done (init_condvars mt cv 0 num_cv s1)

-- What is left of `cond_signal` once its `down` of `next` has returned, and of `cond_wait` once its
-- `down` of the condition variable has.
abbrev pub signalled : ℕ → Monitors → Monitors
signalled mt s = add_next mt (s.next_count mt - 1) s

abbrev pub waited : ℕ → Monitors → Monitors
waited cv s = add_count cv (s.count cv - 1) s

-- `cond_signal` and `cond_wait` up to `schedule` in `down`: whether they return at once.
abbrev pub signal_paused : ℕ → Monitors → Bool × Sync → Bool × Monitors
signal_paused mt s (true, t) = (true, signalled mt (record s { sync = t }))
signal_paused mt s (false, t) = (false, record s { sync = t })

abbrev pub wait_paused : ℕ → Monitors → Bool × Sync → Bool × Monitors
wait_paused cv s (true, t) = (true, waited cv (record s { sync = t }))
wait_paused cv s (false, t) = (false, record s { sync = t })

module _ (c : Class) where
  unfoldable pub cond_signal_begin : ℕ → ℕ → Monitors → Run (Bool × Monitors)
  cond_signal_begin cv wait s =
      let mt = s.owner cv in
      let s1 = add_next mt (s.next_count mt + 1) s in
      if ltb 0 (s.count cv)
      then (up c cv s.sync >>= down_begin (s.next mt) wait wt_ksem >>= λ r.
          done (signal_paused mt s1 r))
      else done (true, s)

  unfoldable pub cond_wait_begin : ℕ → ℕ → Monitors → Run (Bool × Monitors)
  cond_wait_begin cv wait s =
      let mt = s.owner cv in
      let s1 = add_count cv (s.count cv + 1) s in
      let sem = if ltb 0 (s.next_count mt) then s.next mt else s.mutex mt in
      up c sem s.sync >>= down_begin cv wait wt_ksem >>= λ r. done (wait_paused cv s1 r)

unfoldable pub cond_signal_end : ℕ → ℕ → Monitors → Run Monitors
cond_signal_end cv wait s =
    let mt = s.owner cv in
    down_done (s.next mt) wait s.sync >>= λ t. done (signalled mt (record s { sync = t }))

unfoldable pub cond_wait_end : ℕ → ℕ → Monitors → Run Monitors
cond_wait_end cv wait s = down_done cv wait s.sync >>= λ t. done (waited cv (record s { sync = t }))
