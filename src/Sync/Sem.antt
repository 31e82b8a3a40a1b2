-- ===== src/Sync/Sem.antt =====
-- sync/sem.c: semaphores. `down` is the part before it calls `schedule` and the part after; the
-- interrupts are off in each, so each is one step.
use oshub.Prelude.{
  ℕ, ◌+◌, ◌-◌, Bool, true, false, ltb, ◌==◌, if◌then◌else◌, update, Run, done, assert, ◌>>=◌, ◌>>◌,
  Option, none, some,
}
use oshub.Sched.{Class}
use oshub.Sync.Wait.{
  Sync, wait_queue_init, wait_queue_first, wakeup_wait, wait_current_set, wait_current_del,
}

unfoldable pub sem_init : ℕ → ℕ → Sync → Sync
sem_init sem value s = wait_queue_init sem (record s { value = update s.value sem value })

abbrev pub add_value : ℕ → ℕ → Sync → Sync
add_value sem value s = record s { value = update s.value sem value }

-- `__up`, where the queue has that first entry.
abbrev pub up_to : Class → ℕ → ℕ → Option ℕ → Sync → Run Sync
up_to c sem flags none s = done (add_value sem (s.value sem + 1) s)
up_to c sem flags (some wait) s =
    assert ((s.sched.procs (s.proc wait)).wait_state == flags)
    >> wakeup_wait c sem wait flags true s

unfoldable pub up_with : Class → ℕ → ℕ → Sync → Run Sync
up_with c sem flags s = up_to c sem flags (wait_queue_first sem s) s

-- `__down` up to `schedule`: whether it returns 0 at once; else `wait` is its entry.
unfoldable pub down_begin : ℕ → ℕ → ℕ → Sync → Run (Bool × Sync)
down_begin sem wait flags s =
    if ltb 0 (s.value sem)
    then done (true, add_value sem (s.value sem - 1) s)
    else (wait_current_set sem wait flags s >>= λ s. done (false, s))

-- `__down` behind `schedule`, with the value that it returns.
unfoldable pub down_end : ℕ → ℕ → ℕ → Sync → Run (ℕ × Sync)
down_end sem wait flags s = wait_current_del sem wait s >>= λ s.
    done (if s.wakeup_flags wait == flags then 0 else s.wakeup_flags wait, s)

-- `WT_KSEM`
abbrev pub wt_ksem : ℕ
wt_ksem = 256

unfoldable pub up : Class → ℕ → Sync → Run Sync
up c sem s = up_with c sem wt_ksem s

unfoldable pub try_down : ℕ → Sync → Bool × Sync
try_down sem s =
    if ltb 0 (s.value sem) then (true, add_value sem (s.value sem - 1) s) else (false, s)

-- `down` behind `schedule`: it must have been woken up by `up`.
unfoldable pub down_done : ℕ → ℕ → Sync → Run Sync
down_done sem wait s = down_end sem wait wt_ksem s >>= λ (flags, s). assert (flags == 0) >> done s
