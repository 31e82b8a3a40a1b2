-- ===== src/Sched/Timers.antt =====
-- The timers of lab8/kern/schedule/sched.c: `timer_list` holds them in the order in which they
-- expire, and `expires` of each is the number of ticks after the one before it.
use oshub.Prelude.{
  ℕ, zero, suc, ◌+◌, ◌-◌, ◌/◌, ◌%◌, ◌^◌, Bool, true, not, ◌==◌, ltb, if◌then◌else◌, ◌&&◌, update,
  Run, done, assert, ◌>>=◌, ◌>>◌,
}
use oshub.Links
use oshub.Links.{Links}
use oshub.Sched.{Sched, Class, null, timer_list, wakeup_proc, class_proc_tick}

-- The loop of `add_timer` at `le`: the node to insert before, and `expires` of all timers. Neither
-- subtraction goes below 0, by the test before it.
unfoldable pub place : ℕ → Links → ℕ → ℕ → (ℕ → ℕ) → ℕ × (ℕ → ℕ)
place zero l timer le ex = (le, ex)
place (suc f) l timer le ex =
    let rest = place f l timer (l.next le) (update ex timer (ex timer - ex le)) in
    if le == timer_list
    then (le, ex)
    else if ltb (ex timer) (ex le)
    then (le, update ex le (ex le - ex timer))
    else rest

unfoldable pub add_timer : ℕ → ℕ → Sched → Run Sched
unfolding place
add_timer f timer s = do
  assert (ltb 0 (s.expires timer) && not (s.timer_proc timer == null))
  assert (Links.is_empty timer s.timer_link)
  let (le, ex) = place f s.timer_link timer (s.timer_link.next timer_list) s.expires
  done (record s { timer_link = Links.add_before le timer s.timer_link; expires = ex })

-- What `del_timer` adds to the timer behind.
abbrev pub handed_on : ℕ → Sched → (ℕ → ℕ)
handed_on timer s =
    let le = s.timer_link.next timer in
    if not (s.expires timer == 0)
    then if not (le == timer_list)
      then update s.expires le ((s.expires le + s.expires timer) % 2 ^ 32)
      else s.expires
    else s.expires

unfoldable pub del_timer : ℕ → Sched → Sched
del_timer timer s =
    if not (Links.is_empty timer s.timer_link)
    then record s { timer_link = Links.del_init timer s.timer_link; expires = handed_on timer s }
    else s

-- `wait_state & WT_INTERRUPTED`
abbrev pub interrupted : ℕ → Bool
interrupted w = w / 2 ^ 31 % 2 == 1

module _ (c : Class) where
  -- One turn of the loop of `run_timer_list`: the timer's process wakes up, the timer goes.
  unfoldable pub expire_one : ℕ → Sched → Run Sched
  unfolding del_timer
  expire_one timer s = do
    let proc = s.timer_proc timer
    let wait = (s.procs proc).wait_state
    assert (if not (wait == 0) then interrupted wait else true)
    s' ← wakeup_proc c proc s
    done (del_timer timer s')

  unfoldable pub expire : ℕ → ℕ → Sched → Run Sched
  unfolding expire_one
  expire zero timer s = done s
  expire (suc f) timer s =
      let le = s.timer_link.next timer in
      if s.expires timer == 0
      then (expire_one timer s
          >>= (λ s'. let rest = expire f le s' in if le == timer_list then done s' else rest))
      else done s

  -- The first part of `run_timer_list`, at the first timer.
  unfoldable pub count_down : ℕ → ℕ → Sched → Run Sched
  unfolding expire
  count_down f timer s = do
    assert (not (s.expires timer == 0))
    expire f timer (record s { expires = update s.expires timer (s.expires timer - 1) })

  unfoldable pub run_timer_list : ℕ → Sched → Run Sched
  unfolding count_down class_proc_tick
  run_timer_list f s = do
    let le = s.timer_link.next timer_list
    s' ← if not (le == timer_list) then count_down f le s else done s
    done (if not (s'.current == null) then class_proc_tick c s'.current s' else s')
