-- ===== src/Sync/Handover.antt =====
-- A semaphore and the processes that wait for it, in order.
use oshub.Prelude.{
  ℕ, ◌≡◌, ◌≢◌, refl, sym, ap, ◌∙◌, true, false, ltb, ltb-false, ◌==◌, ==-ne, ==-refl, update,
  update-at, arith, done, some, List, [], ◌∷◌, ◌++◌, All, All-append, ◌∉◌,
}
use mathlib.Core.Path.{subst}
use mathlib.Core.List.{append-nil}
use oshub.Links
use oshub.Links.{Links}
use oshub.Links.Ring.{Ring, add_before-Ring, del_init-Ring, is_empty-member, init_other-Ring}
use oshub.Sched.{sleeping, Sched, Class, null, set_proc, wakeup_proc}
use oshub.Sync.Wait.{
  Sync, wt_interrupted, wait_init, wait_queue_first, wait_queue_add, wait_queue_del, wait_in_queue,
  wait_current_set, wait_current_del, wake, wakeup_wait,
}
use oshub.Sync.Sem.{up, up_to, up_with, down_begin, down_end, wt_ksem}

-- The entries `ws` wait in the queue of the semaphore, in this order.
pub record Waiting (s : Sync) (sem : ℕ) (ws : List ℕ) : Type 0 where
  pub ring : Ring s.wait_link sem ws
  pub here : All (λ w. s.wait_queue w ≡ sem) ws

first_waits :
    (s : Sync) (sem w : ℕ) (ws : List ℕ) → Waiting s sem (w ∷ ws) → wait_queue_first sem s ≡ some w
unfolding wait_queue_first
first_waits s sem w ws q =
    let apart : (w == sem) ≡ false = ==-ne (λ e. q.ring.distinct.0.0 (sym e)) in
    rw (q.ring.chain.0.0, apart) refl

first_leaves :
    (s : Sync) (sem w : ℕ) (ws : List ℕ)
    → Waiting s sem (w ∷ ws)
    → wait_queue_del sem w s ≡ done (record s { wait_link = Links.del_init w s.wait_link })
unfolding wait_queue_del
first_leaves s sem w ws q = rw (is_empty-member [] ws w q.ring, q.here.0, ==-refl sem) refl

module _ (c : Class) (s : Sync) (sem w : ℕ) (sched : Sched) where
  -- What `up` leaves when it wakes up `w`.
  abbrev pub handed : Sync
  handed = record s {
    sched = sched;
    wait_link = Links.del_init w s.wait_link;
    wakeup_flags = update s.wakeup_flags w wt_ksem;
  }

  woken :
      (ws : List ℕ)
      → Waiting s sem (w ∷ ws)
      → (s.sched.procs (s.proc w)).wait_state ≡ wt_ksem
      → wakeup_proc c (s.proc w) s.sched ≡ done sched
      → up_to c sem wt_ksem (some w) s ≡ done handed
  unfolding wakeup_wait wake
  woken ws q flags wakes =
      let same : ((s.sched.procs (s.proc w)).wait_state == wt_ksem) ≡ true = rw flags refl in
      rw (same, first_leaves s sem w ws q, wakes) refl

  pub up-first :
      (ws : List ℕ)
      → Waiting s sem (w ∷ ws)
      → (s.sched.procs (s.proc w)).wait_state ≡ wt_ksem
      → wakeup_proc c (s.proc w) s.sched ≡ done sched
      → up c sem s ≡ done handed
  unfolding up up_with
  up-first ws q flags wakes =
      ap (λ o. up_to c sem wt_ksem o s) (first_waits s sem w ws q) ∙ woken ws q flags wakes

  -- The process that was woken up finds its entry out of the queue.
  pub down_end-handed :
      (ws : List ℕ) → Waiting s sem (w ∷ ws) → down_end sem w wt_ksem handed ≡ done (0, handed)
  unfolding down_end wait_current_del wait_in_queue
  down_end-handed ws q = let out = (del_init-Ring [] ws w q.ring).1 in rw (out, ==-refl w) refl

-- `up` of a semaphore that processes wait for wakes up the one that waits longest, if that is asleep
-- for a semaphore and `wakeup_proc` returns. The others keep their order, and the rest of that
-- process's `down` returns 0 at once; the value stays as it is, so that no other can take it before.
pub up_lem :
    (c : Class) (s : Sync) (sem w : ℕ) (ws : List ℕ) (sched : Sched)
    → Waiting s sem (w ∷ ws)
    → (s.sched.procs (s.proc w)).wait_state ≡ wt_ksem
    → wakeup_proc c (s.proc w) s.sched ≡ done sched
    → (s' : Sync) × (up c sem s ≡ done s')
      × (s'.sched ≡ sched)
      × (s'.value ≡ s.value)
      × Waiting s' sem ws
      × (down_end sem w wt_ksem s' ≡ done (0, s'))
up_lem c s sem w ws sched q flags wakes = (
  handed c s sem w sched,
  up-first c s sem w sched ws q flags wakes,
  refl,
  refl,
  record { ring = (del_init-Ring [] ws w q.ring).0; here = q.here.1 },
  down_end-handed c s sem w sched ws q,
)

-- The state in which the current process waits with the entry `w`.
abbrev pub joined : ℕ → ℕ → Sync → Sync
joined sem w s =
    let here = s.sched.current in
    record s {
      sched =
          set_proc here (record (s.sched.procs here) { state = sleeping; wait_state = wt_ksem })
            s.sched;
      proc = update s.proc w here;
      wakeup_flags = update s.wakeup_flags w wt_interrupted;
      wait_queue = update s.wait_queue w sem;
      wait_link = Links.add_before sem w (Links.init w s.wait_link);
    }

keep_queue :
    (f : ℕ → ℕ) (sem w : ℕ) (ws : List ℕ)
    → All (λ x. f x ≡ sem) ws
    → All (λ x. update f w sem x ≡ sem) ws
keep_queue f sem w [] h = tt
keep_queue f sem w (x ∷ ws) h = (ground (arith, h.0), keep_queue f sem w ws h.1)

-- `down` of a semaphore with the value 0 puts the current process to sleep behind all others that
-- wait for it; the value is as it was.
pub down_begin_lem :
    (s : Sync) (sem w : ℕ) (ws : List ℕ)
    → Waiting s sem ws
    → w ∉ (sem ∷ ws)
    → s.value sem ≡ 0
    → s.sched.current ≢ null
    → (down_begin sem w wt_ksem s ≡ done (false, joined sem w s))
      × Waiting (joined sem w s) sem (ws ++ w ∷ [])
unfolding down_begin wait_current_set wait_queue_add wait_init
down_begin_lem s sem w ws q out zero_value there =
    let here : ℕ = s.sched.current in
    let (fresh, lone) = init_other-Ring ws w q.ring out in
    let empty : ltb 0 (s.value sem) ≡ false = ltb-false (omega (arith, zero_value)) in
    (
      rw (empty, ==-ne there, lone, ==-refl w, ==-ne there) refl,
      record {
        ring =
            add_before-Ring ws [] w
              (subst (λ l. Ring (Links.init w s.wait_link) sem l) (sym (append-nil ws)) fresh)
              (out.0, subst (λ l. w ∉ l) (sym (append-nil ws)) out.1);
        here =
            All-append _ ws (w ∷ []) (keep_queue s.wait_queue sem w ws q.here)
              (update-at s.wait_queue w sem, tt);
      },
    )
