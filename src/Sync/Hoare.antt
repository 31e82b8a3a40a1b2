-- ===== src/Sync/Hoare.antt =====
-- The handover between the process that signals a condition variable and the one that waits for it.
use oshub.Prelude.{
  ℕ, ◌+◌, ◌<◌, ◌≡◌, ◌≢◌, refl, sym, ap, ◌∙◌, true, false, ltb-true, update, update-at, update-other,
  ==-ne, done, Run, ◌>>=◌, List, [], ◌∷◌, ◌++◌, All, All-mono, ◌∉◌,
}
use oshub.Links
use oshub.Links.Ring.{init_other-Ring, del_init-Ring, is_empty-add_before}
use oshub.Links.Other.{Apart, Apart-sym, add_before-other, del_init-other}
use oshub.Sched.{Sched, Class, sleeping, null, set_proc, wakeup_proc}
use oshub.Sync.Wait.{Sync, wt_interrupted, wait_current_del, wait_in_queue}
use oshub.Sync.Sem.{down_begin, down_end, wt_ksem}
use oshub.Sync.Handover.{Waiting, handed, joined, up-first, down_begin_lem}
use oshub.Sync.Monitor.{Monitors, add_next, signal_paused, cond_signal_begin}

-- Another queue while `up` takes the first entry of one.
handed-other :
    (c : Class) (s : Sync) (sem w other : ℕ) (t : Sched) (ws ns : List ℕ)
    → Waiting s sem (w ∷ ws)
    → Waiting s other ns
    → Apart (sem ∷ w ∷ ws) (other ∷ ns)
    → Waiting (handed c s sem w t) other ns
handed-other c s sem w other t ws ns q o apart = record {
  ring = del_init-other [] ws ns w o.ring q.ring apart;
  here = o.here;
}

keep_here :
    (f : ℕ → ℕ) (w v other : ℕ) (ns : List ℕ)
    → w ∉ ns
    → All (λ x. f x ≡ other) ns
    → All (λ x. update f w v x ≡ other) ns
keep_here f w v other [] out h = tt
keep_here f w v other (x ∷ ns) out h =
    (update-other f w v x (λ e. out.0 (sym e)) ∙ h.0, keep_here f w v other ns out.1 h.1)

-- Another queue while the current process joins one.
joined-other :
    (s : Sync) (sem w other : ℕ) (ws ns : List ℕ)
    → Waiting s sem ws
    → Waiting s other ns
    → w ∉ (sem ∷ ws)
    → w ∉ (other ∷ ns)
    → Apart (sem ∷ ws) (other ∷ ns)
    → Waiting (joined sem w s) other ns
joined-other s sem w other ws ns q o out out' apart = record {
  ring =
      add_before-other ws ns w (init_other-Ring ns w o.ring out').0
        (init_other-Ring ws w q.ring out).0 apart out';
  here = keep_here s.wait_queue w sem other ns out'.1 o.here;
}

init-lone :
    (w v : ℕ) (l : Links.Links)
    → v ≢ w
    → Links.is_empty v l ≡ true
    → Links.is_empty v (Links.init w l) ≡ true
unfolding Links.is_empty Links.init
init-lone w v l ne e = rw (==-ne ne) e

-- A process out of every queue stays so while another one joins a queue.
still_out :
    (s : Sync) (own sem w v : ℕ) (ns : List ℕ)
    → Waiting s sem ns
    → w ∉ (sem ∷ ns)
    → v ≢ w
    → v ∉ (sem ∷ ns)
    → Links.is_empty v s.wait_link ≡ true
    → s.wakeup_flags v ≡ wt_ksem
    → down_end own v wt_ksem (joined sem w s) ≡ done (0, joined sem w s)
unfolding down_end wait_current_del wait_in_queue
still_out s own sem w v ns q out ne vout lone flags =
    let first : Links.is_empty v (Links.init w s.wait_link) ≡ true =
      init-lone w v s.wait_link ne lone in
    let then_too : Links.is_empty v (Links.add_before sem w (Links.init w s.wait_link)) ≡ true =
      is_empty-add_before ns w v (init_other-Ring ns w q.ring out).0 ne vout.0 vout.1 ∙ first in
    rw (then_too, update-other s.wakeup_flags w wt_interrupted v ne, flags) refl

-- What `cond_signal` leaves when it sleeps: it has woken up the first process that waits.
abbrev pub paused : Class → ℕ → ℕ → ℕ → Sched → Monitors → Monitors
paused c cv wait w t s =
    let mt = s.owner cv in
    record s {
      next_count = update s.next_count mt (s.next_count mt + 1);
      sync = joined (s.next mt) wait (handed c s.sync cv w t);
    }

-- The scheduler with the current process asleep for a semaphore, and nothing else changed.
abbrev pub asleep : Sched → Sched
asleep t =
    set_proc t.current (record (t.procs t.current) { state = sleeping; wait_state = wt_ksem }) t

-- `cond_signal` of a condition variable that processes wait for wakes up the one that waits
-- longest, whose `down` returns 0 at once, and puts the signalling process to sleep behind the
-- others that wait for `next` of the monitor, as the one more of which `next_count` tells. The
-- scheduler is as `wakeup_proc` of the process woken up leaves it, but that the current process is
-- then asleep for a semaphore. Its
-- conditions: the count is above 0, the first process sleeps for a semaphore and `wakeup_proc`
-- returns, `next` has the value 0, and the two queues share no entry and not the new one.
pub cond_signal_lem :
    (c : Class) (s : Monitors) (cv wait w : ℕ) (ws ns : List ℕ) (t : Sched)
    → 0 < s.count cv
    → Waiting s.sync cv (w ∷ ws)
    → Waiting s.sync (s.next (s.owner cv)) ns
    → Apart (cv ∷ w ∷ ws) (s.next (s.owner cv) ∷ ns)
    → wait ∉ (s.next (s.owner cv) ∷ ns)
    → wait ∉ (cv ∷ w ∷ ws)
    → (s.sync.sched.procs (s.sync.proc w)).wait_state ≡ wt_ksem
    → wakeup_proc c (s.sync.proc w) s.sync.sched ≡ done t
    → s.sync.value (s.next (s.owner cv)) ≡ 0
    → t.current ≢ null
    → (s' : Monitors) × (cond_signal_begin c cv wait s ≡ done (false, s'))
      × Waiting s'.sync cv ws
      × Waiting s'.sync (s.next (s.owner cv)) (ns ++ wait ∷ [])
      × (s'.next_count (s.owner cv) ≡ s.next_count (s.owner cv) + 1)
      × (s'.count ≡ s.count)
      × (s'.sync.sched ≡ asleep t)
      × (down_end cv w wt_ksem s'.sync ≡ done (0, s'.sync))
unfolding cond_signal_begin
cond_signal_lem c s cv wait w ws ns t pos q o apart out out' flags wakes zero_value there =
    let mt : ℕ = s.owner cv in
    let nx : ℕ = s.next mt in
    let y : Sync = handed c s.sync cv w t in
    let left = del_init-Ring [] ws w q.ring in
    let rest : Waiting y cv ws = record { ring = left.0; here = q.here.1 } in
    let other : Waiting y nx ns = handed-other c s.sync cv w nx t ws ns q o apart in
    let slept = down_begin_lem y nx wait ns other out zero_value there in
    let s1 : Monitors = add_next mt (s.next_count mt + 1) s in
    (
      paused c cv wait w t s,
      rw (ltb-true pos) (
          ap
            (λ (m : Run Sync).
              m >>= down_begin nx wait wt_ksem >>= λ r. done (signal_paused mt s1 r))
            (up-first c s.sync cv w t ws q flags wakes)
          ∙ ap (λ m. m >>= λ r. done (signal_paused mt s1 r)) slept.0),
      joined-other y nx wait cv ns ws other rest out (out'.0, out'.1.1)
          (All-mono _ (λ x. x ∉ (cv ∷ ws)) (nx ∷ ns) (λ x h. (h.0, h.1.1))
            (Apart-sym (cv ∷ w ∷ ws) (nx ∷ ns) apart)),
      slept.1,
      update-at s.next_count mt (s.next_count mt + 1),
      refl,
      refl,
      still_out y cv nx wait w ns other out (λ e. out'.1.0 (sym e)) apart.1.0 left.1
          (update-at s.sync.wakeup_flags w wt_ksem),
    )
