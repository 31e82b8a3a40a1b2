-- ===== src/Process/Numbers.antt =====
-- `get_pid` of proc.c, with the range of free numbers that it keeps between its calls.
use mathlib.Core.List.{map}
use oshub.Prelude.{
  ℕ, ◌+◌, ◌*◌, ◌≤◌, ◌<◌, ◌≡◌, ◌≢◌, inl, inr, refl, sym, leb-true, leb-false, lt-cases, arith,
  Option, some, List, [], ◌∷◌, length, All, All-mono, Distinct,
}
use oshub.Links.Ring.{Ring}
use oshub.Process.{Procs, max_pid, proc_list, search_pid, get_pid, numbered}
use oshub.Process.Pid.{free_number, Passed, away, search_pid-Found}

-- `proc_list` holds the processes `xs`, their numbers differ, and none lies strictly between
-- `last_pid` and `next_safe`; `nr_process` counts them and `idleproc`, which is not in the list.
pub record Numbers (s : Procs) (xs : List ℕ) : Type 0 where
  pub ring : Ring s.list_links proc_list xs
  pub distinct : Distinct (map s.pid xs)
  pub counted : s.nr_process ≡ length xs + 1
  pub safe : s.next_safe ≤ max_pid
  pub gap : All (λ x. s.last_pid < s.pid x → s.next_safe ≤ s.pid x) xs

All-map : (P : ℕ → Type 0) (f : ℕ → ℕ) (xs : List ℕ) → All P (map f xs) → All (λ x. P (f x)) xs
All-map P f [] h = tt
All-map P f (x ∷ xs) h = (h.0, All-map P f xs h.1)

length-map : (f : ℕ → ℕ) (xs : List ℕ) → length (map f xs) ≡ length xs
length-map f [] = refl
length-map f (x ∷ xs) = omega (arith, length-map f xs)

away-lt : (free from : ℕ) → free < max_pid → away free from < 2 * max_pid
away-lt free from lt = ground arith

enough : (d b n f : ℕ) → d < b → b * (n + 1) ≤ f → d * (n + 1) + n < f
enough d b n f lt le = grind arith

-- The new number, and what `next_safe` becomes.
abbrev Given : Procs → List ℕ → Option (ℕ × ℕ) → Type 0
Given s xs r =
    (p : ℕ) × (n : ℕ) × (r ≡ some (p, n))
    × (0 < p)
    × (p < n)
    × (n ≤ max_pid)
    × All (λ x. Passed p n (s.pid x)) xs

module _ (f : ℕ) (s : Procs) (xs : List ℕ) where
  searched :
      (from : ℕ)
      → Ring s.list_links proc_list xs
      → 0 < from
      → from < max_pid
      → length xs + 1 < max_pid
      → 2 * max_pid * (length xs + 1) ≤ f
      → Given s xs
          (search_pid f s.list_links s.pid (record { le = proc_list; last = from; safe = max_pid }))
  searched from r pos lt room fuel =
      let (free, fp, fl, out) =
        free_number 8191 (map s.pid xs) (omega (arith, length-map s.pid xs)) in
      let taken : All (λ x. s.pid x ≢ free) xs =
        All-map (λ n. n ≢ free) s.pid xs (All-mono _ _ (map s.pid xs) (λ a ne e. ne (sym e)) out) in
      search_pid-Found s.list_links s.pid xs free f
        (record { le = proc_list; last = from; safe = max_pid }) [] xs r.chain r.distinct.0 fp
        (omega arith) taken refl r.chain r.distinct.0 taken pos lt (omega arith) tt
        (enough (away free from) _ (length xs) f (away-lt free from (omega arith)) fuel)

-- With at most 8190 processes and fuel for 16384 passes over their list, `get_pid` returns a number
-- from 1 to 8191 that no process has, and the list and the range of free numbers are in order.
pub get_pid_lem :
    (f : ℕ) (s : Procs) (xs : List ℕ)
    → Numbers s xs
    → length xs + 1 < max_pid
    → 2 * max_pid * (length xs + 1) ≤ f
    → (p : ℕ) × (n : ℕ) × (get_pid f s ≡ some (p, record s { last_pid = p; next_safe = n }))
      × (0 < p)
      × (p < max_pid)
      × All (λ x. s.pid x ≢ p) xs
      × Numbers (record s { last_pid = p; next_safe = n }) xs
unfolding get_pid
get_pid_lem f s xs v room fuel = elim (lt-cases (s.last_pid + 1) max_pid) [
  | inr over ↦
      rw (leb-true over) (settle (searched f s xs 1 v.ring (omega arith) (omega arith) room fuel))
  | inl lt ↦ elim (lt-cases (s.last_pid + 1) s.next_safe) [
    | inr used ↦
        rw (leb-false lt, leb-true used)
          (settle (searched f s xs (s.last_pid + 1) v.ring (omega arith) lt room fuel))
    | inl free ↦
        rw (leb-false lt, leb-false free)
          (settle (
            s.last_pid + 1,
            s.next_safe,
            refl,
            omega arith,
            free,
            v.safe,
            All-mono _ _ xs (λ x. between free (s.pid x)) v.gap,
          ))
  ]
]
  where
    between :
        s.last_pid + 1 < s.next_safe
        → (n : ℕ) → (s.last_pid < n → s.next_safe ≤ n)
        → Passed (s.last_pid + 1) s.next_safe n
    between free n h = (λ e. absurd (omega (arith, h (omega (arith, e)), e)), λ lt. h (omega arith))

    settle :
        {r : Option (ℕ × ℕ)}
        → Given s xs r
        → (p : ℕ) × (n : ℕ) × (numbered s r ≡ some (p, record s { last_pid = p; next_safe = n }))
          × (0 < p)
          × (p < max_pid)
          × All (λ x. s.pid x ≢ p) xs
          × Numbers (record s { last_pid = p; next_safe = n }) xs
    settle (p, n, e, pos, lt, le, ps) = (
      p,
      n,
      rw e refl,
      pos,
      omega arith,
      All-mono _ _ xs (λ x h. h.0) ps,
      record {
        ring = v.ring;
        distinct = v.distinct;
        counted = v.counted;
        safe = le;
        gap = All-mono _ _ xs (λ x h. h.1) ps;
      },
    )
