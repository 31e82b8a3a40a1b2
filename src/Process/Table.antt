-- ===== src/Process/Table.antt =====
-- `find_proc` of proc.c and its hash table: each bucket holds the processes with its hash, in the
-- order of `proc_list`, since `do_fork` puts a process at the front of both.
use mathlib.Core.List.{map}
use oshub.Prelude.{
  ℕ, zero, suc, ◌+◌, ◌-◌, ◌≤◌, ◌<◌, ◌≡◌, ◌≢◌, inl, inr, refl, sym, ◌∙◌, true, false, ◌==◌, ==-refl,
  ==-ne, ltb, ◌&&◌, if◌then◌else◌, Bool-cases, eq-cases, ltb-true, arith, List, [], ◌∷◌, length,
  All, ◌∉◌,
}
use oshub.Links.Chain.{Chain}
use oshub.Links.Ring.{Ring}
use oshub.Sched.{null}
use oshub.Process.{
  Procs, max_pid, hash_list_size, hash32, pid_hashfn, hash_link, find_in, find_proc,
}

-- The processes of `xs` in the bucket `b`.
abbrev pub bucket : (ℕ → ℕ) → ℕ → List ℕ → List ℕ
bucket pid b [] = []
bucket pid b (x ∷ xs) =
    let rest = bucket pid b xs in if pid_hashfn (pid x) == b then x ∷ rest else rest

-- The hash table holds the processes `xs`, whose numbers are from 1 to 8191.
pub record Table (s : Procs) (xs : List ℕ) : Type 0 where
  pub rings : (b : ℕ) → b < hash_list_size → Ring s.hash_links b (map hash_link (bucket s.pid b xs))
  pub range : All (λ x. (0 < s.pid x) × (s.pid x < max_pid)) xs

-- The first process of the list with the number `n`, or NULL.
abbrev pub first_with : (ℕ → ℕ) → ℕ → List ℕ → ℕ
first_with pid n [] = null
first_with pid n (x ∷ xs) = let rest = first_with pid n xs in if pid x == n then x else rest

pub pid_hashfn-lt : (n : ℕ) → pid_hashfn n < hash_list_size
unfolding hash32
pid_hashfn-lt n = omega arith

find_in-first_with :
    (f list le n : ℕ) (s : Procs) (zs : List ℕ)
    → Chain s.hash_links le (map hash_link zs) list
    → list ∉ map hash_link zs
    → length zs < f
    → find_in f list le n s ≡ first_with s.pid n zs
unfolding find_in
find_in-first_with zero list le n s zs c out lt = absurd (omega arith)
find_in-first_with (suc f) list le n s [] c out lt = rw (c.0, ==-refl list) refl
find_in-first_with (suc f) list le n s (z ∷ zs) c out lt =
    let more : (hash_link z == list) ≡ false = ==-ne (λ e. out.0 (sym e)) in
    let back : z + hash_list_size - hash_list_size ≡ z = omega arith in
    rw (c.0.0, more, back, find_in-first_with f list (hash_link z) n s zs c.1 out.1 (omega arith))
      refl

-- The bucket of a number has all processes with that number.
first_with-bucket :
    (pid : ℕ → ℕ) (n : ℕ) (xs : List ℕ)
    → first_with pid n (bucket pid (pid_hashfn n) xs) ≡ first_with pid n xs
first_with-bucket pid n [] = refl
first_with-bucket pid n (x ∷ xs) = elim (eq-cases (pid x) n) [
  | inl e ↦
      let same : (pid x == n) ≡ true = rw e (==-refl n) in
      let hashed : (pid_hashfn (pid x) == pid_hashfn n) ≡ true = rw e (==-refl (pid_hashfn n)) in
      rw (hashed, same) refl
  | inr ne ↦ elim (Bool-cases (pid_hashfn (pid x) == pid_hashfn n)) [
    | inl h ↦ rw (h, ==-ne ne) (first_with-bucket pid n xs)
    | inr h ↦ rw (h, ==-ne ne) (first_with-bucket pid n xs)
  ]
]

length-bucket : (pid : ℕ → ℕ) (b : ℕ) (xs : List ℕ) → length (bucket pid b xs) ≤ length xs
length-bucket pid b [] = omega arith
length-bucket pid b (x ∷ xs) = elim (Bool-cases (pid_hashfn (pid x) == b)) [
  | inl h ↦ rw h (omega (arith, length-bucket pid b xs))
  | inr h ↦ rw h (omega (arith, length-bucket pid b xs))
]

pub first_with-none :
    (pid : ℕ → ℕ) (n : ℕ) (xs : List ℕ) → All (λ x. pid x ≢ n) xs → first_with pid n xs ≡ null
first_with-none pid n [] all = refl
first_with-none pid n (x ∷ xs) all = rw (==-ne all.0) (first_with-none pid n xs all.1)

-- `find_proc` finds through the hash table the process that a search of all processes would find,
-- for every number, also for those out of range.
pub find_proc_lem :
    (f n : ℕ) (s : Procs) (xs : List ℕ)
    → Table s xs
    → length xs < f
    → find_proc f n s ≡ first_with s.pid n xs
unfolding find_proc
find_proc_lem f n s xs v fuel = elim (Bool-cases (ltb 0 n && ltb n max_pid)) [
  | inl h ↦
      let ring = v.rings (pid_hashfn n) (pid_hashfn-lt n) in
      rw h (
        find_in-first_with f (pid_hashfn n) (pid_hashfn n) n s (bucket s.pid (pid_hashfn n) xs)
          ring.chain ring.distinct.0 (omega (arith, length-bucket s.pid (pid_hashfn n) xs))
        ∙ first_with-bucket s.pid n xs)
  | inr h ↦ rw h (sym (first_with-none s.pid n xs (beyond h xs v.range)))
]
  where
    beyond :
        (ltb 0 n && ltb n max_pid) ≡ false
        → (xs : List ℕ) → All (λ x. (0 < s.pid x) × (s.pid x < max_pid)) xs
        → All (λ x. s.pid x ≢ n) xs
    beyond h [] all = tt
    beyond h (x ∷ xs) all = (
      λ e.
          let low : 0 < n = omega (arith, all.0, e) in
          let high : n < max_pid = omega (arith, all.0, e) in
          let inside : (ltb 0 n && ltb n max_pid) ≡ true = rw (ltb-true low, ltb-true high) refl in
          cc,
      beyond h xs all.1,
    )
