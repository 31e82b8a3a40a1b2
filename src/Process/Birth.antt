-- ===== src/Process/Birth.antt =====
-- The part of `do_fork` with interrupts off: what it does to the numbers, the table and the tree.
use mathlib.Core.Path.{subst}
use mathlib.Core.List.{map}
use oshub.Prelude.{
  ℕ, ◌+◌, ◌*◌, ◌≤◌, ◌<◌, ◌≡◌, ◌≢◌, refl, sym, ◌∙◌, ap, ◌==◌, ==-refl, if◌then◌else◌, update,
  update-at, update-other, arith, some, List, [], ◌∷◌, length, All, ◌∉◌, Distinct,
}
use oshub.Links.Ring.{Ring, add-Ring}
use oshub.Sched.{null}
use oshub.Process.{Procs, max_pid, pid_hashfn, hash_link, youngest, set_links, hash_proc, find_proc}
use oshub.Process.Numbers.{Numbers, get_pid_lem}
use oshub.Process.Table.{bucket, Table, first_with, find_proc_lem}
use oshub.Process.Hashing.{hash_proc-Table}
use oshub.Process.Children.{Children, set_links-Children}
use oshub.Process.Calls.{enter, placed}

pub All-update :
    (P : ℕ → Type 0) (f : ℕ → ℕ) (p v : ℕ) (xs : List ℕ)
    → p ∉ xs
    → All (λ x. P (f x)) xs
    → All (λ x. P (update f p v x)) xs
All-update P f p v [] out all = tt
All-update P f p v (x ∷ xs) out all = (
  subst P (sym (update-other f p v x (λ e. out.0 (sym e)))) all.0,
  All-update P f p v xs out.1 all.1,
)

pub map-update : (f : ℕ → ℕ) (p v : ℕ) (xs : List ℕ) → p ∉ xs → map (update f p v) xs ≡ map f xs
map-update f p v [] out = refl
map-update f p v (x ∷ xs) out =
    let same : update f p v x ≡ f x = update-other f p v x (λ e. out.0 (sym e)) in
    λ i. same i ∷ map-update f p v xs out.1 i

bucket-update :
    (pid : ℕ → ℕ) (p v b : ℕ) (xs : List ℕ)
    → p ∉ xs
    → bucket (update pid p v) b xs ≡ bucket pid b xs
bucket-update pid p v b [] out = refl
bucket-update pid p v b (x ∷ xs) out =
    let same : update pid p v x ≡ pid x = update-other pid p v x (λ e. out.0 (sym e)) in
    let rest = bucket-update pid p v b xs out.1 in
    λ i. if pid_hashfn (same i) == b then x ∷ rest i else rest i

not-mem-map : (f : ℕ → ℕ) (n : ℕ) (xs : List ℕ) → All (λ x. f x ≢ n) xs → n ∉ map f xs
not-mem-map f n [] all = tt
not-mem-map f n (x ∷ xs) all = (λ e. all.0 (sym e), not-mem-map f n xs all.1)

module _ (s : Procs) (xs : List ℕ) (p n : ℕ) (out : p ∉ xs) where
  abbrev pub renumbered : Procs
  renumbered = record s { pid = update s.pid p n }

  pub renumbered-Table : Table s xs → Table renumbered xs
  renumbered-Table v = record {
    rings = λ b lb.
        subst (λ k. Ring s.hash_links b (map hash_link k)) (sym (bucket-update s.pid p n b xs out))
          (v.rings b lb);
    range = All-update (λ k. (0 < k) × (k < max_pid)) s.pid p n xs out v.range;
  }

  pub placed-Table :
      Table s xs → 0 < n → n < max_pid → Table (set_links p (hash_proc p renumbered)) (p ∷ xs)
  unfolding set_links youngest hash_proc
  placed-Table v pos lt =
      let at : update s.pid p n p ≡ n = update-at s.pid p n in
      let w =
        hash_proc-Table renumbered xs p (renumbered-Table v) out (subst (λ k. 0 < k) (sym at) pos)
          (subst (λ k. k < max_pid) (sym at) lt) in
      record { rings = w.rings; range = w.range }

  pub placed-Numbers :
      Numbers s xs
      → p ≢ null
      → All (λ x. s.pid x ≢ n) xs
      → n ≡ s.last_pid
      → Numbers (set_links p (hash_proc p renumbered)) (p ∷ xs)
  unfolding set_links youngest hash_proc
  placed-Numbers v np new last =
      let at : update s.pid p n p ≡ n = update-at s.pid p n in
      record {
        ring = add-Ring [] xs p v.ring (np, out);
        distinct = (
          subst (λ k. k ∉ map (update s.pid p n) xs) (sym at)
              (subst (λ k. n ∉ k) (sym (map-update s.pid p n xs out)) (not-mem-map s.pid n xs new)),
          subst Distinct (sym (map-update s.pid p n xs out)) v.distinct,
        );
        counted = omega (arith, v.counted);
        safe = v.safe;
        gap = (
          λ lt. absurd (omega (arith, lt, at, last)),
          All-update (λ k. s.last_pid < k → s.next_safe ≤ k) s.pid p n xs out v.gap,
        );
      }

  placed-Children :
      (ks : List ℕ)
      → Children s (s.parent p) ks
      → p ≢ null
      → p ∉ ks
      → Children (set_links p (hash_proc p renumbered)) (s.parent p) (p ∷ ks)
  unfolding hash_proc
  placed-Children ks w np fresh =
      (set_links-Children (hash_proc p renumbered) p (s.parent p) ks
        (record { row = w.row; parents = w.parents; distinct = w.distinct }) np fresh refl).0

  placed-sched : (set_links p (hash_proc p renumbered)).sched ≡ s.sched
  unfolding set_links youngest hash_proc
  placed-sched = refl

  placed-pid : (set_links p (hash_proc p renumbered)).pid ≡ update s.pid p n
  unfolding set_links youngest hash_proc
  placed-pid = refl

-- A new process, which its parent already knows by `parent`, gets a number that no other process
-- has, the others keep theirs, and `find_proc` finds it by this number; the numbers, the hash
-- table and the list of processes are in order with it, and it is the youngest child of its parent.
-- The scheduler does not change.
pub enter_lem :
    (f : ℕ) (s : Procs) (xs ks : List ℕ) (p : ℕ)
    → Numbers s xs
    → Table s xs
    → Children s (s.parent p) ks
    → p ≢ null
    → p ∉ xs
    → p ∉ ks
    → length xs + 1 < max_pid
    → 2 * max_pid * (length xs + 1) ≤ f
    → (s' : Procs) × (enter f p s ≡ some s')
      × Numbers s' (p ∷ xs)
      × Table s' (p ∷ xs)
      × Children s' (s.parent p) (p ∷ ks)
      × (find_proc f (s'.pid p) s' ≡ p)
      × All (λ x. s.pid x ≢ s'.pid p) xs
      × ((q : ℕ) → q ≢ p → s'.pid q ≡ s.pid q)
      × (s'.sched ≡ s.sched)
unfolding enter
enter_lem f s xs ks p v t w np out fresh room fuel =
    let (n, safe, e, pos, lt, new, v') = get_pid_lem f s xs v room fuel in
    let s0 : Procs = record s { last_pid = n; next_safe = safe } in
    let s' : Procs = set_links p (hash_proc p (record s0 { pid = update s.pid p n })) in
    let t' : Table s' (p ∷ xs) =
      placed-Table s0 xs p n out (record { rings = t.rings; range = t.range }) pos lt in
    let pids : s'.pid ≡ update s.pid p n = placed-pid s0 xs p n out in
    let mine : s'.pid p ≡ n = ap (λ k. k p) pids ∙ update-at s.pid p n in
    let first : first_with s'.pid (s'.pid p) (p ∷ xs) ≡ p = rw (==-refl (s'.pid p)) refl in
    (
      s',
      ap (placed p) e,
      placed-Numbers s0 xs p n out v' np new refl,
      t',
      placed-Children s0 xs p n out ks
          (record { row = w.row; parents = w.parents; distinct = w.distinct }) np fresh,
      find_proc_lem f (s'.pid p) s' (p ∷ xs) t' (omega (arith, fuel)) ∙ first,
      subst (λ k. All (λ x. s.pid x ≢ k) xs) (sym mine) new,
      λ q ne. ap (λ k. k q) pids ∙ update-other s.pid p n q ne,
      placed-sched s0 xs p n out,
    )
