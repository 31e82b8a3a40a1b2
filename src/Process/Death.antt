-- ===== src/Process/Death.antt =====
-- The part of `do_wait` with interrupts off: what it does to the numbers, the table and the tree.
use mathlib.Core.Path.{subst}
use mathlib.Core.List.{map, map-append}
use oshub.Prelude.{
  ℕ, ◌≤◌, ◌<◌, ◌≡◌, ◌≢◌, sym, ◌∙◌, arith, List, [], ◌∷◌, ◌++◌, length, length-append, All, ◌∉◌,
  Distinct,
}
use oshub.Links.Ring.{del-Ring}
use oshub.Links.Chain.{Distinct-delete, not-mem_of_Distinct}
use oshub.Sched.{null}
use oshub.Process.{Procs, remove_links, unhash_proc, find_proc}
use oshub.Process.Numbers.{Numbers}
use oshub.Process.Table.{Table, find_proc_lem, first_with-none}
use oshub.Process.Hashing.{unhash_proc-Table, split_All}
use oshub.Process.Children.{Children, remove_links-Children}
use oshub.Process.Calls.{reap}

map-not-mem : (f : ℕ → ℕ) (n : ℕ) (xs : List ℕ) → n ∉ map f xs → All (λ x. f x ≢ n) xs
map-not-mem f n [] out = tt
map-not-mem f n (x ∷ xs) out = (λ e. out.0 (sym e), map-not-mem f n xs out.1)

module _ (s : Procs) (xs ys : List ℕ) (p : ℕ) where
  pids_split :
      Distinct (map s.pid (xs ++ p ∷ ys)) → Distinct (map s.pid xs ++ s.pid p ∷ map s.pid ys)
  pids_split d = subst Distinct (map-append s.pid xs (p ∷ ys)) d

  reap-Numbers : Numbers s (xs ++ p ∷ ys) → Numbers (reap p s) (xs ++ ys)
  unfolding reap remove_links unhash_proc
  reap-Numbers v = record {
    ring = del-Ring xs ys p v.ring;
    distinct =
        subst Distinct (sym (map-append s.pid xs ys))
          (Distinct-delete (s.pid p) (map s.pid xs) (map s.pid ys) (pids_split v.distinct));
    counted = omega (arith, v.counted, length-append {0} xs (p ∷ ys), length-append {0} xs ys);
    safe = v.safe;
    gap = split_All (λ x. s.last_pid < s.pid x → s.next_safe ≤ s.pid x) xs ys p v.gap;
  }

  reap-Table : Table s (xs ++ p ∷ ys) → Table (reap p s) (xs ++ ys)
  unfolding reap remove_links
  reap-Table v =
      let w = unhash_proc-Table s xs ys p v in record { rings = w.rings; range = w.range }

  reap_forgets :
      Distinct (map s.pid (xs ++ p ∷ ys)) → All (λ x. (reap p s).pid x ≢ s.pid p) (xs ++ ys)
  unfolding reap remove_links unhash_proc
  reap_forgets d = map-not-mem s.pid (s.pid p) (xs ++ ys) (
      subst (λ k. s.pid p ∉ k) (sym (map-append s.pid xs ys))
        (not-mem_of_Distinct (s.pid p) (map s.pid xs) (map s.pid ys) (pids_split d)))

  reap-Children :
      (parent : ℕ) (ks ms : List ℕ)
      → Children s parent (ks ++ p ∷ ms)
      → Children (reap p s) parent (ks ++ ms)
        × ((q : ℕ) (zs : List ℕ) → q ≢ parent → Children s q zs → Children (reap p s) q zs)
  unfolding reap unhash_proc
  reap-Children parent ks ms w =
      let (mine, others) =
        remove_links-Children (unhash_proc p s) p parent ks ms
          (record { row = w.row; parents = w.parents; distinct = w.distinct }) in
      (
        mine,
        λ q zs ne u.
            others q zs ne (record { row = u.row; parents = u.parents; distinct = u.distinct }),
      )

-- A child that is reaped leaves the list of processes, the hash table and the children of its
-- parent, which stay in order without it; `find_proc` finds nothing by its number from then on, and
-- the children of every other process stay.
pub reap_lem :
    (f : ℕ) (s : Procs) (xs ys ks ms : List ℕ) (p parent : ℕ)
    → Numbers s (xs ++ p ∷ ys)
    → Table s (xs ++ p ∷ ys)
    → Children s parent (ks ++ p ∷ ms)
    → length (xs ++ ys) < f
    → Numbers (reap p s) (xs ++ ys)
      × Table (reap p s) (xs ++ ys)
      × Children (reap p s) parent (ks ++ ms)
      × (find_proc f (s.pid p) (reap p s) ≡ null)
      × ((q : ℕ) (zs : List ℕ) → q ≢ parent → Children s q zs → Children (reap p s) q zs)
reap_lem f s xs ys ks ms p parent v t w fuel =
    let t' = reap-Table s xs ys p t in
    let (mine, others) = reap-Children s xs ys p parent ks ms w in
    (
      reap-Numbers s xs ys p v,
      t',
      mine,
      find_proc_lem f (s.pid p) (reap p s) (xs ++ ys) t' fuel
          ∙ first_with-none (reap p s).pid (s.pid p) (xs ++ ys) (reap_forgets s xs ys p v.distinct),
      others,
    )
