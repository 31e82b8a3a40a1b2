-- ===== src/Process/Hashing.antt =====
-- `hash_proc` and `unhash_proc` of proc.c on the hash table.
use mathlib.Core.Path.{subst}
use mathlib.Core.List.{map}
use oshub.Prelude.{
  ℕ, ◌<◌, ◌≡◌, ◌≢◌, inl, inr, refl, sym, ◌∙◌, ap, true, ◌==◌, ==-refl, ==-ne, Bool-cases, eq-cases,
  arith, List, [], ◌∷◌, ◌++◌, All, All-left, All-right, All-append, ◌∉◌,
}
use oshub.Links
use oshub.Links.Ring.{Ring, add-Ring, del-Ring}
use oshub.Links.Other.{Apart, add-other, del-other}
use oshub.Process.{Procs, max_pid, hash_list_size, pid_hashfn, hash_link, hash_proc, unhash_proc}
use oshub.Process.Table.{bucket, Table, pid_hashfn-lt}

abbrev nodes : (ℕ → ℕ) → ℕ → List ℕ → List ℕ
nodes pid b xs = map hash_link (bucket pid b xs)

nodes-append :
    (pid : ℕ → ℕ) (b : ℕ) (xs ys : List ℕ)
    → nodes pid b (xs ++ ys) ≡ nodes pid b xs ++ nodes pid b ys
nodes-append pid b [] ys = refl
nodes-append pid b (x ∷ xs) ys = elim (Bool-cases (pid_hashfn (pid x) == b)) [
  | inl h ↦ rw (h, nodes-append pid b xs ys) refl
  | inr h ↦ rw (h, nodes-append pid b xs ys) refl
]

-- A process is in no bucket but that of its hash, and in none if it is not in the list.
out_of_bucket :
    (pid : ℕ → ℕ) (b x : ℕ) (xs : List ℕ) → pid_hashfn (pid x) ≢ b → hash_link x ∉ nodes pid b xs
out_of_bucket pid b x [] ne = tt
out_of_bucket pid b x (y ∷ ys) ne = elim (Bool-cases (pid_hashfn (pid y) == b)) [
  | inl h ↦
      let here : pid_hashfn (pid y) ≡ b = ground (arith, h) in
      rw h (
        λ e. let same : x ≡ y = omega (arith, e) in ne (ap (λ k. pid_hashfn (pid k)) same ∙ here),
        out_of_bucket pid b x ys ne,
      )
  | inr h ↦ rw h (out_of_bucket pid b x ys ne)
]

out_of_list : (pid : ℕ → ℕ) (b x : ℕ) (xs : List ℕ) → x ∉ xs → hash_link x ∉ nodes pid b xs
out_of_list pid b x [] out = tt
out_of_list pid b x (y ∷ ys) out = elim (Bool-cases (pid_hashfn (pid y) == b)) [
  | inl h ↦ rw h (λ e. out.0 (omega (arith, e)), out_of_list pid b x ys out.1)
  | inr h ↦ rw h (out_of_list pid b x ys out.1)
]

bucket-hashed :
    (pid : ℕ → ℕ) (b : ℕ) (xs : List ℕ) → All (λ x. pid_hashfn (pid x) ≡ b) (bucket pid b xs)
bucket-hashed pid b [] = tt
bucket-hashed pid b (x ∷ xs) = elim (Bool-cases (pid_hashfn (pid x) == b)) [
  | inl h ↦ rw h (ground (arith, h), bucket-hashed pid b xs)
  | inr h ↦ rw h (bucket-hashed pid b xs)
]

head_out : (b c : ℕ) (zs : List ℕ) → b ≢ c → b < hash_list_size → b ∉ (c ∷ map hash_link zs)
head_out b c zs ne lt = (ne, inner zs)
  where
    inner : (zs : List ℕ) → b ∉ map hash_link zs
    inner [] = tt
    inner (z ∷ zs) = (λ e. absurd (omega (arith, e)), inner zs)

-- Two buckets share no node.
bucket-Apart :
    (pid : ℕ → ℕ) (b c : ℕ) (xs : List ℕ)
    → b ≢ c
    → b < hash_list_size
    → c < hash_list_size
    → Apart (b ∷ nodes pid b xs) (c ∷ nodes pid c xs)
bucket-Apart pid b c xs ne lb lc =
    (head_out b c (bucket pid c xs) ne lb, inner (bucket pid b xs) (bucket-hashed pid b xs))
  where
    inner :
        (zs : List ℕ)
        → All (λ x. pid_hashfn (pid x) ≡ b) zs
        → Apart (map hash_link zs) (c ∷ nodes pid c xs)
    inner [] all = tt
    inner (z ∷ zs) all = (
      (λ e. absurd (omega (arith, e)), out_of_bucket pid c z xs (λ e. ne (sym all.0 ∙ e))),
      inner zs all.1,
    )

-- `hash_proc` puts a new process into the table.
pub hash_proc-Table :
    (s : Procs) (xs : List ℕ) (p : ℕ)
    → Table s xs
    → p ∉ xs
    → 0 < s.pid p
    → s.pid p < max_pid
    → Table (hash_proc p s) (p ∷ xs)
unfolding hash_proc
hash_proc-Table s xs p v out pos lt = record {
  rings = λ b lb. ring b lb;
  range = ((pos, lt), v.range);
}
  where
    home : ℕ
    home = pid_hashfn (s.pid p)

    after : Links.Links
    after = Links.add home (hash_link p) s.hash_links

    ring : (b : ℕ) → b < hash_list_size → Ring after b (nodes s.pid b (p ∷ xs))
    ring b lb = elim (eq-cases home b) [
      | inl e ↦
          let same : (home == b) ≡ true = rw e (==-refl b) in
          rw same (
            subst
              (λ k.
                Ring (Links.add k (hash_link p) s.hash_links) b (hash_link p ∷ nodes s.pid b xs))
              (sym e)
              (add-Ring [] (nodes s.pid b xs) (hash_link p) (v.rings b lb)
                (λ k. absurd (omega (arith, k)), out_of_list s.pid b p xs out)))
      | inr ne ↦
          let there = v.rings home (pid_hashfn-lt (s.pid p)) in
          rw (==-ne ne) (
            add-other (nodes s.pid home xs) (nodes s.pid b xs) (hash_link p) (v.rings b lb) there
              (bucket-Apart s.pid home b xs ne (pid_hashfn-lt (s.pid p)) lb)
              (λ k. absurd (omega (arith, k)), out_of_list s.pid b p xs out))
    ]

pub split_All : (P : ℕ → Type 0) (xs ys : List ℕ) (p : ℕ) → All P (xs ++ p ∷ ys) → All P (xs ++ ys)
split_All P xs ys p all =
    All-append P xs ys (All-left P xs (p ∷ ys) all) (All-right P xs (p ∷ ys) all).1

-- `unhash_proc` takes exactly its process out of the table.
pub unhash_proc-Table :
    (s : Procs) (xs ys : List ℕ) (p : ℕ)
    → Table s (xs ++ p ∷ ys)
    → Table (unhash_proc p s) (xs ++ ys)
unfolding unhash_proc
unhash_proc-Table s xs ys p v = record {
  rings = λ b lb. ring b lb;
  range = split_All _ xs ys p v.range;
}
  where
    home : ℕ
    home = pid_hashfn (s.pid p)

    cut : Links.Links
    cut = Links.del (hash_link p) s.hash_links

    at_home :
        nodes s.pid home (xs ++ p ∷ ys) ≡ nodes s.pid home xs ++ hash_link p ∷ nodes s.pid home ys
    at_home =
        let same : (pid_hashfn (s.pid p) == home) ≡ true = ==-refl home in
        nodes-append s.pid home xs (p ∷ ys) ∙ rw same refl

    there : Ring s.hash_links home (nodes s.pid home xs ++ hash_link p ∷ nodes s.pid home ys)
    there = subst (λ k. Ring s.hash_links home k) at_home (v.rings home (pid_hashfn-lt (s.pid p)))

    left : Ring cut home (nodes s.pid home (xs ++ ys))
    left =
        subst (λ k. Ring cut home k) (sym (nodes-append s.pid home xs ys))
          (del-Ring (nodes s.pid home xs) (nodes s.pid home ys) (hash_link p) there)

    elsewhere : (b : ℕ) → home ≢ b → nodes s.pid b (xs ++ p ∷ ys) ≡ nodes s.pid b (xs ++ ys)
    elsewhere b ne =
        nodes-append s.pid b xs (p ∷ ys) ∙ rw (==-ne ne) (sym (nodes-append s.pid b xs ys))

    ring : (b : ℕ) → b < hash_list_size → Ring cut b (nodes s.pid b (xs ++ ys))
    ring b lb = elim (eq-cases home b) [
      | inl e ↦ subst (λ k. Ring cut k (nodes s.pid k (xs ++ ys))) e left
      | inr ne ↦
          del-other (nodes s.pid home xs) (nodes s.pid home ys) (nodes s.pid b (xs ++ ys))
            (hash_link p) (subst (λ k. Ring s.hash_links b k) (elsewhere b ne) (v.rings b lb)) there
            (subst (λ k. Apart (home ∷ k) (b ∷ nodes s.pid b (xs ++ ys))) at_home
              (subst (λ k. Apart (home ∷ nodes s.pid home (xs ++ p ∷ ys)) (b ∷ k)) (elsewhere b ne)
                (bucket-Apart s.pid home b (xs ++ p ∷ ys) ne (pid_hashfn-lt (s.pid p)) lb)))
    ]
