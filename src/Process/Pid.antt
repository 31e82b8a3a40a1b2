-- ===== src/Process/Pid.antt =====
-- The numbers that `get_pid` gives to new processes.
use oshub.Prelude.{
  ℕ, zero, suc, ◌+◌, ◌-◌, ◌*◌, ◌≤◌, ◌<◌, ◌≡◌, ◌≢◌, ◌⊎◌, inl, inr, refl, sym, ◌∙◌, true, false, ◌==◌,
  ==-refl, ==-ne, ltb, leb, leb-true, leb-false, ◌&&◌, if◌then◌else◌, Bool-cases, eq-cases,
  lt-cases, arith, Option, some, List, [], ◌∷◌, ◌++◌, length, All, All-append, All-mono, ◌∉◌,
}
use mathlib.Core.Path.{subst}
use mathlib.Core.List.{append_assoc, append-nil}
use oshub.Links.{Links}
use oshub.Links.Chain.{Chain}
use oshub.Process.{Cursor, max_pid, proc_list, next_cursor, search_pid}

-- The list without the value `v`.
without : ℕ → List ℕ → List ℕ
without v [] = []
without v (x ∷ xs) = let rest = without v xs in if x == v then rest else x ∷ rest

without-length :
    (v : ℕ) (xs : List ℕ)
    → (length (without v xs) ≤ length xs) × ((v ∉ xs) ⊎ (length (without v xs) < length xs))
unfolding without
without-length v [] = (omega arith, inl tt)
without-length v (x ∷ xs) = elim (eq-cases x v) [
  | inl e ↦
      let same : (x == v) ≡ true = rw e (==-refl v) in
      let (le, _) = without-length v xs in rw same (omega arith, inr (omega arith))
  | inr ne ↦
      let (le, rest) = without-length v xs in
      rw (==-ne ne) (
        omega arith,
        elim rest [ inl out ↦ inl (λ e. ne (sym e), out) | inr lt ↦ inr (omega arith) ],
      )
]

without-∉ : (v a : ℕ) (xs : List ℕ) → a ≢ v → a ∉ without v xs → a ∉ xs
unfolding without
without-∉ v a [] ne out = tt
without-∉ v a (x ∷ xs) ne out = elim (eq-cases x v) [
  | inl e ↦
      let same : (x == v) ≡ true = rw e (==-refl v) in
      let out' : a ∉ without v xs = rw same at out in (λ p. ne (p ∙ e), without-∉ v a xs ne out')
  | inr n ↦
      let out' : a ∉ (x ∷ without v xs) = rw (==-ne n) at out in
      (out'.0, without-∉ v a xs ne out'.1)
]

-- Fewer than n numbers leave one of 1 to n free.
pub free_number : (n : ℕ) (xs : List ℕ) → length xs < n → (a : ℕ) × (0 < a) × (a ≤ n) × (a ∉ xs)
free_number zero xs lt = absurd (omega arith)
free_number (suc n) xs lt = elim ((without-length (suc n) xs).1) [
  | inl out ↦ (suc n, omega arith, omega arith, out)
  | inr less ↦
      let (a, pos, le, out) = free_number n (without (suc n) xs) (omega arith) in
      (a, pos, omega arith, without-∉ (suc n) a xs (λ e. absurd (omega arith)) out)
]

-- A process with the number `n` leaves `last` free, and its number is not between `last` and `safe`.
abbrev pub Passed : ℕ → ℕ → ℕ → Type 0
Passed last safe n = (n ≢ last) × (last < n → safe ≤ n)

-- How many numbers the search tries from `last` on until it meets `free`.
abbrev pub away : ℕ → ℕ → ℕ
away free last = if leb last free then free - last else free + max_pid - last

-- What one turn of the loop of `get_pid` does at a process whose number is not `free`: it starts
-- again from a number closer to `free`, or it goes on and has passed this process too.
abbrev Restarted : ℕ → Cursor → Cursor → Type 0
Restarted free c c' =
    (c'.le ≡ proc_list)
    × (0 < c'.last)
    × (c'.last < c'.safe)
    × (c'.safe ≤ max_pid)
    × (away free c'.last < away free c.last)

abbrev WentOn : ℕ → ℕ → ℕ → Cursor → Cursor → Type 0
WentOn free z n c c' =
    (c'.le ≡ z)
    × (0 < c'.last)
    × (c'.last < c'.safe)
    × (c'.safe ≤ max_pid)
    × (away free c'.last ≤ away free c.last)
    × Passed c'.last c'.safe n
    × ((m : ℕ) → Passed c.last c.safe m → Passed c'.last c'.safe m)

next_cursor-cases :
    (free z n : ℕ) (c : Cursor)
    → 0 < free
    → free < max_pid
    → n ≢ free
    → 0 < c.last
    → c.last < c.safe
    → c.safe ≤ max_pid
    → Restarted free c (next_cursor z n c) ⊎ WentOn free z n c (next_cursor z n c)
unfolding next_cursor
next_cursor-cases free z n c pos lt taken cp cl cs = elim (eq-cases n c.last) [
  | inl e ↦
      let same : (n == c.last) ≡ true = rw e (==-refl c.last) in
      elim (lt-cases (c.last + 1) c.safe) [
        | inl h ↦
            rw (same, leb-false h)
              (inr (
                refl,
                omega arith,
                h,
                cs,
                ground arith,
                (λ p. omega (arith, p, e), λ p. absurd (omega (arith, p, e))),
                λ m q. (
                  λ p. absurd (omega (arith, p, q.1 (omega (arith, p)))),
                  λ p. q.1 (omega (arith, p)),
                ),
              ))
        | inr h ↦
            rw (same, leb-true h)
              (inl (refl, ground arith, ground arith, omega arith, ground arith))
      ]
  | inr ne ↦ elim (Bool-cases (ltb c.last n && ltb n c.safe)) [
    | inl h ↦
        rw (==-ne ne, h)
          (inr (
            refl,
            cp,
            ground (arith, h),
            ground (arith, h),
            omega arith,
            (ne, λ p. omega arith),
            λ m q. (q.0, λ p. ground (arith, q.1 p, h)),
          ))
    | inr h ↦
        rw (==-ne ne, h)
          (inr (refl, cp, cl, cs, omega arith, (ne, λ p. ground (arith, h)), λ m q. q))
  ]
]

-- The search from `c`, with `n` processes in the list of which `r` are still to pass, ends.
budget-lt : (d d' n r : ℕ) → d' < d → d' * (n + 1) + n < d * (n + 1) + r
budget-lt d d' n r h = grind arith

budget-le : (d d' n r : ℕ) → d' ≤ d → d' * (n + 1) + r < d * (n + 1) + suc r
budget-le d d' n r h = grind arith

snoc_eq {ℓ} :
    {A : Type ℓ} (xs ys zs : List A) (z : A) → ys ++ z ∷ zs ≡ xs → (ys ++ z ∷ []) ++ zs ≡ xs
snoc_eq xs ys zs z e = append_assoc ys (z ∷ []) zs ∙ e

module _ (l : Links) (pid : ℕ → ℕ) (xs : List ℕ) (free : ℕ) where
  -- Every process of the list is passed.
  abbrev pub AllPassed : ℕ → ℕ → List ℕ → Type 0
  AllPassed last safe ys = All (λ x. Passed last safe (pid x)) ys

  abbrev pub Found : Option (ℕ × ℕ) → Type 0
  Found r =
      (last : ℕ) × (safe : ℕ) × (r ≡ some (last, safe))
      × (0 < last)
      × (last < safe)
      × (safe ≤ max_pid)
      × AllPassed last safe xs

  pub search_pid-Found :
      (f : ℕ) (c : Cursor) (ys zs : List ℕ)
      → Chain l proc_list xs proc_list
      → proc_list ∉ xs
      → 0 < free
      → free < max_pid
      → All (λ x. pid x ≢ free) xs
      → ys ++ zs ≡ xs
      → Chain l c.le zs proc_list
      → proc_list ∉ zs
      → All (λ x. pid x ≢ free) zs
      → 0 < c.last
      → c.last < c.safe
      → c.safe ≤ max_pid
      → AllPassed c.last c.safe ys
      → away free c.last * (length xs + 1) + length zs < f
      → Found (search_pid f l pid c)
  unfolding search_pid
  search_pid-Found zero c ys zs all out0 pos lt taken e ch out tz cp cl cs ps fuel =
      absurd (omega arith)
  search_pid-Found (suc f) c ys [] all out0 pos lt taken e ch out tz cp cl cs ps fuel =
      let whole : ys ≡ xs = sym (append-nil ys) ∙ e in
      rw ch.0 (c.last, c.safe, refl, cp, cl, cs, subst (AllPassed c.last c.safe) whole ps)
  search_pid-Found (suc f) c ys (z ∷ zs) all out0 pos lt taken e ch out tz cp cl cs ps fuel =
      let more : (z == proc_list) ≡ false = ==-ne (λ p. out.0 (sym p)) in
      rw (ch.0.0, more)
        (elim (next_cursor-cases free z (pid z) c pos lt tz.0 cp cl cs) [
          | inl (at, cp', cl', cs', closer) ↦
              let budget = budget-lt (away free c.last) _ (length xs) (suc (length zs)) closer in
              search_pid-Found f (next_cursor z (pid z) c) [] xs all out0 pos lt taken refl
                (subst (λ p. Chain l p xs proc_list) (sym at) all) out0 taken cp' cl' cs' tt
                (omega (arith, budget))
          | inr (at, cp', cl', cs', near, here, keep) ↦
              let budget = budget-le (away free c.last) _ (length xs) (length zs) near in
              search_pid-Found f (next_cursor z (pid z) c) (ys ++ z ∷ []) zs all out0 pos lt taken
                (snoc_eq xs ys zs z e) (subst (λ p. Chain l p zs proc_list) (sym at) ch.1) out.1
                tz.1 cp' cl' cs'
                (All-append _ ys (z ∷ []) (All-mono _ _ ys (λ x. keep (pid x)) ps) (here, tt))
                (omega (arith, budget))
        ])
