-- ===== src/Process/Family.antt =====
-- The tree of parents and children in proc.c: the children of a process stand from the youngest on
-- in a row that goes through `optr` one way and through `yptr` the other.
use mathlib.Core.Path.{subst}
use oshub.Prelude.{
  ℕ, ◌≡◌, ◌≢◌, inl, inr, refl, sym, ◌∙◌, ==-refl, ==-ne, update, update-at, eq-cases, List, [], ◌∷◌,
  ◌++◌, All, All-left, All-right, last_or, head_or, Distinct, ◌∉◌,
}
use oshub.Links.Chain.{keep_one, not-mem-last}
use oshub.Sched.{null}
use oshub.Process.{store}

-- From `c` the row `xs` goes on to older children; `y` is the next younger one of the first.
abbrev pub Row : (ℕ → ℕ) → (ℕ → ℕ) → ℕ → ℕ → List ℕ → Type 0
Row yptr optr y c [] = c ≡ null
Row yptr optr y c (x ∷ xs) = (c ≡ x) × (x ≢ null) × (yptr x ≡ y) × Row yptr optr x (optr x) xs

pub Row-null : (yptr optr : ℕ → ℕ) (y c : ℕ) (xs : List ℕ) → Row yptr optr y c xs → null ∉ xs
Row-null yptr optr y c [] r = tt
Row-null yptr optr y c (x ∷ xs) r = (λ e. r.1 (sym e), Row-null yptr optr x (optr x) xs r.3)

-- The first child, or NULL.
pub Row-first :
    (yptr optr : ℕ → ℕ) (y c : ℕ) (xs : List ℕ) → Row yptr optr y c xs → c ≡ head_or xs null
Row-first yptr optr y c [] r = r
Row-first yptr optr y c (x ∷ xs) r = r.0

-- The siblings next to `e`.
pub Row-beside :
    (yptr optr : ℕ → ℕ) (e y c : ℕ) (xs ys : List ℕ)
    → Row yptr optr y c (xs ++ e ∷ ys)
    → (yptr e ≡ last_or y xs) × (optr e ≡ head_or ys null)
Row-beside yptr optr e y c [] ys r = (r.2, Row-first yptr optr e (optr e) ys r.3)
Row-beside yptr optr e y c (x ∷ xs) ys r = Row-beside yptr optr e x (optr x) xs ys r.3

-- A row stays where the pointers of its members stay.
pub Row-frame :
    (yptr optr yptr' optr' : ℕ → ℕ) (y c : ℕ) (xs : List ℕ)
    → All (λ x. yptr' x ≡ yptr x) xs
    → All (λ x. optr' x ≡ optr x) xs
    → Row yptr optr y c xs
    → Row yptr' optr' y c xs
Row-frame yptr optr yptr' optr' y c [] ys os r = r
Row-frame yptr optr yptr' optr' y c (x ∷ xs) ys os r = (
  r.0,
  r.1,
  ys.0 ∙ r.2,
  Row-frame yptr optr yptr' optr' x (optr' x) xs ys.1 os.1
      (subst (λ k. Row yptr optr x k xs) (sym os.0) r.3),
)

pub All-refl : (f : ℕ → ℕ) (xs : List ℕ) → All (λ x. f x ≡ f x) xs
All-refl f [] = tt
All-refl f (x ∷ xs) = (refl, All-refl f xs)

pub store-at : (p v : ℕ) (f : ℕ → ℕ) → p ≢ null → store p v f p ≡ v
store-at p v f ne = rw (==-ne ne, ==-refl p) refl

pub store-other : (p v : ℕ) (f : ℕ → ℕ) (x : ℕ) → x ≢ p → store p v f x ≡ f x
store-other p v f x ne = elim (eq-cases p null) [
  | inl e ↦ rw e refl
  | inr np ↦ rw (==-ne np, ==-ne ne) refl
]

pub keep_store : (p v : ℕ) (f : ℕ → ℕ) (xs : List ℕ) → p ∉ xs → All (λ x. store p v f x ≡ f x) xs
keep_store p v f [] out = tt
keep_store p v f (x ∷ xs) out =
    (store-other p v f x (λ e. out.0 (sym e)), keep_store p v f xs out.1)

pub keep_null : (p v : ℕ) (f : ℕ → ℕ) (xs : List ℕ) → p ≡ null → All (λ x. store p v f x ≡ f x) xs
keep_null p v f [] e = tt
keep_null p v f (x ∷ xs) e = (rw e refl, keep_null p v f xs e)

-- The first of a row gets another younger sibling, which may be NULL.
pub Row-rehead :
    (yptr optr : ℕ → ℕ) (y z c : ℕ) (xs : List ℕ)
    → Distinct xs
    → Row yptr optr y c xs
    → Row (store c z yptr) optr z c xs
Row-rehead yptr optr y z c [] d r = r
Row-rehead yptr optr y z c (x ∷ xs) d r =
    let at : store c z yptr x ≡ z =
      subst (λ k. store k z yptr x ≡ z) (sym r.0) (store-at x z yptr r.1) in
    let same : All (λ k. store c z yptr k ≡ yptr k) xs =
      subst (λ k. All (λ j. store k z yptr j ≡ yptr j) xs) (sym r.0) (keep_store x z yptr xs d.0) in
    (
      r.0,
      r.1,
      at,
      Row-frame yptr optr (store c z yptr) optr x (optr x) xs same (All-refl optr xs) r.3,
    )

-- A new youngest child in front of a row.
pub Row-youngest :
    (yptr optr : ℕ → ℕ) (e c : ℕ) (xs : List ℕ)
    → e ≢ null
    → e ∉ xs
    → Distinct xs
    → Row yptr optr null c xs
    → Row (store c e (update yptr e null)) (update optr e c) null e (e ∷ xs)
Row-youngest yptr optr e c xs ne out d r = (
  refl,
  ne,
  store-other c e (update yptr e null) e (first xs out (Row-first yptr optr null c xs r))
      ∙ update-at yptr e null,
  subst (λ k. Row (store c e (update yptr e null)) (update optr e c) e k xs)
      (sym (update-at optr e c))
      (Row-rehead (update yptr e null) (update optr e c) null e c xs d (
        Row-frame yptr optr (update yptr e null) (update optr e c) null c xs
          (keep_one yptr e null xs out) (keep_one optr e c xs out) r)),
)
  where
    first : (xs : List ℕ) → e ∉ xs → c ≡ head_or xs null → e ≢ c
    first [] out h p = ne (p ∙ h)
    first (x ∷ xs) out h p = out.0 (p ∙ h)

-- What the row begins with once its member behind `xs` has gone.
abbrev pub begin : List ℕ → ℕ → ℕ → ℕ
begin [] c d = d
begin (x ∷ xs) c d = c

-- A child leaves the row.
pub Row-remove :
    (yptr optr : ℕ → ℕ) (e y c : ℕ) (xs ys : List ℕ)
    → Distinct (xs ++ e ∷ ys)
    → y ∉ (xs ++ e ∷ ys)
    → Row yptr optr y c (xs ++ e ∷ ys)
    → Row
        (store (optr e) (yptr e) yptr)
        (store (yptr e) (optr e) optr)
        y
        (begin xs c (optr e))
        (xs ++ ys)
Row-remove yptr optr e y c [] ys d out r =
    subst (λ k. Row (store (optr e) k yptr) (store k (optr e) optr) y (optr e) ys) (sym r.2)
      (Row-frame (store (optr e) y yptr) optr (store (optr e) y yptr) (store y (optr e) optr) y
        (optr e) ys (All-refl (store (optr e) y yptr) ys) (keep_store y (optr e) optr ys out.1)
        (Row-rehead yptr optr e y (optr e) ys d.1 r.3))
Row-remove yptr optr e y c (x ∷ xs) ys d out r =
    let beside = Row-beside yptr optr e x (optr x) xs ys r.3 in
    (
      r.0,
      r.1,
      store-other (optr e) (yptr e) yptr x (older ys beside.1 (All-right _ xs (e ∷ ys) d.0)) ∙ r.2,
      subst (λ k. Row (store (optr e) (yptr e) yptr) (store (yptr e) (optr e) optr) x k (xs ++ ys))
          (sym (left xs beside.0 (All-left _ xs (e ∷ ys) d.0)))
          (Row-remove yptr optr e x (optr x) xs ys d.1 d.0 r.3),
    )
  where
    older : (ys : List ℕ) → optr e ≡ head_or ys null → x ∉ (e ∷ ys) → x ≢ optr e
    older [] h out p = r.1 (p ∙ h)
    older (z ∷ ys) h out p = out.1.0 (p ∙ h)

    left :
        (xs : List ℕ)
        → yptr e ≡ last_or x xs
        → x ∉ xs
        → store (yptr e) (optr e) optr x ≡ begin xs (optr x) (optr e)
    left [] h out =
        subst (λ k. store k (optr e) optr x ≡ optr e) (sym h) (store-at x (optr e) optr r.1)
    left (z ∷ zs) h out =
        store-other (yptr e) (optr e) optr x (λ p. not-mem-last x z zs out.0 out.1 (p ∙ h))
