-- ===== src/Process/Children.antt =====
-- `set_links` and `remove_links` of proc.c on the tree of parents and children.
use mathlib.Core.Path.{subst}
use oshub.Prelude.{
  ℕ, ◌+◌, ◌≡◌, ◌≢◌, ◌⊎◌, inl, inr, refl, sym, ◌∙◌, ap, true, false, ◌==◌, ==-ne, if◌then◌else◌,
  update, update-at, update-other, Bool-cases, List, [], ◌∷◌, ◌++◌, All, All-left, All-right,
  All-append, last_or, head_or, Distinct, ◌∉◌,
}
use oshub.Links.Chain.{keep_one, not-mem-last, Distinct-delete}
use oshub.Sched.{null}
use oshub.Links
use oshub.Process.{Procs, proc_list, store, youngest, set_links, remove_links}
use oshub.Process.Family.{
  Row, Row-null, Row-first, Row-beside, Row-frame, keep_store, keep_null, begin, Row-youngest,
  Row-remove,
}

-- The children of `p`, from the youngest on.
pub record Children (s : Procs) (p : ℕ) (xs : List ℕ) : Type 0 where
  pub row : Row s.yptr s.optr null (s.cptr p) xs
  pub parents : All (λ x. s.parent x ≡ p) xs
  pub distinct : Distinct xs

-- A child of `p` is no child of `q`.
pub not-mem_of_parent :
    (parent : ℕ → ℕ) (a p q : ℕ) (ys : List ℕ)
    → q ≢ p
    → parent a ≡ p
    → All (λ y. parent y ≡ q) ys
    → a ∉ ys
not-mem_of_parent parent a p q [] ne h all = tt
not-mem_of_parent parent a p q (y ∷ ys) ne h all =
    (λ e. ne (sym all.0 ∙ ap parent (sym e) ∙ h), not-mem_of_parent parent a p q ys ne h all.1)

-- A pointer to a child of `p`, or NULL, points to no child of `q`.
pub beside_of_parent :
    (parent : ℕ → ℕ) (a p q : ℕ) (ys : List ℕ)
    → q ≢ p
    → (a ≡ null) ⊎ (parent a ≡ p)
    → All (λ y. parent y ≡ q) ys
    → (a ≡ null) ⊎ (a ∉ ys)
beside_of_parent parent a p q ys ne (inl e) all = inl e
beside_of_parent parent a p q ys ne (inr h) all = inr (not-mem_of_parent parent a p q ys ne h all)

keep_beside :
    (a v : ℕ) (f : ℕ → ℕ) (ys : List ℕ) → (a ≡ null) ⊎ (a ∉ ys) → All (λ y. store a v f y ≡ f y) ys
keep_beside a v f ys (inl e) = keep_null a v f ys e
keep_beside a v f ys (inr out) = keep_store a v f ys out

pub head-parent :
    (parent : ℕ → ℕ) (a p : ℕ) (xs : List ℕ)
    → a ≡ head_or xs null
    → All (λ x. parent x ≡ p) xs
    → (a ≡ null) ⊎ (parent a ≡ p)
head-parent parent a p [] e all = inl e
head-parent parent a p (x ∷ xs) e all = inr (ap parent e ∙ all.0)

last-parent :
    (parent : ℕ → ℕ) (a b p : ℕ) (xs : List ℕ)
    → a ≡ last_or b xs
    → (b ≡ null) ⊎ (parent b ≡ p)
    → All (λ x. parent x ≡ p) xs
    → (a ≡ null) ⊎ (parent a ≡ p)
last-parent parent a b p [] e (inl h) all = inl (e ∙ h)
last-parent parent a b p [] e (inr h) all = inr (ap parent e ∙ h)
last-parent parent a b p (x ∷ xs) e h all = last-parent parent a x p xs e (inr all.0) all.1

join_All :
    (f g h : ℕ → ℕ) (xs : List ℕ)
    → All (λ x. f x ≡ g x) xs
    → All (λ x. g x ≡ h x) xs
    → All (λ x. f x ≡ h x) xs
join_All f g h [] p q = tt
join_All f g h (x ∷ xs) p q = (p.0 ∙ q.0, join_All f g h xs p.1 q.1)

-- What `youngest` does to the row of the parent, and to the row of another process.
pub youngest-Row :
    (s : Procs) (e p : ℕ) (xs : List ℕ)
    → e ≢ null
    → e ∉ xs
    → Distinct xs
    → Row s.yptr s.optr null (s.cptr p) xs
    → Row (youngest e p s).yptr (youngest e p s).optr null ((youngest e p s).cptr p) (e ∷ xs)
unfolding youngest
youngest-Row s e p xs ne out d r =
    subst
      (λ k.
        Row (store (s.cptr p) e (update s.yptr e null)) (update s.optr e (s.cptr p)) null k
          (e ∷ xs))
      (sym (update-at s.cptr p e)) (Row-youngest s.yptr s.optr e (s.cptr p) xs ne out d r)

pub youngest-other :
    (s : Procs) (e p q y : ℕ) (ys : List ℕ)
    → q ≢ p
    → e ∉ ys
    → (s.cptr p ≡ null) ⊎ (s.cptr p ∉ ys)
    → Row s.yptr s.optr y (s.cptr q) ys
    → Row (youngest e p s).yptr (youngest e p s).optr y ((youngest e p s).cptr q) ys
unfolding youngest
youngest-other s e p q y ys nq out first r =
    subst (λ k. Row (store (s.cptr p) e (update s.yptr e null)) (update s.optr e (s.cptr p)) y k ys)
      (sym (update-other s.cptr p e q nq))
      (Row-frame s.yptr s.optr (store (s.cptr p) e (update s.yptr e null))
        (update s.optr e (s.cptr p)) y (s.cptr q) ys
        (join_All (store (s.cptr p) e (update s.yptr e null)) (update s.yptr e null) s.yptr ys
          (keep_beside (s.cptr p) e (update s.yptr e null) ys first)
          (keep_one s.yptr e null ys out))
        (keep_one s.optr e (s.cptr p) ys out) r)

-- `set_links` makes a process the youngest child of its parent, and the children of every other
-- process stay.
pub set_links-Children :
    (s : Procs) (e p : ℕ) (xs : List ℕ)
    → Children s p xs
    → e ≢ null
    → e ∉ xs
    → s.parent e ≡ p
    → Children (set_links e s) p (e ∷ xs)
      × ((q : ℕ) (ys : List ℕ) → q ≢ p → Children s q ys → Children (set_links e s) q ys)
unfolding set_links youngest
set_links-Children s e p xs v ne out par = (
  record {
    row =
        subst (λ k. Row (linked k).yptr (linked k).optr null ((linked k).cptr p) (e ∷ xs)) (sym par)
          (youngest-Row listed e p xs ne out v.distinct v.row);
    parents = (par, v.parents);
    distinct = (out, v.distinct);
  },
  λ q ys nq w. record {
    row =
        subst (λ k. Row (linked k).yptr (linked k).optr null ((linked k).cptr q) ys) (sym par)
          (youngest-other listed e p q null ys nq
            (not-mem_of_parent s.parent e p q ys nq par w.parents)
            (beside_of_parent s.parent (s.cptr p) p q ys nq
              (head-parent s.parent (s.cptr p) p xs
                (Row-first s.yptr s.optr null (s.cptr p) xs v.row) v.parents)
              w.parents)
            w.row);
    parents = w.parents;
    distinct = w.distinct;
  },
)
  where
    listed : Procs
    listed = record s {
      list_links = Links.add proc_list e s.list_links;
      nr_process = s.nr_process + 1;
    }

    linked : ℕ → Procs
    linked k = youngest e k listed

-- `cptr` after `remove_links`.
abbrev left_cptr : Procs → ℕ → ℕ → ℕ
left_cptr s e = if s.yptr e == null then update s.cptr (s.parent e) (s.optr e) else s.cptr

left_cptr-parent :
    (s : Procs) (e p : ℕ) (xs ys : List ℕ)
    → Children s p (xs ++ e ∷ ys)
    → left_cptr s e p ≡ begin xs (s.cptr p) (s.optr e)
left_cptr-parent s e p [] ys v =
    let eldest : (s.yptr e == null) ≡ true = rw v.row.2 refl in
    rw (eldest, v.parents.0) (update-at s.cptr p (s.optr e))
left_cptr-parent s e p (x ∷ xs) ys v =
    let row = v.row in
    let members = Row-null s.yptr s.optr null (s.cptr p) (x ∷ xs ++ e ∷ ys) row in
    let last = (Row-beside s.yptr s.optr e x (s.optr x) xs ys row.3).0 in
    let other = not-mem-last null x xs members.0 (All-left _ xs (e ∷ ys) members.1) in
    let younger : (s.yptr e == null) ≡ false = ==-ne (λ k. other (sym k ∙ last)) in rw younger refl

left_cptr-other : (s : Procs) (e p q : ℕ) → s.parent e ≡ p → q ≢ p → left_cptr s e q ≡ s.cptr q
left_cptr-other s e p q par nq = elim (Bool-cases (s.yptr e == null)) [
  | inl h ↦ rw (h, par) (update-other s.cptr p (s.optr e) q nq)
  | inr h ↦ rw h refl
]

parent_of_middle :
    (s : Procs) (e p : ℕ) (xs ys : List ℕ)
    → All (λ x. s.parent x ≡ p) (xs ++ e ∷ ys)
    → s.parent e ≡ p
parent_of_middle s e p xs ys all = (All-right _ xs (e ∷ ys) all).0

-- `remove_links` takes a process out of the children of its parent, whose order stays, and the
-- children of every other process stay.
pub remove_links-Children :
    (s : Procs) (e p : ℕ) (xs ys : List ℕ)
    → Children s p (xs ++ e ∷ ys)
    → Children (remove_links e s) p (xs ++ ys)
      × ((q : ℕ) (zs : List ℕ) → q ≢ p → Children s q zs → Children (remove_links e s) q zs)
unfolding remove_links
remove_links-Children s e p xs ys v = (
  record {
    row =
        subst
          (λ k.
            Row (store (s.optr e) (s.yptr e) s.yptr) (store (s.yptr e) (s.optr e) s.optr) null k
              (xs ++ ys))
          (sym (left_cptr-parent s e p xs ys v))
          (Row-remove s.yptr s.optr e null (s.cptr p) xs ys v.distinct
            (Row-null s.yptr s.optr null (s.cptr p) (xs ++ e ∷ ys) v.row) v.row);
    parents =
        All-append _ xs ys (All-left _ xs (e ∷ ys) v.parents) (All-right _ xs (e ∷ ys) v.parents).1;
    distinct = Distinct-delete e xs ys v.distinct;
  },
  λ q zs nq w. record {
    row =
        subst
          (λ k.
            Row (store (s.optr e) (s.yptr e) s.yptr) (store (s.yptr e) (s.optr e) s.optr) null k zs)
          (sym (left_cptr-other s e p q (parent_of_middle s e p xs ys v.parents) nq))
          (Row-frame s.yptr s.optr (store (s.optr e) (s.yptr e) s.yptr)
            (store (s.yptr e) (s.optr e) s.optr) null (s.cptr q) zs
            (keep_beside (s.optr e) (s.yptr e) s.yptr zs
              (beside_of_parent s.parent (s.optr e) p q zs nq older w.parents))
            (keep_beside (s.yptr e) (s.optr e) s.optr zs
              (beside_of_parent s.parent (s.yptr e) p q zs nq younger w.parents))
            w.row);
    parents = w.parents;
    distinct = w.distinct;
  },
)
  where
    older : (s.optr e ≡ null) ⊎ (s.parent (s.optr e) ≡ p)
    older =
        head-parent s.parent (s.optr e) p ys
          (Row-beside s.yptr s.optr e null (s.cptr p) xs ys v.row).1
          (All-right _ xs (e ∷ ys) v.parents).1

    younger : (s.yptr e ≡ null) ⊎ (s.parent (s.yptr e) ≡ p)
    younger =
        last-parent s.parent (s.yptr e) null p xs
          (Row-beside s.yptr s.optr e null (s.cptr p) xs ys v.row).0 (inl refl)
          (All-left _ xs (e ∷ ys) v.parents)
