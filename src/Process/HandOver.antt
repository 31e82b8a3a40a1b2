-- ===== src/Process/HandOver.antt =====
-- One round of the loop of `do_exit`: the first child of a process goes to `initproc`.
use mathlib.Core.Path.{subst}
use oshub.Prelude.{
  ℕ, ◌≡◌, ◌≢◌, ◌⊎◌, refl, sym, ◌∙◌, update, update-at, update-other, List, [], ◌∷◌, All, ◌∉◌,
  Distinct,
}
use oshub.Sched.{null}
use oshub.Process.{Procs, youngest}
use oshub.Process.Family.{Row, Row-first}
use oshub.Process.Children.{
  Children, not-mem_of_parent, beside_of_parent, head-parent, youngest-Row, youngest-other,
}
use oshub.Process.Calls.{handed_over}

-- The children that `p` has left, of which the first has a younger sibling `y` that has gone.
pub record Leaving (s : Procs) (p y : ℕ) (xs : List ℕ) : Type 0 where
  pub row : Row s.yptr s.optr y (s.cptr p) xs
  pub parents : All (λ x. s.parent x ≡ p) xs
  pub distinct : Distinct xs

pub update-All :
    (f : ℕ → ℕ) (x v p : ℕ) (xs : List ℕ)
    → x ∉ xs
    → All (λ k. f k ≡ p) xs
    → All (λ k. update f x v k ≡ p) xs
update-All f x v p [] out all = tt
update-All f x v p (k ∷ ks) out all =
    (update-other f x v k (λ e. out.0 (sym e)) ∙ all.0, update-All f x v p ks out.1 all.1)

module _ (s : Procs) (here x y : ℕ) (xs ys : List ℕ) (ne : here ≢ s.initproc) where
  abbrev cut : Procs
  cut = record s { cptr = update s.cptr here (s.optr x) }

  cut-cptr : (q : ℕ) → q ≢ here → cut.cptr q ≡ s.cptr q
  cut-cptr q nq = update-other s.cptr here (s.optr x) q nq

  first_adopted :
      Children s s.initproc ys
      → (cut.cptr s.initproc ≡ null) ⊎ (s.parent (cut.cptr s.initproc) ≡ s.initproc)
  first_adopted w =
      head-parent s.parent (cut.cptr s.initproc) s.initproc ys
        (cut-cptr s.initproc (λ e. ne (sym e))
          ∙ Row-first s.yptr s.optr null (s.cptr s.initproc) ys w.row)
        w.parents

  pub handed_over-here :
      Leaving s here y (x ∷ xs)
      → Children s s.initproc ys
      → Leaving (handed_over here x s) here x xs
  unfolding handed_over youngest
  handed_over-here l w = record {
    row =
        youngest-other cut x s.initproc here x xs ne l.distinct.0
          (beside_of_parent s.parent (cut.cptr s.initproc) s.initproc here xs ne (first_adopted w)
            l.parents.1)
          (subst (λ k. Row s.yptr s.optr x k xs) (sym (update-at s.cptr here (s.optr x))) l.row.3);
    parents = update-All s.parent x s.initproc here xs l.distinct.0 l.parents.1;
    distinct = l.distinct.1;
  }

  initproc-ne : s.initproc ≢ here
  initproc-ne e = ne (sym e)

  pub handed_over-initproc :
      Leaving s here y (x ∷ xs)
      → Children s s.initproc ys
      → Children (handed_over here x s) s.initproc (x ∷ ys)
  unfolding handed_over youngest
  handed_over-initproc l w =
      let out = not-mem_of_parent s.parent x here s.initproc ys initproc-ne l.parents.0 w.parents in
      record {
        row = youngest-Row cut x s.initproc ys l.row.1 out w.distinct (
            subst (λ k. Row s.yptr s.optr null k ys) (sym (cut-cptr s.initproc initproc-ne)) w.row);
        parents = (
          update-at s.parent x s.initproc,
          update-All s.parent x s.initproc s.initproc ys out w.parents,
        );
        distinct = (out, w.distinct);
      }

  pub handed_over-other :
      (q : ℕ) (zs : List ℕ)
      → q ≢ here
      → q ≢ s.initproc
      → Leaving s here y (x ∷ xs)
      → Children s s.initproc ys
      → Children s q zs
      → Children (handed_over here x s) q zs
  unfolding handed_over youngest
  handed_over-other q zs nh ni l w u =
      let out = not-mem_of_parent s.parent x here q zs nh l.parents.0 u.parents in
      record {
        row =
            youngest-other cut x s.initproc q null zs ni out
              (beside_of_parent s.parent (cut.cptr s.initproc) s.initproc q zs ni (first_adopted w)
                u.parents)
              (subst (λ k. Row s.yptr s.optr null k zs) (sym (cut-cptr q nh)) u.row);
        parents = update-All s.parent x s.initproc q zs out u.parents;
        distinct = u.distinct;
      }

  handed_over-rest :
      ((handed_over here x s).sched ≡ s.sched) × ((handed_over here x s).initproc ≡ s.initproc)
  unfolding handed_over youngest
  handed_over-rest = (refl, refl)
