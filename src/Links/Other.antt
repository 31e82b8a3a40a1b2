-- ===== src/Links/Other.antt =====
-- Lists of list.h that share no node: a change of one leaves the other.
use mathlib.Core.Path.{subst}
use oshub.Prelude.{
  ◌≢◌, ℕ, sym, List, [], ◌∷◌, ◌++◌, All, All-mono, All-left, All-right, last_or, head_or, ◌∉◌,
  arith,
}
use oshub.Links.{Links, add, add_after, add_before, add_between, del, del_between, del_init}
use oshub.Links.Chain.{keep_one, keep_two, frame, gap}
use oshub.Links.Ring.{Ring, prev-Ring, next-Ring, prev_head, init_other-Ring}

-- No node of the first list is one of the second.
abbrev pub Apart : List ℕ → List ℕ → Type 0
Apart xs ys = All (λ x. x ∉ ys) xs

pub Apart-sym : (xs ys : List ℕ) → Apart xs ys → Apart ys xs
Apart-sym xs [] a = tt
Apart-sym xs (y ∷ ys) a = (
  All-mono _ (λ x. y ≢ x) xs (λ x h e. h.0 (sym e)) a,
  Apart-sym xs ys (All-mono _ (λ x. x ∉ ys) xs (λ x h. h.1) a),
)

pub head-Apart : (h : ℕ) (xs ys : List ℕ) → Apart (h ∷ xs) ys → head_or xs h ∉ ys
head-Apart h [] ys a = a.0
head-Apart h (x ∷ xs) ys a = a.1.0

last-Apart : (h : ℕ) (xs ys : List ℕ) → Apart (h ∷ xs) ys → last_or h xs ∉ ys
last-Apart h [] ys a = a.0
last-Apart h (x ∷ xs) ys a = last-Apart x xs ys a.1

-- `list_add` behind the head of a list.
pub add-other :
    {s : Links} {h g : ℕ} (xs ys : List ℕ) (e : ℕ)
    → Ring s g ys
    → Ring s h xs
    → Apart (h ∷ xs) (g ∷ ys)
    → e ∉ (g ∷ ys)
    → Ring (add h e s) g ys
unfolding add add_after add_between
add-other {s} {h} {g} xs ys e r all apart out =
    let first = (gap s h [] xs h all.chain).0 in
    let n : s.next h ∉ (g ∷ ys) =
      subst (λ k. k ∉ (g ∷ ys)) (sym first) (head-Apart h xs (g ∷ ys) apart) in
    record {
      chain =
          frame s _ g ys g (keep_two s.next h e e (s.next h) (g ∷ ys) apart.0 out)
            (keep_two s.prev (s.next h) e e h ys n.1 out.1) (ground (arith, n.0, out.0)) r.chain;
      distinct = r.distinct;
    }

-- `list_del` of a node of a list.
pub del-other :
    {s : Links} {h g : ℕ} (xs zs ys : List ℕ) (e : ℕ)
    → Ring s g ys
    → Ring s h (xs ++ e ∷ zs)
    → Apart (h ∷ xs ++ e ∷ zs) (g ∷ ys)
    → Ring (del e s) g ys
unfolding del del_between
del-other {s} {h} {g} xs zs ys e r all apart =
    let p : s.prev e ∉ (g ∷ ys) =
      subst (λ k. k ∉ (g ∷ ys)) (sym (prev-Ring xs zs e all))
        (last-Apart h xs (g ∷ ys) (apart.0, All-left _ xs (e ∷ zs) apart.1)) in
    let n : s.next e ∉ (g ∷ ys) =
      subst (λ k. k ∉ (g ∷ ys)) (sym (next-Ring xs zs e all))
        (head-Apart h zs (g ∷ ys) (apart.0, (All-right _ xs (e ∷ zs) apart.1).1)) in
    record {
      chain =
          frame s _ g ys g (keep_one s.next (s.prev e) (s.next e) (g ∷ ys) p)
            (keep_one s.prev (s.next e) (s.prev e) ys n.1) (ground (arith, n.0)) r.chain;
      distinct = r.distinct;
    }

-- `list_add_before` the head of a list.
pub add_before-other :
    {s : Links} {h g : ℕ} (xs ys : List ℕ) (e : ℕ)
    → Ring s g ys
    → Ring s h xs
    → Apart (h ∷ xs) (g ∷ ys)
    → e ∉ (g ∷ ys)
    → Ring (add_before h e s) g ys
unfolding add_before add_between
add_before-other {s} {h} {g} xs ys e r all apart out =
    let p : s.prev h ∉ (g ∷ ys) =
      subst (λ k. k ∉ (g ∷ ys)) (sym (prev_head xs all)) (last-Apart h xs (g ∷ ys) apart) in
    record {
      chain =
          frame s _ g ys g (keep_two s.next (s.prev h) e e h (g ∷ ys) p out)
            (keep_two s.prev h e e (s.prev h) ys apart.0.1 out.1) (ground (arith, apart.0.0, out.0))
            r.chain;
      distinct = r.distinct;
    }

-- `list_del_init` of a node of a list.
pub del_init-other :
    {s : Links} {h g : ℕ} (xs zs ys : List ℕ) (e : ℕ)
    → Ring s g ys
    → Ring s h (xs ++ e ∷ zs)
    → Apart (h ∷ xs ++ e ∷ zs) (g ∷ ys)
    → Ring (del_init e s) g ys
unfolding del_init
del_init-other xs zs ys e r all apart =
    (init_other-Ring ys e (del-other xs zs ys e r all apart) (All-right _ xs (e ∷ zs) apart.1).0).0
