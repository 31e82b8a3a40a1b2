-- ===== src/Pmm/Walk.antt =====
-- The two walks along `free_list` in default_pmm.c, and what it means for the manager's state to
-- stand for a sequence of free blocks.
use oshub.Prelude.{
  ℕ, zero, suc, ◌+◌, ◌^◌, ◌≤◌, ◌<◌, ◌≡◌, ◌≢◌, sym, ◌∙◌, true, false, List, [], ◌∷◌, ◌++◌, arith,
  ltb-false, ltb-true, ==-ne, leb, ◌==◌, Bool-cases, inl, inr, length, last_or, All, ◌∉◌,
}
use oshub.Links
use oshub.Links.{Links}
use oshub.Links.Chain.{Chain}
use oshub.Links.Ring.{Ring}
use oshub.Pmm.{Pages, free_list, find_loop, place_loop}
use oshub.Pmm.Blocks.{Block, starts, total, Ordered, first_fit}

-- The state holds the free blocks `bs`: the list has their first pages in order, each with its
-- size and the bit PG_property, which no other page has, and `nr_free` counts their pages.
pub record IsFree (s : Pages) (bs : List Block) : Type 0 where
  pub ring : Ring s.links free_list (starts bs)
  pub sizes : All (λ b. s.property b.0 ≡ b.1) bs
  pub flags : All (λ b. s.has_property b.0 ≡ true) bs
  pub others : (p : ℕ) → p ∉ starts bs → s.has_property p ≡ false
  pub ordered : Ordered 1 bs
  pub counted : s.nr_free ≡ total bs
  pub small : total bs < 2 ^ 32

-- From `p` the `next` pointers go through `xs` to `q`.
abbrev pub Forward : Links → ℕ → List ℕ → ℕ → Type 0
Forward l p [] q = l.next p ≡ q
Forward l p (x ∷ xs) q = (l.next p ≡ x) × Forward l x xs q

pub Chain-Forward :
    (l m : Links) (p : ℕ) (xs : List ℕ) (q : ℕ)
    → ((x : ℕ) → m.next x ≡ l.next x)
    → Chain l p xs q
    → Forward m p xs q
Chain-Forward l m p [] q same c = same p ∙ c.0
Chain-Forward l m p (x ∷ xs) q same c = (same p ∙ c.0.0, Chain-Forward l m x xs q same c.1)

pub Forward-same :
    (l m : Links) (p : ℕ) (xs : List ℕ) (q : ℕ)
    → ((x : ℕ) → m.next x ≡ l.next x)
    → Forward l p xs q
    → Forward m p xs q
Forward-same l m p [] q same c = same p ∙ c
Forward-same l m p (x ∷ xs) q same c = (same p ∙ c.0, Forward-same l m x xs q same c.1)

-- With enough fuel the search of `default_alloc_pages` is the search of the blocks.
pub find_loop-first_fit :
    (s : Pages) (n f p : ℕ) (bs : List Block)
    → Forward s.links p (starts bs) free_list
    → free_list ∉ starts bs
    → All (λ b. s.property b.0 ≡ b.1) bs
    → length (starts bs) < f
    → find_loop f p n s ≡ first_fit n bs
unfolding find_loop first_fit
find_loop-first_fit s n zero p bs c out sz fuel = absurd (omega arith)
find_loop-first_fit s n (suc f) p [] c out sz fuel = rw c
find_loop-first_fit s n (suc f) p ((q, k) ∷ bs) c out sz fuel =
    let ne : (q == free_list) ≡ false = ==-ne (λ e. out.0 (sym e)) in
    rw (c.0, ne, sz.0)
      (elim (Bool-cases (leb n k)) [
        | inl fit ↦ rw fit
        | inr no_fit ↦ rw no_fit (find_loop-first_fit s n f q bs c.1 out.1 sz.1 (omega arith))
      ])

next_not_head :
    (l : Links) (x c : ℕ) (xs ys : List ℕ)
    → Chain l x (xs ++ c ∷ ys) free_list
    → free_list ∉ (xs ++ c ∷ ys)
    → (l.next x == free_list) ≡ false
next_not_head l x c [] ys ch out = rw ch.0.0 (==-ne (λ e. out.0 (sym e)))
next_not_head l x c (y ∷ xs) ys ch out = rw ch.0.0 (==-ne (λ e. out.0 (sym e)))

-- If a block lies above `base`, the walk puts `base` in front of the first such block.
pub place_loop-before :
    (l : Links) (base f p c : ℕ) (xs ys : List ℕ)
    → Chain l p (xs ++ c ∷ ys) free_list
    → free_list ∉ (xs ++ c ∷ ys)
    → All (λ x. x ≤ base) xs
    → base < c
    → length xs < f
    → place_loop f p base l ≡ Links.add_before c base l
unfolding place_loop
place_loop-before l base zero p c xs ys ch out lo hi fuel = absurd (omega arith)
place_loop-before l base (suc f) p c [] ys ch out lo hi fuel =
    rw (ch.0.0, ==-ne (λ e. out.0 (sym e)), ltb-true hi)
place_loop-before l base (suc f) p c (x ∷ xs) ys ch out lo hi fuel =
    rw (ch.0.0, ==-ne (λ e. out.0 (sym e)), ltb-false lo.0, next_not_head l x c xs ys ch.1 out.1)
      (place_loop-before l base f x c xs ys ch.1 out.1 lo.1 hi (omega arith))

-- The walk goes on at `base` itself, which now stands last.
place_again :
    (l : Links) (base f x : ℕ)
    → x ≢ base
    → base ≢ free_list
    → l.next x ≡ free_list
    → 0 < f
    → place_loop f x base (Links.add x base l) ≡ Links.add base base (Links.add x base l)
unfolding place_loop Links.add Links.add_after Links.add_between
place_again l base zero x ne nh last fuel = absurd (omega arith)
place_again l base (suc zero) x ne nh last fuel = ground arith
place_again l base (suc (suc f)) x ne nh last fuel = ground arith

-- If all blocks lie below `base`, the walk puts it behind the last one, meets it there, and puts
-- it once more behind itself.
pub place_loop-behind :
    (l : Links) (base f p x : ℕ) (xs : List ℕ)
    → Chain l p (x ∷ xs) free_list
    → free_list ∉ (x ∷ xs)
    → base ∉ (x ∷ xs)
    → base ≢ free_list
    → All (λ y. y ≤ base) (x ∷ xs)
    → length xs + 1 < f
    → place_loop f p base l ≡ Links.add base base (Links.add (last_or x xs) base l)
unfolding place_loop
place_loop-behind l base zero p x xs ch out new ne lo fuel = absurd (omega arith)
place_loop-behind l base (suc f) p x [] ch out new ne lo fuel =
    rw (ch.0.0, ==-ne (λ e. out.0 (sym e)), ltb-false lo.0, ch.1.0)
      (place_again l base f x (λ e. new.0 (sym e)) ne ch.1.0 (omega arith))
place_loop-behind l base (suc f) p x (y ∷ xs) ch out new ne lo fuel =
    rw (ch.0.0, ==-ne (λ e. out.0 (sym e)), ltb-false lo.0, ch.1.0.0, ==-ne (λ e. out.1.0 (sym e)))
      (place_loop-behind l base f x y xs ch.1 out.1 new.1 ne lo.1 (omega arith))
