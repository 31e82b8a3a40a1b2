-- ===== src/Paging/Routes.antt =====
-- The way to an entry of a page table, and what a write to one leaves of the others.
use mathlib.Core.Path.{subst}
use oshub.Prelude.{
  ℕ, ◌+◌, ◌-◌, ◌/◌, ◌%◌, ◌^◌, ◌<◌, ◌≡◌, ◌≢◌, ◌⊎◌, inl, inr, refl, sym, ◌∙◌, ap, Bool, true, false,
  ltb, ltb-true, leb, leb-true, update, update-at, update-other, eq-cases, arith, Option, none,
  some, Run, done, ◌>>=◌,
}
use oshub.Paging.{
  Paging, pdx1, pdx0, ptx, is_valid, pte_create, page_of, set_entry, ensure, in_table, get_pte,
  page_at, get_page,
}

-- The directories `pgdir` and `t1` lead to the table `t0` of the address, which is none of them.
pub record Route (s : Paging) (pgdir la t1 t0 : ℕ) : Type 0 where
  pub present1 : is_valid (s.tables pgdir (pdx1 la)) ≡ true
  pub table1 : page_of (s.tables pgdir (pdx1 la)) s ≡ done t1
  pub present0 : is_valid (s.tables t1 (pdx0 la)) ≡ true
  pub table0 : page_of (s.tables t1 (pdx0 la)) s ≡ done t0
  pub apart1 : t0 ≢ t1
  pub apart : t0 ≢ pgdir

-- The entry names the page `q`, or none.
abbrev pub Names : Paging → ℕ → ℕ → Option ℕ → Type 0
Names s t i none = is_valid (s.tables t i) ≡ false
Names s t i (some q) = (is_valid (s.tables t i) ≡ true) × (page_of (s.tables t i) s ≡ done q)

pub get_pte-Route :
    (create : Bool) (s : Paging) (pgdir la t1 t0 : ℕ)
    → Route s pgdir la t1 t0
    → get_pte create pgdir la s ≡ done (some (t0, ptx la), s)
unfolding get_pte ensure
get_pte-Route create s pgdir la t1 t0 r = rw r.present1 (
    ap (λ (m : Run ℕ). m >>= λ t. ensure create t (pdx0 la) s >>= in_table t la) r.table1
    ∙ rw r.present0 (ap (λ (m : Run ℕ). m >>= λ t. done (some (t, ptx la), s)) r.table0))

page_at-Names :
    (s : Paging) (t i : ℕ) (old : Option ℕ) → Names s t i old → page_at (some (t, i), s) ≡ done old
page_at-Names s t i none n = rw n refl
page_at-Names s t i (some q) n = rw n.0 (ap (λ (m : Run ℕ). m >>= λ p. done (some p)) n.1)

pub get_page-Names :
    (s : Paging) (pgdir la t1 t0 : ℕ) (old : Option ℕ)
    → Route s pgdir la t1 t0
    → Names s t0 (ptx la) old
    → get_page pgdir la s ≡ done old
unfolding get_page
get_page-Names s pgdir la t1 t0 old r n =
    ap (λ (m : Run (Option (ℕ × ℕ) × Paging)). m >>= page_at)
      (get_pte-Route false s pgdir la t1 t0 r)
    ∙ page_at-Names s t0 (ptx la) old n

-- A write to another table than the directories of an address leaves the way to its table.
pub set_entry-Route :
    (s : Paging) (pgdir la t1 t0 t i pte : ℕ)
    → t ≢ t1
    → t ≢ pgdir
    → Route s pgdir la t1 t0
    → Route (set_entry t i pte s) pgdir la t1 t0
set_entry-Route s pgdir la t1 t0 t i pte n1 np r =
    let dir : update s.tables t (update (s.tables t) i pte) pgdir ≡ s.tables pgdir =
      update-other s.tables t (update (s.tables t) i pte) pgdir (λ e. np (sym e)) in
    let sub : update s.tables t (update (s.tables t) i pte) t1 ≡ s.tables t1 =
      update-other s.tables t (update (s.tables t) i pte) t1 (λ e. n1 (sym e)) in
    record {
      present1 = subst (λ k. is_valid (k (pdx1 la)) ≡ true) (sym dir) r.present1;
      table1 = subst (λ k. page_of (k (pdx1 la)) s ≡ done t1) (sym dir) r.table1;
      present0 = subst (λ k. is_valid (k (pdx0 la)) ≡ true) (sym sub) r.present0;
      table0 = subst (λ k. page_of (k (pdx0 la)) s ≡ done t0) (sym sub) r.table0;
      apart1 = r.apart1;
      apart = r.apart;
    }

-- The entry that was written, and any other one.
pub set_entry-at : (s : Paging) (t i pte : ℕ) → (set_entry t i pte s).tables t i ≡ pte
set_entry-at s t i pte =
    ap (λ (k : ℕ → ℕ). k i) (update-at s.tables t (update (s.tables t) i pte))
    ∙ update-at (s.tables t) i pte

pub set_entry-other :
    (s : Paging) (t i pte u j : ℕ)
    → (u ≢ t) ⊎ (j ≢ i)
    → (set_entry t i pte s).tables u j ≡ s.tables u j
set_entry-other s t i pte u j (inl ne) =
    ap (λ (k : ℕ → ℕ). k j) (update-other s.tables t (update (s.tables t) i pte) u ne)
set_entry-other s t i pte u j (inr ne) = elim (eq-cases u t) [
  | inl e ↦ rw e (
      ap (λ (k : ℕ → ℕ). k j) (update-at s.tables t (update (s.tables t) i pte))
      ∙ update-other (s.tables t) i pte j ne)
  | inr nt ↦ ap (λ (k : ℕ → ℕ). k j) (update-other s.tables t (update (s.tables t) i pte) u nt)
]

pub set_entry-Names :
    (s : Paging) (t i pte u j : ℕ) (old : Option ℕ)
    → (u ≢ t) ⊎ (j ≢ i)
    → Names s u j old
    → Names (set_entry t i pte s) u j old
set_entry-Names s t i pte u j none ne n =
    subst (λ k. is_valid k ≡ false) (sym (set_entry-other s t i pte u j ne)) n
set_entry-Names s t i pte u j (some q) ne n =
    let same = set_entry-other s t i pte u j ne in
    (
      subst (λ k. is_valid k ≡ true) (sym same) n.0,
      subst (λ k. page_of k s ≡ done q) (sym same) n.1,
    )

pub created_page :
    (s : Paging) (page perm : ℕ)
    → s.base + page < s.npage
    → page_of (pte_create (s.base + page) perm) s ≡ done page
created_page s page perm lt =
    let back : pte_create (s.base + page) perm / 2 ^ 10 ≡ s.base + page = omega arith in
    let inside : ltb (s.base + page) s.npage ≡ true = ltb-true lt in
    let above : leb s.base (s.base + page) ≡ true = leb-true (omega arith) in
    let minus : s.base + page - s.base ≡ page = omega arith in rw (back, above, inside, minus) refl

pub created_valid : (n perm : ℕ) → is_valid (pte_create n perm) ≡ true
created_valid n perm = let odd : pte_create n perm % 2 ≡ 1 = omega arith in rw odd refl
