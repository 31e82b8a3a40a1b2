-- ===== src/Paging/Mapping.antt =====
-- What `page_insert` and `page_remove` do to the references of pages.
use mathlib.Core.Path.{subst}
use oshub.Prelude.{
  ℕ, ◌+◌, ◌-◌, ◌%◌, ◌^◌, ◌<◌, ◌≡◌, ◌≢◌, ◌⊎◌, inl, inr, refl, sym, ◌∙◌, ap, Bool, true, false, ◌==◌,
  ==-refl, ==-ne, if◌then◌else◌, update, update-at, update-other, eq-cases, arith, Option, none,
  some, Run, done, ◌>>=◌,
}
use oshub.Pmm.{Pages}
use oshub.Paging.{
  Paging, set_entry, page_ref_inc, page_ref_dec, drop_page, page_remove_pte, replace,
}
use oshub.Paging.Routes.{Names}

-- The references once `page` stands where `old` stood.
abbrev pub counts : Option ℕ → ℕ → (ℕ → ℕ) → ℕ → ℕ
counts none page ref x = if x == page then ref x + 1 else ref x
counts (some q) page ref x =
    if q == page
    then ref x
    else if x == page
    then ref x + 1
    else if x == q
    then ref x - 1
    else ref x

-- The page that is replaced, if it is another one, stays in use.
abbrev pub StaysUsed : Option ℕ → ℕ → (ℕ → ℕ) → Type 0
StaysUsed none page ref = Unit
StaysUsed (some q) page ref = (q ≡ page) ⊎ ((q ≢ page) × (1 < ref q) × (ref q < 2 ^ 32))

dec_word : (n : ℕ) → 0 < n → n < 2 ^ 32 → (n + 2 ^ 32 - 1) % 2 ^ 32 ≡ n - 1
dec_word n pos lt = omega arith

drop_page-stays :
    (q : ℕ) (s : Paging)
    → 1 < s.pages.ref q
    → s.pages.ref q < 2 ^ 32
    → drop_page q s ≡ done (page_ref_dec q s)
unfolding drop_page
drop_page-stays q s gt lt =
    let left : (s.pages.ref q + 2 ^ 32 - 1) % 2 ^ 32 ≢ 0 =
      λ e. omega (arith, dec_word (s.pages.ref q) (omega arith) lt, e) in
    let at = update-at s.pages.ref q ((s.pages.ref q + 2 ^ 32 - 1) % 2 ^ 32) in
    rw (at, ==-ne left) refl

pub page_remove_pte-stays :
    (s : Paging) (t i q : ℕ)
    → Names s t i (some q)
    → 1 < s.pages.ref q
    → s.pages.ref q < 2 ^ 32
    → page_remove_pte t i s ≡ done (set_entry t i 0 (page_ref_dec q s))
unfolding page_remove_pte
page_remove_pte-stays s t i q n gt lt = rw n.0 (
    ap (λ (m : Run ℕ). m >>= λ p. drop_page p s >>= λ s'. done (set_entry t i 0 s')) n.1
    ∙ ap (λ (m : Run Paging). m >>= λ s'. done (set_entry t i 0 s')) (drop_page-stays q s gt lt))

inc_word : (n : ℕ) → n + 1 < 2 ^ 32 → (n + 1) % 2 ^ 32 ≡ n + 1
inc_word n lt = omega arith

refs_none :
    (ref : ℕ → ℕ) (page x : ℕ)
    → ref page + 1 < 2 ^ 32
    → update ref page ((ref page + 1) % 2 ^ 32) x ≡ counts none page ref x
refs_none ref page x lt = elim (eq-cases x page) [
  | inl e ↦ rw (e, ==-refl page) (inc_word (ref page) lt)
  | inr ne ↦ rw (==-ne ne) refl
]

refs_same :
    (ref : ℕ → ℕ) (page x : ℕ)
    → ref page + 1 < 2 ^ 32
    → update
        (update ref page ((ref page + 1) % 2 ^ 32))
        page
        ((update ref page ((ref page + 1) % 2 ^ 32) page + 2 ^ 32 - 1) % 2 ^ 32)
        x
      ≡ ref x
refs_same ref page x lt = elim (eq-cases x page) [
  | inl e ↦
      rw (e, ==-refl page)
        (omega (arith, inc_word (ref page) lt, dec_word (ref page + 1) (omega arith) lt))
  | inr ne ↦ rw (==-ne ne) refl
]

refs_other :
    (ref : ℕ → ℕ) (page q x : ℕ)
    → ref page + 1 < 2 ^ 32
    → q ≢ page
    → 1 < ref q
    → ref q < 2 ^ 32
    → update
        (update ref page ((ref page + 1) % 2 ^ 32))
        q
        ((update ref page ((ref page + 1) % 2 ^ 32) q + 2 ^ 32 - 1) % 2 ^ 32)
        x
      ≡ counts (some q) page ref x
refs_other ref page q x lt ne gt small = elim (eq-cases x q) [
  | inl e ↦ rw (e, ==-refl q, ==-ne ne) (dec_word (ref q) (omega arith) small)
  | inr nq ↦ elim (eq-cases x page) [
    | inl e ↦ rw (==-ne nq, ==-ne ne, e, ==-refl page) (inc_word (ref page) lt)
    | inr np ↦ rw (==-ne nq, ==-ne np, ==-ne ne) refl
  ]
]

if_true {ℓ} : {A : Type ℓ} {b : Bool} → b ≡ true → (x y : A) → (if b then x else y) ≡ x
if_true e x y = rw e refl

if_false {ℓ} : {A : Type ℓ} {b : Bool} → b ≡ false → (x y : A) → (if b then x else y) ≡ y
if_false e x y = rw e refl

-- What `page_insert` leaves before it writes the entry.
abbrev pub Replaced : Paging → Option ℕ → ℕ → ℕ → ℕ → Type 0
Replaced s old page t i =
    (p : Pages) × (b : Bool) × (replace page t i s
      ≡ done (let u : Paging = record s { pages = p } in if b then set_entry t i 0 u else u))
    × ((x : ℕ) → p.ref x ≡ counts old page s.pages.ref x)

pub replaced :
    (s : Paging) (page t i : ℕ) (old : Option ℕ)
    → Names s t i old
    → s.pages.ref page + 1 < 2 ^ 32
    → StaysUsed old page s.pages.ref
    → Replaced s old page t i
replaced s page t i none n small used =
    ((page_ref_inc page s).pages, false, rw n refl, λ x. refs_none s.pages.ref page x small)
replaced s page t i (some q) n small (inl e) =
    let same : (q == page) ≡ true = rw e (==-refl page) in
    (
      (page_ref_dec page (page_ref_inc page s)).pages,
      false,
      rw n.0 (
          ap
            (λ (m : Run ℕ). m >>= λ p.
              if p == page
              then done (page_ref_dec page (page_ref_inc page s))
              else page_remove_pte t i (page_ref_inc page s))
            n.1
          ∙ if_true same (done (page_ref_dec page (page_ref_inc page s)))
              (page_remove_pte t i (page_ref_inc page s))),
      λ x. rw same (refs_same s.pages.ref page x small),
    )
replaced s page t i (some q) n small (inr (ne, gt, lt)) =
    let s1 : Paging = page_ref_inc page s in
    let ref : s1.pages.ref q ≡ s.pages.ref q =
      update-other s.pages.ref page ((s.pages.ref page + 1) % 2 ^ 32) q ne in
    (
      (page_ref_dec q s1).pages,
      true,
      rw n.0 (
          ap
            (λ (m : Run ℕ).
              m >>= λ p. if p == page then done (page_ref_dec page s1) else page_remove_pte t i s1)
            n.1
          ∙ if_false (==-ne ne) (done (page_ref_dec page s1)) (page_remove_pte t i s1)
          ∙ page_remove_pte-stays s1 t i q n (subst (λ k. 1 < k) (sym ref) gt)
              (subst (λ k. k < 2 ^ 32) (sym ref) lt)),
      λ x. refs_other s.pages.ref page q x small ne gt lt,
    )
