-- ===== src/Vmm/Lookup.antt =====
-- `find_vma` of vmm.c, with its cache, against the search through the ordered areas.
use oshub.Prelude.{
  ℕ, zero, suc, ◌+◌, ◌≤◌, ◌<◌, ◌≡◌, ◌≢◌, refl, sym, ap, ◌∙◌, true, false, Bool-cases, ltb,
  ltb-false, leb, leb-false, ◌==◌, ==-ne, if◌then◌else◌, inl, inr, eq-cases, lt-cases, arith,
  Option, some, none, List, [], ◌∷◌, length, ◌∉◌,
}
use mathlib.Core.Path.{subst}
use oshub.Links.Chain.{Chain}
use oshub.Links.Ring.{Ring}
use oshub.Vmm.Areas.{Vma, Mm, mmap_list, within, find_loop, find_vma, remember}

-- The areas `xs` follow each other in memory, from `lo` on, and none is empty.
abbrev pub Ordered : (ℕ → Vma) → ℕ → List ℕ → Type 0
Ordered a lo [] = Unit
Ordered a lo (v ∷ vs) =
    (lo ≤ (a v).vm_start) × ((a v).vm_start < (a v).vm_end) × Ordered a (a v).vm_end vs

-- The area of the list that an address lies in.
abbrev pub area_at : (ℕ → Vma) → List ℕ → ℕ → Option ℕ
area_at a [] addr = none
area_at a (v ∷ vs) addr = if within addr (a v) then some v else area_at a vs addr

-- The list of the areas, and what the cache and the count say of it.
pub record Areas (s : Mm) (xs : List ℕ) : Type 0 where
  pub ring : Ring s.links mmap_list xs
  pub ordered : Ordered s.vmas 0 xs
  pub counted : s.map_count ≡ length xs
  pub cached :
      (addr : ℕ)
      → s.mmap_cache ≢ 0
      → within addr (s.vmas s.mmap_cache) ≡ true
      → area_at s.vmas xs addr ≡ some s.mmap_cache

find_loop-area_at :
    (s : Mm) (addr f p : ℕ) (xs : List ℕ)
    → Chain s.links p xs mmap_list
    → mmap_list ∉ xs
    → length xs < f
    → find_loop f p addr s ≡ area_at s.vmas xs addr
unfolding find_loop
find_loop-area_at s addr zero p xs c out lt = absurd (omega arith)
find_loop-area_at s addr (suc f) p [] c out lt = rw c.0 refl
find_loop-area_at s addr (suc f) p (x ∷ xs) c out lt =
    let here : s.links.next p ≡ x = c.0.0 in
    let more : (x == mmap_list) ≡ false = ==-ne (λ e. out.0 (sym e)) in
    rw (here, more, find_loop-area_at s addr f x xs c.1 out.1 (omega arith)) refl

within-bounds :
    (addr : ℕ) (v : Vma) → within addr v ≡ true → (v.vm_start ≤ addr) × (addr < v.vm_end)
within-bounds addr v e = ground (arith, e)

-- An address below all areas lies in none.
pub below :
    (a : ℕ → Vma) (lo addr : ℕ) (xs : List ℕ)
    → Ordered a lo xs
    → addr < lo
    → area_at a xs addr ≡ none
below a lo addr [] o h = refl
below a lo addr (v ∷ vs) o h =
    let out : leb (a v).vm_start addr ≡ false = leb-false (omega arith) in
    rw out (below a (a v).vm_end addr vs o.2 (omega arith))

-- An area that was found is the one of every address in it.
pub area_at-within :
    (a : ℕ → Vma) (lo addr other v : ℕ) (xs : List ℕ)
    → Ordered a lo xs
    → area_at a xs addr ≡ some v
    → within other (a v) ≡ true
    → area_at a xs other ≡ some v
area_at-within a lo addr other v [] o e w = absurd cc
area_at-within a lo addr other v (x ∷ xs) o e w = elim (Bool-cases (within addr (a x))) [
  | inl i ↦
      let same : some x ≡ some v = rw i at e in
      let q : x ≡ v = cc in let w' : within other (a x) ≡ true = rw q w in rw w' same
  | inr i ↦
      let there : area_at a xs addr ≡ some v = rw i at e in
      let found = area_at-within a (a x).vm_end addr other v xs o.2 there w in
      elim (lt-cases other (a x).vm_end) [
        | inl lt ↦
            let nothing = below a (a x).vm_end other xs o.2 lt in
            let clash : none ≡ some v = sym nothing ∙ found in absurd cc
        | inr ge ↦
            let out : ltb other (a x).vm_end ≡ false = ltb-false ge in
            elim (Bool-cases (leb (a x).vm_start other)) [
              | inl l ↦ rw (l, out) found
              | inr l ↦ rw l found
            ]
      ]
]

find_loop-Areas :
    (s : Mm) (xs : List ℕ) (addr : ℕ)
    → Areas s xs
    → find_loop (s.map_count + 1) mmap_list addr s ≡ area_at s.vmas xs addr
find_loop-Areas s xs addr v =
    find_loop-area_at s addr (s.map_count + 1) mmap_list xs v.ring.chain v.ring.distinct.0
      (omega (arith, v.counted))

search :
    (s : Mm) (xs : List ℕ) (addr : ℕ)
    → Areas s xs
    → find_vma addr s ≡ remember (area_at s.vmas xs addr) s
unfolding find_vma
search s xs addr v = elim (eq-cases s.mmap_cache 0) [
  | inl e ↦
      let none_cached : (s.mmap_cache == 0) ≡ true = rw e refl in
      ap (λ o. remember o s) (rw none_cached (find_loop-Areas s xs addr v))
  | inr ne ↦ elim (Bool-cases (within addr (s.vmas s.mmap_cache))) [
    | inl i ↦ ap (λ o. remember o s) (rw (==-ne ne, i) (sym (v.cached addr ne i)))
    | inr i ↦ ap (λ o. remember o s) (rw (==-ne ne, i) (find_loop-Areas s xs addr v))
  ]
]

remembered :
    (s : Mm) (xs : List ℕ) (addr : ℕ) (o : Option ℕ)
    → Areas s xs
    → area_at s.vmas xs addr ≡ o
    → ((remember o s).0 ≡ o) × ((remember o s).1.vmas ≡ s.vmas) × Areas (remember o s).1 xs
remembered s xs addr none v e = (refl, refl, v)
remembered s xs addr (some x) v e = (
  refl,
  refl,
  record {
    ring = v.ring;
    ordered = v.ordered;
    counted = v.counted;
    cached = λ other ne i. area_at-within s.vmas 0 addr other x xs v.ordered e i;
  },
)

-- `find_vma` finds the area of the ordered list that the address lies in, if there is one, whether
-- it takes it from the cache or walks, and the cache agrees with the list afterwards.
pub find_vma_lem :
    (s : Mm) (xs : List ℕ) (addr : ℕ)
    → Areas s xs
    → ((find_vma addr s).0 ≡ area_at s.vmas xs addr)
      × ((find_vma addr s).1.vmas ≡ s.vmas)
      × Areas (find_vma addr s).1 xs
find_vma_lem s xs addr v =
    subst (λ r. (r.0 ≡ area_at s.vmas xs addr) × (r.1.vmas ≡ s.vmas) × Areas r.1 xs)
      (sym (search s xs addr v)) (remembered s xs addr (area_at s.vmas xs addr) v refl)
