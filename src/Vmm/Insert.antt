-- ===== src/Vmm/Insert.antt =====
-- `insert_vma_struct` of vmm.c keeps the areas ordered, and stops the machine at an overlap.
use oshub.Prelude.{
  ℕ, ◌+◌, ◌≤◌, ◌<◌, ◌≡◌, refl, sym, ◌∙◌, Bool-cases, ltb-true, ltb-false, ◌⊎◌, inl, inr, lt-cases,
  arith, done, panic, some, none, List, [], ◌∷◌, ◌++◌, length-append, last_or, head_or, All,
  All-left, All-right, ◌∉◌,
}
use mathlib.Core.Path.{subst}
use oshub.Links
use oshub.Links.{Links}
use oshub.Links.Chain.{gap}
use oshub.Links.Ring.{add-Ring}
use oshub.Vmm.Areas.{Vma, Mm, mmap_list, within, place_loop, insert_vma_struct}
use oshub.Vmm.Lookup.{Ordered, area_at, below, Areas}
use oshub.Vmm.Gap.{
  Above, place_loop_lem, Ordered-insert, Overlaps, left, right, left_check, right_check,
}

-- What an address lies in does not change where the new area is not.
area_at-insert :
    (a : ℕ → Vma) (lo addr w v : ℕ) (ls hs : List ℕ)
    → Ordered a lo (ls ++ v ∷ hs)
    → area_at a (ls ++ hs) addr ≡ some w
    → area_at a (ls ++ v ∷ hs) addr ≡ some w
area_at-insert a lo addr w v [] hs o e = elim (Bool-cases (within addr (a v))) [
  | inr i ↦ rw i e
  | inl i ↦
      let inside : addr < (a v).vm_end = ground (arith, i) in
      let clash : none ≡ some w = sym (below a (a v).vm_end addr hs o.2 inside) ∙ e in absurd cc
]
area_at-insert a lo addr w v (l ∷ ls) hs o e = elim (Bool-cases (within addr (a l))) [
  | inl i ↦ rw i (rw i at e)
  | inr i ↦ rw i (area_at-insert a (a l).vm_end addr w v ls hs o.2 (rw i at e))
]

module _ (s : Mm) (v p q : ℕ) (e : place_loop (s.map_count + 1) mmap_list (s.vmas v).vm_start s ≡ p)
    (next : s.links.next p ≡ q) where
  empty_stops : (s.vmas v).vm_end ≤ (s.vmas v).vm_start → insert_vma_struct v s ≡ panic
  unfolding insert_vma_struct
  empty_stops h = rw (ltb-false h) refl

  left_stops :
      (lt : (s.vmas v).vm_start < (s.vmas v).vm_end)
      → left s v lt p ≡ panic
      → insert_vma_struct v s ≡ panic
  unfolding insert_vma_struct
  left_stops lt l = rw (ltb-true lt, e, l) refl

  right_stops :
      (lt : (s.vmas v).vm_start < (s.vmas v).vm_end)
      → left s v lt p ≡ done tt
      → right s v lt q ≡ panic
      → insert_vma_struct v s ≡ panic
  unfolding insert_vma_struct
  right_stops lt l r = rw (ltb-true lt, e, l, next, r) refl

  inserted :
      (lt : (s.vmas v).vm_start < (s.vmas v).vm_end)
      → left s v lt p ≡ done tt
      → right s v lt q ≡ done tt
      → insert_vma_struct v s
        ≡ done (record s { links = Links.add_after p v s.links; map_count = s.map_count + 1 })
  unfolding insert_vma_struct
  inserted lt l r = rw (ltb-true lt, e, l, next, r) refl

with_area :
    (s : Mm) (v : ℕ) (ls hs : List ℕ)
    → Areas s (ls ++ hs)
    → v ∉ (mmap_list ∷ ls ++ hs)
    → Ordered s.vmas 0 (ls ++ v ∷ hs)
    → Areas
        (record s {
          links = Links.add_after (last_or mmap_list ls) v s.links;
          map_count = s.map_count + 1;
        })
        (ls ++ v ∷ hs)
unfolding Links.add
with_area s v ls hs w out o = record {
  ring = add-Ring ls hs v w.ring out;
  ordered = o;
  counted = omega (arith, w.counted, length-append ls hs, length-append ls (v ∷ hs));
  cached = λ addr ne i. area_at-insert s.vmas 0 addr s.mmap_cache v ls hs o (w.cached addr ne i);
}

-- `insert_vma_struct` of an area that is not in the list stops the machine if the area is empty or
-- shares an address with one of the list; otherwise it puts it where the areas stay in order.
pub insert_vma_struct_lem :
    (s : Mm) (xs : List ℕ) (v : ℕ)
    → Areas s xs
    → v ∉ (mmap_list ∷ xs)
    → ((insert_vma_struct v s ≡ panic)
        × (((s.vmas v).vm_end ≤ (s.vmas v).vm_start) ⊎ Overlaps s.vmas xs (s.vmas v)))
      ⊎ ((ls : List ℕ) × (hs : List ℕ) × (s' : Mm) × (xs ≡ ls ++ hs)
          × (insert_vma_struct v s ≡ done s')
          × (s'.vmas ≡ s.vmas)
          × Areas s' (ls ++ v ∷ hs))
insert_vma_struct_lem s xs v w out =
    let (ls, hs, split, run, le, above) =
      place_loop_lem s (s.vmas v).vm_start (s.map_count + 1) mmap_list xs w.ring.chain
        w.ring.distinct.0 (omega (arith, w.counted)) in
    at_gap ls hs split run le above (subst (Areas s) split w)
      (subst (λ l. v ∉ (mmap_list ∷ l)) split out)
  where
    at_gap :
        (ls hs : List ℕ)
        → xs ≡ ls ++ hs
        → place_loop (s.map_count + 1) mmap_list (s.vmas v).vm_start s ≡ last_or mmap_list ls
        → All (λ l. (s.vmas l).vm_start ≤ (s.vmas v).vm_start) ls
        → Above s.vmas ((s.vmas v).vm_start + 1) hs
        → Areas s (ls ++ hs)
        → v ∉ (mmap_list ∷ ls ++ hs)
        → ((insert_vma_struct v s ≡ panic)
            × (((s.vmas v).vm_end ≤ (s.vmas v).vm_start) ⊎ Overlaps s.vmas xs (s.vmas v)))
          ⊎ ((ls : List ℕ) × (hs : List ℕ) × (s' : Mm) × (xs ≡ ls ++ hs)
              × (insert_vma_struct v s ≡ done s')
              × (s'.vmas ≡ s.vmas)
              × Areas s' (ls ++ v ∷ hs))
    at_gap ls hs split run le above w out =
        let next = (gap s.links mmap_list ls hs mmap_list w.ring.chain).0 in
        let p : ℕ = last_or mmap_list ls in
        let q : ℕ = head_or hs mmap_list in
        let back : Overlaps s.vmas (ls ++ hs) (s.vmas v) → Overlaps s.vmas xs (s.vmas v) =
          subst (λ l. Overlaps s.vmas l (s.vmas v)) (sym split) in
        elim (lt-cases (s.vmas v).vm_start (s.vmas v).vm_end) [
          | inr empty ↦ inl (empty_stops s v p q run next empty, inl empty)
          | inl lt ↦
              elim (left_check s v lt ls hs w.ordered (All-left _ ls hs w.ring.distinct.0) le) [
                | inr (l, o) ↦ inl (left_stops s v p q run next lt l, inr (back o))
                | inl (l, before) ↦
                    elim (right_check s v lt ls hs w.ordered (All-right _ ls hs w.ring.distinct.0)
                      above) [
                        | inr (r, o) ↦ inl (right_stops s v p q run next lt l r, inr (back o))
                        | inl (r, behind) ↦ inr (
                          ls,
                          hs,
                          record s {
                            links = Links.add_after p v s.links;
                            map_count = s.map_count + 1;
                          },
                          split,
                          inserted s v p q run next lt l r,
                          refl,
                          with_area s v ls hs w out
                              (Ordered-insert s.vmas v 0 ls hs w.ordered before lt behind),
                        )
                      ]
              ]
        ]
