-- ===== src/Vmm/Gap.antt =====
-- Where `insert_vma_struct` of vmm.c puts an area, and what its checks of the two neighbours say.
use oshub.Prelude.{
  ℕ, zero, suc, ◌+◌, ◌≤◌, ◌<◌, ◌≡◌, ◌≢◌, refl, sym, ap, ◌∙◌, true, false, ltb-true, ltb-false,
  leb-true, leb-false, ◌==◌, ==-ne, if◌then◌else◌, ◌⊎◌, inl, inr, lt-cases, arith, Run, done, panic,
  some, none, List, [], ◌∷◌, ◌++◌, length, last_or, head_or, All, All-mono, ◌∉◌,
}
use mathlib.Core.Path.{subst}
use oshub.Links.Chain.{Chain}
use oshub.Vmm.Areas.{Vma, Mm, mmap_list, within, place_loop, check_vma_overlap}
use oshub.Vmm.Lookup.{Ordered, area_at, below}

-- The end of the last area, or `lo`.
abbrev pub end_or : (ℕ → Vma) → ℕ → List ℕ → ℕ
end_or a lo [] = lo
end_or a lo (v ∷ vs) = end_or a (a v).vm_end vs

-- The first area, if there is one, begins at `hi` or above.
abbrev pub Above : (ℕ → Vma) → ℕ → List ℕ → Type 0
Above a hi [] = Unit
Above a hi (v ∷ vs) = hi ≤ (a v).vm_start

-- Where the walk stops.
pub place_loop_lem :
    (s : Mm) (start f p : ℕ) (xs : List ℕ)
    → Chain s.links p xs mmap_list
    → mmap_list ∉ xs
    → length xs < f
    → (ls : List ℕ) × (hs : List ℕ) × (xs ≡ ls ++ hs)
      × (place_loop f p start s ≡ last_or p ls)
      × All (λ v. (s.vmas v).vm_start ≤ start) ls
      × Above s.vmas (start + 1) hs
unfolding place_loop
place_loop_lem s start zero p xs c out lt = absurd (omega arith)
place_loop_lem s start (suc f) p [] c out lt = ([], [], refl, rw c.0 refl, tt, tt)
place_loop_lem s start (suc f) p (x ∷ xs) c out lt =
    let here : s.links.next p ≡ x = c.0.0 in
    let more : (x == mmap_list) ≡ false = ==-ne (λ e. out.0 (sym e)) in
    elim (lt-cases start (s.vmas x).vm_start) [
      | inl h ↦ ([], x ∷ xs, refl, rw (here, more, ltb-true h) refl, tt, omega arith)
      | inr h ↦
          let (ls, hs, e, run, le, above) = place_loop_lem s start f x xs c.1 out.1 (omega arith) in
          (x ∷ ls, hs, ap (λ l. x ∷ l) e, rw (here, more, ltb-false h) run, (h, le), above)
    ]

-- A new area between two parts of the list.
pub Ordered-insert :
    (a : ℕ → Vma) (v lo : ℕ) (ls hs : List ℕ)
    → Ordered a lo (ls ++ hs)
    → end_or a lo ls ≤ (a v).vm_start
    → (a v).vm_start < (a v).vm_end
    → Above a (a v).vm_end hs
    → Ordered a lo (ls ++ v ∷ hs)
Ordered-insert a v lo [] [] o le lt above = (le, lt, tt)
Ordered-insert a v lo [] (b ∷ hs) o le lt above = (le, lt, (above, o.1, o.2))
Ordered-insert a v lo (x ∷ ls) hs o le lt above =
    (o.0, o.1, Ordered-insert a v (a x).vm_end ls hs o.2 le lt above)

-- The area of an address in one of the list.
area_at-member :
    (a : ℕ → Vma) (lo x v : ℕ) (ls hs : List ℕ)
    → Ordered a lo (ls ++ v ∷ hs)
    → within x (a v) ≡ true
    → area_at a (ls ++ v ∷ hs) x ≡ some v
area_at-member a lo x v [] hs o w = rw w refl
area_at-member a lo x v (y ∷ ls) hs o w =
    let there = area_at-member a (a y).vm_end x v ls hs o.2 w in
    elim (lt-cases x (a y).vm_end) [
      | inl lt ↦
          let clash : none ≡ some v = sym (below a (a y).vm_end x (ls ++ v ∷ hs) o.2 lt) ∙ there in
          absurd cc
      | inr ge ↦ let out : within x (a y) ≡ false = ground (arith, ge) in rw out there
    ]

-- The last area before a gap reaches to `end_or`.
last-end :
    (a : ℕ → Vma) (lo : ℕ) (p : ℕ) (ls hs : List ℕ)
    → Ordered a lo (p ∷ ls ++ hs)
    → (ds : List ℕ) × (p ∷ ls ++ hs ≡ ds ++ last_or p ls ∷ hs)
      × (end_or a (a p).vm_end ls ≡ (a (last_or p ls)).vm_end)
      × ((a (last_or p ls)).vm_start < (a (last_or p ls)).vm_end)
last-end a lo p [] hs o = ([], refl, refl, o.1)
last-end a lo p (x ∷ ls) hs o =
    let (ds, e, h, lt) = last-end a (a p).vm_end x ls hs o.2 in (p ∷ ds, ap (λ l. p ∷ l) e, h, lt)

All-last : (P : ℕ → Type 0) (p : ℕ) (ls : List ℕ) → All P (p ∷ ls) → P (last_or p ls)
All-last P p [] h = h.0
All-last P p (x ∷ ls) h = All-last P x ls h.1

-- Some address lies in the area and in one of the list.
abbrev pub Overlaps : (ℕ → Vma) → List ℕ → Vma → Type 0
Overlaps a xs v = (x : ℕ) × (w : ℕ) × (within x v ≡ true) × (area_at a xs x ≡ some w)

module _ (s : Mm) (v : ℕ) (lt : (s.vmas v).vm_start < (s.vmas v).vm_end) where
  abbrev pub left : ℕ → Run (Unit {0})
  left p = if p == mmap_list then done tt else check_vma_overlap (s.vmas p) (s.vmas v)

  abbrev pub right : ℕ → Run (Unit {0})
  right q = if q == mmap_list then done tt else check_vma_overlap (s.vmas v) (s.vmas q)

  pub left_check :
      (ls hs : List ℕ)
      → Ordered s.vmas 0 (ls ++ hs)
      → mmap_list ∉ ls
      → All (λ l. (s.vmas l).vm_start ≤ (s.vmas v).vm_start) ls
      → ((left (last_or mmap_list ls) ≡ done tt) × (end_or s.vmas 0 ls ≤ (s.vmas v).vm_start))
        ⊎ ((left (last_or mmap_list ls) ≡ panic) × Overlaps s.vmas (ls ++ hs) (s.vmas v))
  unfolding check_vma_overlap
  left_check [] hs o out le = inl (refl, omega arith)
  left_check (l ∷ ls) hs o out le =
      let (ds, e, last, some_end) = last-end s.vmas 0 l ls hs o in
      let p : ℕ = last_or l ls in
      let more : (p == mmap_list) ≡ false = ==-ne (
        All-last (λ q. q ≢ mmap_list) l ls
          (All-mono (λ q. mmap_list ≢ q) (λ q. q ≢ mmap_list) (l ∷ ls) (λ q ne e. ne (sym e))
            out)) in
      let starts : (s.vmas p).vm_start ≤ (s.vmas v).vm_start =
        All-last (λ q. (s.vmas q).vm_start ≤ (s.vmas v).vm_start) l ls le in
      elim (lt-cases (s.vmas v).vm_start (s.vmas p).vm_end) [
        | inr apart ↦ inl (
          rw (more, ltb-true some_end, leb-true apart, ltb-true lt) refl,
          omega (arith, last, apart),
        )
        | inl clash ↦
            let x : ℕ = (s.vmas v).vm_start in
            let in_p : within x (s.vmas p) ≡ true = rw (leb-true starts, ltb-true clash) refl in
            let in_v : within x (s.vmas v) ≡ true =
              rw (leb-true {a = x} {b = x} (omega arith), ltb-true lt) refl in
            inr (
              rw (more, ltb-true some_end, leb-false clash) refl,
              (
                x,
                p,
                in_v,
                ap (λ l. area_at s.vmas l x) e
                    ∙ area_at-member s.vmas 0 x p ds hs (subst (Ordered s.vmas 0) e o) in_p,
              ),
            )
      ]

  pub right_check :
      (ls hs : List ℕ)
      → Ordered s.vmas 0 (ls ++ hs)
      → mmap_list ∉ hs
      → Above s.vmas ((s.vmas v).vm_start + 1) hs
      → ((right (head_or hs mmap_list) ≡ done tt) × Above s.vmas (s.vmas v).vm_end hs)
        ⊎ ((right (head_or hs mmap_list) ≡ panic) × Overlaps s.vmas (ls ++ hs) (s.vmas v))
  unfolding check_vma_overlap
  right_check ls [] o out above = inl (refl, tt)
  right_check ls (h ∷ hs) o out above =
      let more : (h == mmap_list) ≡ false = ==-ne (λ e. out.0 (sym e)) in
      let some_h : (s.vmas h).vm_start < (s.vmas h).vm_end = member_some ls o in
      elim (lt-cases (s.vmas h).vm_start (s.vmas v).vm_end) [
        | inr apart ↦ inl (rw (more, ltb-true lt, leb-true apart, ltb-true some_h) refl, apart)
        | inl clash ↦
            let x : ℕ = (s.vmas h).vm_start in
            let in_h : within x (s.vmas h) ≡ true =
              rw (leb-true {a = x} {b = x} (omega arith), ltb-true some_h) refl in
            let in_v : within x (s.vmas v) ≡ true =
              rw (leb-true {a = (s.vmas v).vm_start} {b = x} (omega arith), ltb-true clash) refl in
            inr (
              rw (more, ltb-true lt, leb-false clash) refl,
              (x, h, in_v, area_at-member s.vmas 0 x h ls hs o in_h),
            )
      ]
    where
      some_in :
          (lo : ℕ) (ls : List ℕ)
          → Ordered s.vmas lo (ls ++ h ∷ hs)
          → (s.vmas h).vm_start < (s.vmas h).vm_end
      some_in lo [] o = o.1
      some_in lo (l ∷ ls) o = some_in (s.vmas l).vm_end ls o.2

      member_some :
          (ls : List ℕ) → Ordered s.vmas 0 (ls ++ h ∷ hs) → (s.vmas h).vm_start < (s.vmas h).vm_end
      member_some = some_in 0
