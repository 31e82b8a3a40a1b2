-- ===== src/Vmm/Check.antt =====
-- `user_mem_check` of vmm.c against the permission of every single address.
use oshub.Prelude.{
  if◌then◌else◌, leb, ℕ, zero, suc, ◌+◌, ◌-◌, ◌%◌, ◌^◌, ◌≤◌, ◌<◌, ◌≡◌, ◌↔◌, refl, sym, ap, ◌∙◌,
  Bool, true, false, Bool-cases, ltb-true, ltb-false, leb-true, inl, inr, lt-cases, Option-cases,
  arith, Option, some, none, List, [], ◌∷◌,
}
use mathlib.Core.Path.{subst}
use mathlib.Core.Bool.{true≢false}
use oshub.Vmm.Areas.{pgsize, Vma, Mm, within, user_access, find_vma}
use oshub.Vmm.Access.{permits, check_loop, user_mem_check}
use oshub.Vmm.Lookup.{area_at, area_at-within, Areas, find_vma_lem}

abbrev allows : Bool → ℕ → (ℕ → Vma) → Option ℕ → Bool
allows write addr a none = false
allows write addr a (some v) = permits write addr (a v)

abbrev allowed : Bool → (ℕ → Vma) → List ℕ → ℕ → Bool
allowed write a xs addr = allows write addr a (area_at a xs addr)

-- An address may be accessed: it lies in an area with that permission, and a write to the stack not
-- in its lowest page.
abbrev pub Allowed : Bool → (ℕ → Vma) → List ℕ → ℕ → Type 0
Allowed write a xs addr =
    (v : ℕ) × (area_at a xs addr ≡ some v)
    × ((if write then (a v).writable else (a v).readable) ≡ true)
    × (write ≡ true → (a v).stack ≡ true → (a v).vm_start + pgsize ≤ addr)

-- What the area found for an address is.
area_at-contains :
    (a : ℕ → Vma) (xs : List ℕ) (addr v : ℕ)
    → area_at a xs addr ≡ some v
    → ((a v).vm_start ≤ addr) × (addr < (a v).vm_end)
area_at-contains a [] addr v e = absurd cc
area_at-contains a (x ∷ xs) addr v e = elim (Bool-cases (within addr (a x))) [
  | inl i ↦
      let same : some x ≡ some v = rw i at e in let q : x ≡ v = cc in rw (sym q) (ground (arith, i))
  | inr i ↦ area_at-contains a xs addr v (rw i at e)
]

allowed-Allowed :
    (write : Bool) (a : ℕ → Vma) (xs : List ℕ) (addr : ℕ)
    → allowed write a xs addr ≡ true
    → Allowed write a xs addr
unfolding permits
allowed-Allowed write a xs addr ev = elim (Option-cases (area_at a xs addr)) [
  | inl e ↦ absurd (true≢false (sym ev ∙ ap (allows write addr a) e))
  | inr (v, e) ↦
      let p : allows write addr a (some v) ≡ true = sym (ap (allows write addr a) e) ∙ ev in
      (v, e, ground (arith, p), λ w st. ground (arith, p))
]

Allowed-allowed :
    (write : Bool) (a : ℕ → Vma) (xs : List ℕ) (addr : ℕ)
    → Allowed write a xs addr
    → allowed write a xs addr ≡ true
unfolding permits
Allowed-allowed write a xs addr (v, e, may, high) =
    let bounds = area_at-contains a xs addr v e in
    ap (allows write addr a) e ∙ by_kind write may high (leb-true bounds.0)
  where
    by_kind :
        (write : Bool)
        → (if write then (a v).writable else (a v).readable) ≡ true
        → (write ≡ true → (a v).stack ≡ true → (a v).vm_start + pgsize ≤ addr)
        → leb (a v).vm_start addr ≡ true
        → permits write addr (a v) ≡ true
    by_kind false may high low = rw (low, may) refl
    by_kind true may high low = elim (Bool-cases (a v).stack) [
      | inr st ↦ rw (low, may, st) refl
      | inl st ↦ rw (low, may, st, ltb-false (high refl st)) refl
    ]

-- What holds of the first address of a part of an area holds of the others.
permits-further :
    (write : Bool) (a b : ℕ) (v : Vma) → a ≤ b → permits write a v ≡ true → permits write b v ≡ true
unfolding permits
permits-further write a b v le e = ground (arith, e)

-- What a check of the addresses from `start` to `end` returns, and the areas afterwards.
pub record Checked (write : Bool) (start end : ℕ) (s : Mm) (xs : List ℕ) (r : Bool × Mm)
    : Type 0 where
  pub sound : r.0 ≡ true → (x : ℕ) → start ≤ x → x < end → allowed write s.vmas xs x ≡ true
  pub complete : ((x : ℕ) → start ≤ x → x < end → allowed write s.vmas xs x ≡ true) → r.0 ≡ true
  pub vmas : r.1.vmas ≡ s.vmas
  pub areas : Areas r.1 xs

module _ (f : ℕ) (write : Bool) (start end : ℕ) (s : Mm) (lt : start < end) where
  step_none :
      (find_vma start s).0 ≡ none
      → check_loop (suc f) write start end s ≡ (false, (find_vma start s).1)
  unfolding check_loop
  step_none e = rw (ltb-true lt, e) refl

  step_stop :
      (v : ℕ)
      → (find_vma start s).0 ≡ some v
      → permits write start ((find_vma start s).1.vmas v) ≡ false
      → check_loop (suc f) write start end s ≡ (false, (find_vma start s).1)
  unfolding check_loop
  step_stop v e p = rw (ltb-true lt, e, p) refl

  step_on :
      (v : ℕ)
      → (find_vma start s).0 ≡ some v
      → permits write start ((find_vma start s).1.vmas v) ≡ true
      → check_loop (suc f) write start end s
        ≡ check_loop f write ((find_vma start s).1.vmas v).vm_end end (find_vma start s).1
  unfolding check_loop
  step_on v e p = rw (ltb-true lt, e, p) refl

refused :
    (write : Bool) (start end : ℕ) (s s1 : Mm) (xs : List ℕ)
    → start < end
    → allowed write s.vmas xs start ≡ false
    → s1.vmas ≡ s.vmas
    → Areas s1 xs
    → Checked write start end s xs (false, s1)
refused write start end s s1 xs lt shut same v = record {
  sound = λ e. absurd (true≢false (sym e));
  complete = λ all. sym shut ∙ all start (omega arith) lt;
  vmas = same;
  areas = v;
}

step_over :
    (f : ℕ) (write : Bool) (start end : ℕ) (s : Mm)
    → end ≤ start
    → check_loop f write start end s ≡ (true, s)
unfolding check_loop
step_over zero write start end s le = rw (ltb-false le) refl
step_over (suc f) write start end s le = rw (ltb-false le) refl

over :
    (write : Bool) (start end : ℕ) (s : Mm) (xs : List ℕ)
    → Areas s xs
    → end ≤ start
    → Checked write start end s xs (true, s)
over write start end s xs v le = record {
  sound = λ e x lo hi. absurd (omega arith);
  complete = λ h. refl;
  vmas = refl;
  areas = v;
}

-- The rest of an area and what lies behind it.
extended :
    (write : Bool) (start end v : ℕ) (s s1 : Mm) (xs : List ℕ) (r : Bool × Mm)
    → Areas s xs
    → area_at s.vmas xs start ≡ some v
    → permits write start (s.vmas v) ≡ true
    → s1.vmas ≡ s.vmas
    → Checked write (s.vmas v).vm_end end s1 xs r
    → Checked write start end s xs r
extended write start end v s s1 xs r w e p same c = record {
  sound = λ ev x lo hi. elim (lt-cases x (s.vmas v).vm_end) [
    | inl inside ↦
        let bounds = area_at-contains s.vmas xs start v e in
        let here : within x (s.vmas v) ≡ true =
          rw (leb-true {a = (s.vmas v).vm_start} {b = x} (omega (arith, bounds.0)), ltb-true inside)
            refl in
        ap (allows write x s.vmas) (area_at-within s.vmas 0 start x v xs w.ordered e here)
        ∙ permits-further write start x (s.vmas v) lo p
    | inr beyond ↦ sym (ap (λ a. allowed write a xs x) same) ∙ c.sound ev x beyond hi
  ];
  complete = λ all. c.complete (λ x lo hi.
      ap (λ a. allowed write a xs x) same
      ∙ all x (omega (arith, lo, area_at-contains s.vmas xs start v e)) hi);
  vmas = c.vmas ∙ same;
  areas = c.areas;
}

check_loop-Checked :
    (f : ℕ) (write : Bool) (start end : ℕ) (s : Mm) (xs : List ℕ)
    → Areas s xs
    → end ≤ start + f
    → Checked write start end s xs (check_loop f write start end s)
check_loop-Checked zero write start end s xs v enough =
    subst (Checked write start end s xs) (sym (step_over zero write start end s (omega arith)))
      (over write start end s xs v (omega arith))
check_loop-Checked (suc f) write start end s xs v enough = elim (lt-cases start end) [
  | inr le ↦
      subst (Checked write start end s xs) (sym (step_over (suc f) write start end s le))
        (over write start end s xs v le)
  | inl lt ↦
      let (found, same, v1) = find_vma_lem s xs start v in
      let s1 : Mm = (find_vma start s).1 in
      elim (Option-cases (area_at s.vmas xs start)) [
        | inl e ↦
            subst (Checked write start end s xs)
              (sym (step_none f write start end s lt (found ∙ e)))
              (refused write start end s s1 xs lt (ap (allows write start s.vmas) e) same v1)
        | inr (a, e) ↦
            let here : permits write start (s1.vmas a) ≡ permits write start (s.vmas a) =
              ap (λ g. permits write start (g a)) same in
            elim (Bool-cases (permits write start (s.vmas a))) [
              | inr p ↦
                  subst (Checked write start end s xs)
                    (sym (step_stop f write start end s lt a (found ∙ e) (here ∙ p)))
                    (refused write start end s s1 xs lt (ap (allows write start s.vmas) e ∙ p) same
                      v1)
              | inl p ↦
                  let bounds = area_at-contains s.vmas xs start a e in
                  let top : (s1.vmas a).vm_end ≡ (s.vmas a).vm_end = ap (λ g. (g a).vm_end) same in
                  let rest : Checked write (s.vmas a).vm_end end s1 xs
                      (check_loop f write (s1.vmas a).vm_end end s1) =
                    subst
                      (λ t.
                        Checked write t end s1 xs (check_loop f write (s1.vmas a).vm_end end s1))
                      top
                      (check_loop-Checked f write (s1.vmas a).vm_end end s1 xs v1
                        (omega (arith, top, bounds.1))) in
                  subst (Checked write start end s xs)
                    (sym (step_on f write start end s lt a (found ∙ e) (here ∙ p)))
                    (extended write start end a s s1 xs _ v e p same rest)
            ]
      ]
]

-- `user_mem_check` of a process with the areas `xs` says yes exactly if the addresses lie in user
-- space and every single one of them may be accessed; the areas stay as they are. It terminates
-- because every round of its loop passes at least one address.
pub user_mem_check_lem :
    (s : Mm) (xs : List ℕ) (addr len : ℕ) (write : Bool)
    → Areas s xs
    → (((user_mem_check addr len write s).0 ≡ true) ↔ (
        (user_access addr ((addr + len) % 2 ^ 64) ≡ true)
        × ((x : ℕ) → addr ≤ x → x < (addr + len) % 2 ^ 64 → Allowed write s.vmas xs x)))
      × ((user_mem_check addr len write s).1.vmas ≡ s.vmas)
      × Areas (user_mem_check addr len write s).1 xs
unfolding user_mem_check
user_mem_check_lem s xs addr len write v =
    elim (Bool-cases (user_access addr ((addr + len) % 2 ^ 64))) [
      | inr outside ↦ rw outside ((λ e. absurd (true≢false (sym e)), λ h. h.0), refl, v)
      | inl inside ↦
          let c =
            check_loop-Checked ((addr + len) % 2 ^ 64 - addr) write addr ((addr + len) % 2 ^ 64) s
              xs v (omega arith) in
          rw inside (
            (
              λ e. (refl, λ x lo hi. allowed-Allowed write s.vmas xs x (c.sound e x lo hi)),
              λ h. c.complete (λ x lo hi. Allowed-allowed write s.vmas xs x (h.1 x lo hi)),
            ),
            c.vmas,
            c.areas,
          )
    ]
