-- ===== src/Memory/Equal.antt =====
-- When the comparisons of string.c find two strings equal.
use oshub.Prelude.{
  ℕ, zero, suc, ◌+◌, ◌≤◌, ◌<◌, ◌≡◌, ◌↔◌, refl, sym, ap, ◌∙◌, true, ◌==◌, ==-ne, ==-refl, inl, inr,
  eq-cases, arith,
}
use oshub.Memory.{Bytes, strlen}
use oshub.Memory.Compare.{difference, strcmp}

difference-zero : (a b : ℕ) → a < 256 → b < 256 → difference a b ≡ 0 → a ≡ b
difference-zero a b h k e = omega (arith, e)

difference-same : (a b : ℕ) → a ≡ b → difference a b ≡ 0
difference-same a b e = omega (arith, e)

-- What the head and the rest of two strings say of the whole.
from_head :
    (m : Bytes) (s1 s2 n : ℕ)
    → m s1 ≡ m s2
    → ((i : ℕ) → i ≤ n → m (s1 + 1 + i) ≡ m (s2 + 1 + i))
    → (i : ℕ) → i ≤ n + 1
    → m (s1 + i) ≡ m (s2 + i)
from_head m s1 s2 n e rest zero h =
    let p : s1 + 0 ≡ s1 = omega arith in
    let q : s2 + 0 ≡ s2 = omega arith in ap m p ∙ e ∙ sym (ap m q)
from_head m s1 s2 n e rest (suc i) h =
    let p : s1 + suc i ≡ s1 + 1 + i = omega arith in
    let q : s2 + suc i ≡ s2 + 1 + i = omega arith in ap m p ∙ rest i (omega arith) ∙ sym (ap m q)

to_rest :
    (m : Bytes) (s1 s2 n : ℕ)
    → ((i : ℕ) → i ≤ n + 1 → m (s1 + i) ≡ m (s2 + i))
    → (i : ℕ) → i ≤ n
    → m (s1 + 1 + i) ≡ m (s2 + 1 + i)
to_rest m s1 s2 n all i h =
    let p : s1 + suc i ≡ s1 + 1 + i = omega arith in
    let q : s2 + suc i ≡ s2 + 1 + i = omega arith in
    sym (ap m p) ∙ all (suc i) (omega arith) ∙ ap m q

to_head : (m : Bytes) (s1 s2 n : ℕ) → ((i : ℕ) → i ≤ n → m (s1 + i) ≡ m (s2 + i)) → m s1 ≡ m s2
to_head m s1 s2 n all =
    let p : s1 + 0 ≡ s1 = omega arith in
    let q : s2 + 0 ≡ s2 = omega arith in sym (ap m p) ∙ all 0 (omega arith) ∙ ap m q

only_head : (m : Bytes) (s1 s2 : ℕ) → m s1 ≡ m s2 → (i : ℕ) → i ≤ 0 → m (s1 + i) ≡ m (s2 + i)
only_head m s1 s2 e zero h =
    let p : s1 + 0 ≡ s1 = omega arith in
    let q : s2 + 0 ≡ s2 = omega arith in ap m p ∙ e ∙ sym (ap m q)
only_head m s1 s2 e (suc i) h = absurd (omega arith)

-- `strcmp` returns 0 exactly if the second string has the bytes of the first one, its terminator
-- included, where all bytes are below 256 and the fuel is above the length of the first string.
pub strcmp_lem :
    (f s1 s2 : ℕ) (m : Bytes)
    → ((x : ℕ) → m x < 256)
    → strlen f s1 m < f
    → (strcmp f s1 s2 m ≡ 0) ↔ ((i : ℕ) → i ≤ strlen f s1 m → m (s1 + i) ≡ m (s2 + i))
unfolding strcmp strlen
strcmp_lem zero s1 s2 m byte lt = absurd (omega arith)
strcmp_lem (suc f) s1 s2 m byte lt = elim (eq-cases (m s1) 0) [
  | inl z ↦
      let ends : (m s1 == 0) ≡ true = rw z refl in
      rw ends (
        λ r. only_head m s1 s2 (difference-zero (m s1) (m s2) (byte s1) (byte s2) r),
        λ all. difference-same (m s1) (m s2) (to_head m s1 s2 0 all),
      )
  | inr nz ↦ elim (eq-cases (m s1) (m s2)) [
    | inl e ↦
        let same : (m s1 == m s2) ≡ true = rw e (==-refl (m s2)) in
        let lt' : strlen f (s1 + 1) m + 1 < suc f = rw (==-ne nz) at lt in
        let (there, back) = strcmp_lem f (s1 + 1) (s2 + 1) m byte (omega (arith, lt')) in
        rw (==-ne nz, same)
          (
            λ r. from_head m s1 s2 (strlen f (s1 + 1) m) e (there r),
            λ all. back (to_rest m s1 s2 (strlen f (s1 + 1) m) all),
          )
    | inr ne ↦
        rw (==-ne nz, ==-ne ne)
          (
            λ r. absurd (ne (difference-zero (m s1) (m s2) (byte s1) (byte s2) r)),
            λ all. absurd (ne (to_head m s1 s2 (strlen f (s1 + 1) m + 1) all)),
          )
  ]
]
