-- ===== src/Memory/Copy.antt =====
-- What the copying and filling functions of string.c leave in memory, and what the two that count
-- return.
use oshub.Prelude.{
  ℕ, zero, suc, ◌+◌, ◌-◌, ◌≤◌, ◌<◌, ◌≡◌, ◌≢◌, refl, ap, ◌∙◌, ◌⊎◌, inl, inr, arith, update,
  update-at, update-other, eq-cases, lt-cases, ltb, ltb-true, ltb-false, ==-ne, if◌then◌else◌,
}
use oshub.Memory.{Bytes, copy_up, copy_down, memmove, memcpy, strlen, strnlen}

-- The `n` bytes at `d` are those that stood at `s`, and all others are as they were.
pub record Copied (n d s : ℕ) (m m' : Bytes) : Type 0 where
  pub inside : (x : ℕ) → d ≤ x → x < d + n → m' x ≡ m (s + (x - d))
  pub below : (x : ℕ) → x < d → m' x ≡ m x
  pub above : (x : ℕ) → d + n ≤ x → m' x ≡ m x

copy_up-Copied : (n d s : ℕ) (m : Bytes) → (d ≤ s) ⊎ (s + n ≤ d) → Copied n d s m (copy_up n d s m)
unfolding copy_up
copy_up-Copied zero d s m h = record {
  inside = λ x lo hi. absurd (omega arith);
  below = λ x lt. refl;
  above = λ x ge. refl;
}
copy_up-Copied (suc n) d s m h =
    let m1 : Bytes = update m d (m s) in
    let i = copy_up-Copied n (d + 1) (s + 1) m1 (next h) in
    record {
      inside = λ x lo hi. elim (eq-cases x d) [
        | inl e ↦ i.below x (omega arith) ∙ ap m1 e ∙ update-at m d (m s) ∙ ap m (omega arith)
        | inr ne ↦
            i.inside x (omega arith) (omega arith)
            ∙ update-other m d (m s) (s + 1 + (x - (d + 1))) (apart x ne lo hi h)
            ∙ ap m (omega arith)
      ];
      below = λ x lt. i.below x (omega arith) ∙ update-other m d (m s) x (λ e. omega arith);
      above = λ x ge. i.above x (omega arith) ∙ update-other m d (m s) x (λ e. omega arith);
    }
  where
    next : (d ≤ s) ⊎ (s + suc n ≤ d) → (d + 1 ≤ s + 1) ⊎ (s + 1 + n ≤ d + 1)
    next (inl le) = inl (omega arith)
    next (inr le) = inr (omega arith)

    apart :
        (x : ℕ)
        → x ≢ d
        → d ≤ x
        → x < d + suc n
        → (d ≤ s) ⊎ (s + suc n ≤ d)
        → (s + 1 + (x - (d + 1))) ≢ d
    apart x ne lo hi (inl le) e = omega arith
    apart x ne lo hi (inr le) e = omega arith

copy_down-Copied :
    (n d s e f : ℕ) (m : Bytes) → e ≡ d + n → f ≡ s + n → s < d → Copied n d s m (copy_down n e f m)
unfolding copy_down
copy_down-Copied zero d s e f m he hf lt = record {
  inside = λ x lo hi. absurd (omega arith);
  below = λ x h. refl;
  above = λ x h. refl;
}
copy_down-Copied (suc n) d s e f m he hf lt =
    let m1 : Bytes = update m (e - 1) (m (f - 1)) in
    let i = copy_down-Copied n d s (e - 1) (f - 1) m1 (omega (arith, he)) (omega (arith, hf)) lt in
    let other = update-other m (e - 1) (m (f - 1)) in
    record {
      inside = λ x lo hi. elim (eq-cases x (e - 1)) [
        | inl h ↦
            i.above x (omega (arith, he))
            ∙ ap m1 h
            ∙ update-at m (e - 1) (m (f - 1))
            ∙ ap m (omega (arith, he, hf))
        | inr ne ↦ i.inside x lo (omega (arith, he)) ∙ other (s + (x - d)) (λ h. omega (arith, he))
      ];
      below = λ x h. i.below x h ∙ other x (λ q. omega (arith, he));
      above = λ x h. i.above x (omega arith) ∙ other x (λ q. omega (arith, he));
    }

-- `memmove` copies the bytes as they were before the call, however the two areas overlap, and
-- changes no other byte.
pub memmove-Copied : (dst src n : ℕ) (m : Bytes) → Copied n dst src m (memmove dst src n m)
unfolding memmove
memmove-Copied dst src n m = elim (lt-cases src dst) [
  | inr ge ↦ rw (ltb-false ge) (copy_up-Copied n dst src m (inl ge))
  | inl lt ↦ elim (lt-cases dst (src + n)) [
    | inl over ↦
        rw (ltb-true lt, ltb-true over)
          (copy_down-Copied n dst src (dst + n) (src + n) m refl refl lt)
    | inr free ↦ rw (ltb-true lt, ltb-false free) (copy_up-Copied n dst src m (inr free))
  ]
]

-- `memcpy` does the same as `memmove` where the source does not begin below the destination and
-- reach into it.
pub memcpy-memmove :
    (dst src n : ℕ) (m : Bytes)
    → (dst ≤ src) ⊎ (src + n ≤ dst)
    → memcpy dst src n m ≡ memmove dst src n m
unfolding memcpy memmove
memcpy-memmove dst src n m (inl le) = rw (ltb-false le) refl
memcpy-memmove dst src n m (inr le) = elim (lt-cases src dst) [
  | inl lt ↦ rw (ltb-true lt, ltb-false le) refl
  | inr ge ↦ rw (ltb-false ge) refl
]

strlen_lem :
    (f s k : ℕ) (m : Bytes)
    → ((j : ℕ) → j < k → m (s + j) ≢ 0)
    → m (s + k) ≡ 0
    → k < f
    → strlen f s m ≡ k
unfolding strlen
strlen_lem zero s k m ne end fuel = absurd (omega arith)
strlen_lem (suc f) s zero m ne end fuel = rw (ap m (base s) ∙ end) refl
  where
    base : (s : ℕ) → s ≡ s + 0
    base s = omega arith
strlen_lem (suc f) s (suc k) m ne end fuel =
    let first : m s ≢ 0 = λ e. ne 0 (omega arith) (ap m (omega arith) ∙ e) in
    let rest =
      strlen_lem f (s + 1) k m (λ j h e. ne (j + 1) (omega arith) (ap m (omega arith) ∙ e))
        (ap m (omega arith) ∙ end) (omega arith) in
    rw (==-ne first, rest) (omega arith)

strnlen_lem :
    (s len k : ℕ) (m : Bytes)
    → ((j : ℕ) → j < k → m (s + j) ≢ 0)
    → m (s + k) ≡ 0
    → strnlen s len m ≡ (if ltb len k then len else k)
unfolding strnlen
strnlen_lem s zero k m ne end = ground arith
strnlen_lem s (suc len) zero m ne end = rw (ap m (base s) ∙ end) (ground arith)
  where
    base : (s : ℕ) → s ≡ s + 0
    base s = omega arith
strnlen_lem s (suc len) (suc k) m ne end =
    let first : m s ≢ 0 = λ e. ne 0 (omega arith) (ap m (omega arith) ∙ e) in
    let rest =
      strnlen_lem (s + 1) len k m (λ j h e. ne (j + 1) (omega arith) (ap m (omega arith) ∙ e))
        (ap m (omega arith) ∙ end) in
    rw (==-ne first, rest) (ground arith)

-- `strnlen` of a string returns its length, or the bound if that is smaller. The string ends with
-- the first 0, at `k`, where `strlen` stops too, with fuel above `k`.
pub strnlen-strlen :
    (f s len k : ℕ) (m : Bytes)
    → ((j : ℕ) → j < k → m (s + j) ≢ 0)
    → m (s + k) ≡ 0
    → k < f
    → (strlen f s m ≡ k) × (strnlen s len m ≡ (if ltb len k then len else k))
strnlen-strlen f s len k m ne end fuel =
    (strlen_lem f s k m ne end fuel, strnlen_lem s len k m ne end)
