-- ===== src/Bitmap/Bits.antt =====
-- Words and indices of bitmap.c.
use oshub.Prelude.{
  ℕ, zero, suc, ◌+◌, ◌-◌, ◌*◌, ◌/◌, ◌%◌, ◌^◌, ◌≤◌, ◌<◌, ◌≡◌, ◌≢◌, refl, sym, ◌∙◌, ap, Bool, true,
  false, not, ◌⊎◌, inl, inr, some, arith, Bool-cases, lt-cases, update, ==-ne, ==-refl, update-at,
  update-other, eq-cases,
}
use oshub.Bitmap.{Bitmap, word_bits, bit, is_nonzero, scan, mark_rest, flip}

-- All bits from the number of blocks on are 0, and no index overflows.
pub record Valid (b : Bitmap) : Type 0 where
  pub words : b.nwords ≡ (b.nbits + word_bits - 1) / word_bits
  pub small : b.nbits + word_bits < 2 ^ 32
  pub rest : (i : ℕ) → b.nbits ≤ i → i < b.nwords * word_bits → bit b i ≡ false

-- A word without a 1 among its bits, or the first of them.
pub scan-first :
    (k offset : ℕ) (word : ℕ → Bool)
    → ((is_nonzero k offset word ≡ false)
        × ((j : ℕ) → offset ≤ j → j < offset + k → word j ≡ false))
      ⊎ ((is_nonzero k offset word ≡ true)
          × ((o : ℕ) × (scan k offset word ≡ some o)
              × (offset ≤ o)
              × (o < offset + k)
              × (word o ≡ true)
              × ((j : ℕ) → offset ≤ j → j < o → word j ≡ false)))
unfolding is_nonzero scan
scan-first zero offset word = inl (refl, λ j lo hi. absurd (omega arith))
scan-first (suc k) offset word = elim (Bool-cases (word offset)) [
  | inl e ↦
      rw e
        (inr (refl, (offset, refl, omega arith, omega arith, e, λ j lo hi. absurd (omega arith))))
  | inr e ↦ rw e (elim (scan-first k (offset + 1) word) [
    | inl (z, none_here) ↦ inl (
      z,
      λ j lo hi. elim (lt-cases offset j) [
        | inl lt ↦ none_here j (omega arith) (omega arith)
        | inr ge ↦ let h : j ≡ offset = omega arith in rw h e
      ],
    )
    | inr (z, (o, found, lo, hi, one, first)) ↦ inr (
      z,
      (
        o,
        found,
        omega arith,
        omega arith,
        one,
        λ j l h. elim (lt-cases offset j) [
          | inl lt ↦ first j (omega arith) h
          | inr ge ↦ let h : j ≡ offset = omega arith in rw h e
        ],
      ),
    )
  ])
]

-- The bits from `overbits` on are turned over.
pub mark_rest-bits :
    (k overbits : ℕ) (word : ℕ → Bool) (j : ℕ)
    → ((j < overbits) → mark_rest k overbits word j ≡ word j)
      × (overbits ≤ j → j < overbits + k → mark_rest k overbits word j ≡ not (word j))
unfolding mark_rest
mark_rest-bits zero overbits word j = (λ h. refl, λ lo hi. absurd (omega arith))
mark_rest-bits (suc k) overbits word j =
    let rest = mark_rest-bits k (overbits + 1) (flip overbits word) j in
    (
      λ h. rest.0 (omega arith) ∙ update-other word overbits _ j (λ e. omega arith),
      λ lo hi. elim (eq-cases j overbits) [
        | inl e ↦ rest.0 (omega arith) ∙ rw e (update-at word overbits _)
        | inr ne ↦ rest.1 (omega arith) (omega arith) ∙ ap not (update-other word overbits _ j ne)
      ],
    )

-- A write to one bit of the map.
pub write-at :
    (b : Bitmap) (i : ℕ) (v : Bool)
    → bit (record b { map = update b.map (i / 32) (update (b.map (i / 32)) (i % 32) v) }) i ≡ v
write-at b i v = rw (==-refl (i / 32), ==-refl (i % 32)) refl

pub write-other :
    (b : Bitmap) (i : ℕ) (v : Bool) (j : ℕ)
    → j ≢ i
    → bit (record b { map = update b.map (i / 32) (update (b.map (i / 32)) (i % 32) v) }) j
      ≡ bit b j
write-other b i v j ne = elim (eq-cases (j / 32) (i / 32)) [
  | inl e ↦
      rw (e, ==-refl (i / 32), ==-ne {a = j % 32} {b = i % 32} (λ f. ne (omega arith)))
        (ap (λ q. b.map q (j % 32)) (sym e))
  | inr n ↦ rw (==-ne n) refl
]
