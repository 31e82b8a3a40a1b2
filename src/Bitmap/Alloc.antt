-- ===== src/Bitmap/Alloc.antt =====
-- `bitmap_alloc` and `bitmap_free` of bitmap.c.
use mathlib.Core.Bool.{true≢false}
use oshub.Prelude.{
  ℕ, zero, suc, ◌+◌, ◌*◌, ◌/◌, ◌%◌, ◌^◌, ◌≤◌, ◌<◌, ◌≡◌, ◌≢◌, refl, ap, sym, ◌∙◌, ◌⊎◌, true, false,
  not, inl, inr, some, none, done, panic, Bool, arith, Bool-cases, lt-cases, eq-cases, update,
  ltb-true, ltb-false,
}
use oshub.Bitmap.{Bitmap, bit, alloc, alloc_loop, free}
use oshub.Bitmap.Bits.{Valid, scan-first, write-at, write-other}

-- The block `i` was free and has the given bit now; nothing else changed.
pub record Turned (b b' : Bitmap) (i : ℕ) (v : Bool) : Type 0 where
  pub inside : i < b.nbits
  pub was : bit b i ≡ not v
  pub now : bit b' i ≡ v
  pub others : (j : ℕ) → j ≢ i → bit b' j ≡ bit b j
  pub size : b'.nbits ≡ b.nbits
  pub valid : Valid b'

abbrev written : Bitmap → ℕ → Bool → Bitmap
written b i v = record b { map = update b.map (i / 32) (update (b.map (i / 32)) (i % 32) v) }

written-Turned :
    (b : Bitmap) (i : ℕ) (v : Bool)
    → Valid b
    → i < b.nbits
    → bit b i ≡ not v
    → Turned b (written b i v) i v
written-Turned b i v valid inside was = record {
  inside = inside;
  was = was;
  now = write-at b i v;
  others = λ j ne. write-other b i v j ne;
  size = refl;
  valid = record {
    words = valid.words;
    small = valid.small;
    rest = λ j lo hi. write-other b i v j (λ e. omega arith) ∙ valid.rest j lo hi;
  };
}

-- What the loop finds from the word `ix` on.
alloc_loop_lem :
    (k ix : ℕ) (b : Bitmap)
    → ix + k ≡ b.nwords
    → Valid b
    → ((alloc_loop k ix b ≡ done (none, b))
        × ((j : ℕ) → ix * 32 ≤ j → j < b.nbits → bit b j ≡ false))
      ⊎ ((i : ℕ) × (alloc_loop k ix b ≡ done (some i, written b i false))
          × (i < b.nbits)
          × (bit b i ≡ true)
          × ((j : ℕ) → ix * 32 ≤ j → j < i → bit b j ≡ false))
unfolding alloc_loop
alloc_loop_lem zero ix b e v = inl (refl, λ j lo hi. absurd (omega (arith, e, v.words)))
alloc_loop_lem (suc k) ix b e v = elim (scan-first 32 0 (b.map ix)) [
  | inl (z, none_here) ↦ elim (alloc_loop_lem k (ix + 1) b (omega (arith, e)) v) [
    | inl (run, clear) ↦ inl (
      rw z run,
      λ j lo hi. elim (lt-cases j ((ix + 1) * 32)) [
        | inl lt ↦
            ap (λ q. b.map q (j % 32)) (word j lo lt)
            ∙ none_here (j % 32) (omega arith) (omega arith)
        | inr ge ↦ clear j ge hi
      ],
    )
    | inr (i, run, inside, one, first) ↦ inr (
      i,
      rw z run,
      inside,
      one,
      λ j lo hi. elim (lt-cases j ((ix + 1) * 32)) [
        | inl lt ↦
            ap (λ q. b.map q (j % 32)) (word j lo lt)
            ∙ none_here (j % 32) (omega arith) (omega arith)
        | inr ge ↦ first j ge hi
      ],
    )
  ]
  | inr (z, (o, found, lo, hi, one, first)) ↦
      let at_word : (ix * 32 + o) / 32 ≡ ix = omega arith in
      let at_bit : (ix * 32 + o) % 32 ≡ o = omega arith in
      let here : bit b (ix * 32 + o) ≡ true =
        ap (λ q. b.map q ((ix * 32 + o) % 32)) at_word ∙ ap (b.map ix) at_bit ∙ one in
      let inside : ix * 32 + o < b.nbits = within (ix * 32 + o) (omega (arith, e)) here in
      let index : (ix * 32 + o) % 2 ^ 32 ≡ ix * 32 + o = omega (arith, v.small) in
      inr (
        ix * 32 + o,
        rw (z, found) (rw (index, at_word, at_bit, one) refl),
        inside,
        here,
        λ j l h.
            ap (λ q. b.map q (j % 32)) (word j l (omega arith))
            ∙ first (j % 32) (omega arith) (omega arith),
      )
]
  where
    word : (j : ℕ) → ix * 32 ≤ j → j < (ix + 1) * 32 → j / 32 ≡ ix
    word j lo hi = omega arith

    within : (i : ℕ) → i < b.nwords * 32 → bit b i ≡ true → i < b.nbits
    within i lt h = elim (lt-cases i b.nbits) [
      | inl l ↦ l
      | inr ge ↦ absurd (true≢false (sym h ∙ v.rest i ge lt))
    ]

-- `bitmap_alloc` of a valid bitmap does not panic: it returns the index of the first bit that is 1,
-- a free block, which is 0 then and no other bit has changed, or -E_NO_MEM and the same bitmap if
-- no bit is 1.
pub alloc-Turned :
    (b : Bitmap)
    → Valid b
    → ((alloc b ≡ done (none, b)) × ((j : ℕ) → j < b.nbits → bit b j ≡ false))
      ⊎ ((i : ℕ) × (b' : Bitmap) × (alloc b ≡ done (some i, b'))
          × Turned b b' i false
          × ((j : ℕ) → j < i → bit b j ≡ false))
unfolding alloc
alloc-Turned b v = elim (alloc_loop_lem b.nwords 0 b (omega arith) v) [
  | inl (run, clear) ↦ inl (run, λ j h. clear j (omega arith) h)
  | inr (i, run, inside, one, first) ↦ inr (
    i,
    written b i false,
    run,
    written-Turned b i false v inside one,
    λ j h. first j (omega arith) h,
  )
]

-- `bitmap_free` panics for an index that is out of range or of a block that is free already;
-- otherwise the block is free then and nothing else has changed.
pub free-Turned :
    (b : Bitmap) (i : ℕ)
    → Valid b
    → ((b.nbits ≤ i) × (free i b ≡ panic))
      ⊎ ((bit b i ≡ true) × (free i b ≡ panic))
      ⊎ ((b' : Bitmap) × (free i b ≡ done b') × Turned b b' i true)
unfolding free
free-Turned b i v = elim (lt-cases i b.nbits) [
  | inr ge ↦ inl (ge, rw (ltb-false ge) refl)
  | inl lt ↦ elim (Bool-cases (bit b i)) [
    | inl e ↦ inr (inl (e, rw (ltb-true lt, e) refl))
    | inr e ↦ inr (inr (written b i true, rw (ltb-true lt, e) refl, written-Turned b i true v lt e))
  ]
]

-- `bitmap_alloc` of a valid bitmap reports that no block is free, or hands out a block that
-- `bitmap_free` takes back without a panic, and then every bit is as it was.
pub free-alloc :
    (b : Bitmap)
    → Valid b
    → (alloc b ≡ done (none, b))
      ⊎ ((i : ℕ) × (b1 : Bitmap) × (b2 : Bitmap) × (alloc b ≡ done (some i, b1))
          × (free i b1 ≡ done b2)
          × ((j : ℕ) → bit b2 j ≡ bit b j))
free-alloc b v = elim (alloc-Turned b v) [
  | inl (run, clear) ↦ inl run
  | inr (i, b1, run, t, first) ↦ elim (free-Turned b1 i t.valid) [
    | inl (ge, stop) ↦ absurd (omega (arith, t.inside, t.size))
    | inr (inl (one, stop)) ↦ absurd (true≢false (sym one ∙ t.now))
    | inr (inr (b2, back, u)) ↦ inr (
      i,
      b1,
      b2,
      run,
      back,
      λ j. elim (eq-cases j i) [
        | inl e ↦ rw e (u.now ∙ sym t.was)
        | inr ne ↦ u.others j ne ∙ t.others j ne
      ],
    )
  ]
]
