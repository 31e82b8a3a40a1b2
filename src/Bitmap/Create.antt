-- ===== src/Bitmap/Create.antt =====
-- `bitmap_create` of bitmap.c.
use oshub.Prelude.{
  ℕ, ◌+◌, ◌-◌, ◌*◌, ◌/◌, ◌%◌, ◌^◌, ◌<◌, ◌≡◌, ◌≢◌, refl, ◌∙◌, true, not, ◌&&◌, inl, inr, some, none,
  done, Bool, arith, Bool-cases, update, ◌==◌, ==-ne, ==-refl, ltb, ltb-true, if◌then◌else◌,
  eq-cases,
}
use oshub.Bitmap.{Bitmap, word_bits, bit, full, mark_rest, trim, create}
use oshub.Bitmap.Bits.{Valid, mark_rest-bits}

-- A bitmap for `n` blocks, all free, that is valid.
pub record Fresh (n : ℕ) (b : Bitmap) : Type 0 where
  pub valid : Valid b
  pub size : b.nbits ≡ n
  pub all_free : (i : ℕ) → i < n → bit b i ≡ true

trim-Fresh :
    (n : ℕ)
    → 0 < n
    → n + word_bits < 2 ^ 32
    → (b : Bitmap) × (trim (full n ((n + word_bits - 1) / word_bits)) ≡ done b) × Fresh n b
unfolding trim
trim-Fresh n pos small = elim (eq-cases n ((n + word_bits - 1) / word_bits * word_bits)) [
  | inl e ↦ (
    full n ((n + word_bits - 1) / word_bits),
    rw (whole e) refl,
    record {
      valid = record { words = refl; small = small; rest = λ i lo hi. absurd (omega arith) };
      size = refl;
      all_free = λ i h. refl;
    },
  )
  | inr ne ↦ (
    record (full n words) {
      map = update (λ _ _. true) (words - 1) (mark_rest (32 - over) over (λ _. true));
    },
    rw
        (
          ==-ne ne,
          at_last ne,
          ltb-true {a = 0} {b = over} (more ne),
          ltb-true {a = over} {b = 32} (less ne),
        )
        refl,
    record {
      valid = record {
        words = refl;
        small = small;
        rest = λ i lo hi.
            last i (omega arith)
            ∙ (mark_rest-bits (32 - over) over (λ _. true) (i % 32)).1 (omega arith) (omega arith);
      };
      size = refl;
      all_free = λ i h. elim (eq-cases (i / 32) (words - 1)) [
        | inl e ↦ last i e ∙ (mark_rest-bits (32 - over) over (λ _. true) (i % 32)).0 (omega arith)
        | inr ne2 ↦ rw (==-ne ne2) refl
      ];
    },
  )
]
  where
    words : ℕ
    words = (n + word_bits - 1) / word_bits

    over : ℕ
    over = n - (words - 1) * word_bits

    whole : n ≡ words * 32 → (n == words * 32) ≡ true
    whole e = ground arith

    last_word : n ≢ words * 32 → n / 32 ≡ words - 1
    last_word ne = omega arith

    at_last : n ≢ words * 32 → (n / 32 == words - 1) ≡ true
    at_last ne = rw (last_word ne) (==-refl (words - 1))

    more : n ≢ words * 32 → 0 < over
    more ne = omega arith

    less : n ≢ words * 32 → over < 32
    less ne = omega arith

    last :
        (i : ℕ)
        → i / 32 ≡ words - 1
        → update
            (λ _ _. true)
            (words - 1)
            (mark_rest (32 - over) over (λ _. true))
            (i / 32)
            (i % 32)
          ≡ mark_rest (32 - over) over (λ _. true) (i % 32)
    last i e = rw (e, ==-refl (words - 1)) refl

-- `bitmap_create` for at least one block and fewer than `2 ^ 32 - 32` does not panic; it returns
-- NULL exactly if one of the two calls of `kmalloc` does, and else a bitmap for that many blocks,
-- in which exactly these are free.
pub create-Fresh :
    (n : ℕ) (for_bitmap for_map : Bool)
    → 0 < n
    → n + word_bits < 2 ^ 32
    → (b : Bitmap) × (create for_bitmap for_map n
        ≡ done (if for_bitmap && for_map then some b else none))
      × Fresh n b
unfolding create
create-Fresh n for_bitmap for_map pos small =
    let (b, run, fresh) = trim-Fresh n pos small in
    elim (Bool-cases (for_bitmap && for_map)) [
      | inl e ↦ (b, rw (asserted, e, run) refl, fresh)
      | inr e ↦ (b, rw (asserted, e) refl, fresh)
    ]
  where
    asserted : (not (n == 0) && ltb n (n + word_bits)) ≡ true
    asserted = ground arith
