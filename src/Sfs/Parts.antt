-- ===== src/Sfs/Parts.antt =====
-- The three parts of a transfer from a file in `sfs_io_nolock`.
use oshub.Prelude.{
  ℕ, zero, suc, ◌+◌, ◌-◌, ◌*◌, ◌/◌, ◌%◌, ◌≤◌, ◌<◌, ◌≡◌, refl, ap, ◌∙◌, false, ==-ne, ltb-true,
  ltb-false, inl, inr, ◌⊎◌, lt-cases, eq-cases, arith, done, none, ok, ◌!>◌,
}
use oshub.Sfs.Disk.{Sfs, blk_size}
use oshub.Sfs.Bmap.{bmap_load}
use oshub.Sfs.Io.{Io, buf_op, first_part, middle_part, last_part, grow, transfer}
use oshub.Sfs.Mapped.{block_of, Mapped, bmap_load-Mapped}
use oshub.Sfs.Filled.{filled, Mapped-filled, buf_op-filled, block_op-filled}

module _ (s : Sfs) (start : ℕ) where
  -- The variables after `n` bytes.
  abbrev at : ℕ → ℕ → ℕ → ℕ → Io
  at n offset blk k = record {
    fs = filled s start n;
    blkno = blk;
    nblks = k;
    offset = offset;
    alen = n;
  }

  middle-filled :
      (k n blk offset k0 : ℕ)
      → Mapped s
      → blk + k ≤ s.din.nblocks
      → blk * blk_size ≡ start + n
      → middle_part false k (at n offset blk k0)
        ≡ ok tt (at (n + k * blk_size) (offset + k * blk_size) (blk + k) k0)
  unfolding middle_part
  middle-filled zero n blk offset k0 m lt here =
      let e1 : n ≡ n + 0 * blk_size = omega arith in
      let e2 : offset ≡ offset + 0 * blk_size = omega arith in
      let e3 : blk ≡ blk + 0 = omega arith in λ i. ok tt (at (e1 i) (e2 i) (e3 i) k0)
  middle-filled (suc k) n blk offset k0 m lt here =
      let e1 : n + blk_size + k * blk_size ≡ n + suc k * blk_size = omega arith in
      let e2 : offset + blk_size + k * blk_size ≡ offset + suc k * blk_size = omega arith in
      let e3 : blk + 1 + k ≡ blk + suc k = omega arith in
      rw
        (
          bmap_load-Mapped (filled s start n) blk (Mapped-filled s start n m) (omega arith),
          block_op-filled s start n blk (m.each blk (omega arith)) here,
        )
        (middle-filled k (n + blk_size) (blk + 1) (offset + blk_size) k0 m (omega arith)
            (omega arith)
          ∙ λ i. ok tt (at (e1 i) (e2 i) (e3 i) k0))

  -- Where the first part leaves off: at the end, or at the beginning of a block.
  record Begun (endpos n blk k : ℕ) : Type 0 where
    pub upto : start + n ≤ endpos
    pub place :
        ((start + n ≡ endpos) × (k ≡ 0))
        ⊎ ((blk * blk_size ≡ start + n) × (blk + k ≡ endpos / blk_size))

  first-filled :
      (endpos : ℕ)
      → Mapped s
      → start < endpos
      → endpos ≤ s.din.nblocks * blk_size
      → (n : ℕ) × (blk : ℕ) × (k : ℕ) × (first_part false endpos
            (at 0 start (start / blk_size) (endpos / blk_size - start / blk_size))
          ≡ ok tt (at n (start + n) blk k))
        × Begun endpos n blk k
  unfolding first_part
  first-filled endpos m lt room = elim (eq-cases (start % blk_size) 0) [
    | inl z ↦ (
      0,
      start / blk_size,
      endpos / blk_size - start / blk_size,
      rw z (λ i. ok tt (at 0 (origin i) (start / blk_size) (endpos / blk_size - start / blk_size))),
      record { upto = omega arith; place = inr (omega arith, omega arith) },
    )
    | inr nz ↦ elim (eq-cases (endpos / blk_size - start / blk_size) 0) [
      | inl one ↦ (
        endpos - start,
        start / blk_size + 1,
        0,
        rw (==-ne nz, one, loaded, moved (endpos - start) (omega (arith, one)) (omega arith))
            (λ i.
              ok tt
                (at (nil (endpos - start) i) (start + (endpos - start)) (start / blk_size + 1) 0)),
        record { upto = omega arith; place = inl (omega arith, refl) },
      )
      | inr more ↦ (
        blk_size - start % blk_size,
        start / blk_size + 1,
        endpos / blk_size - start / blk_size - 1,
        rw
            (
              ==-ne nz,
              ==-ne more,
              loaded,
              moved (blk_size - start % blk_size) (omega arith) (omega arith),
              ltb-true {a = 0} {b = endpos / blk_size - start / blk_size} (omega (arith, more)),
            )
            (λ i. ok tt (
              at (nil (blk_size - start % blk_size) i) (start + (blk_size - start % blk_size))
                (start / blk_size + 1) (endpos / blk_size - start / blk_size - 1))),
        record { upto = omega (arith, more); place = inr (omega arith, omega (arith, more)) },
      )
    ]
  ]
    where
      origin : start ≡ start + 0
      origin = omega arith

      nil : (len : ℕ) → 0 + len ≡ len
      nil len = omega arith

      here : start / blk_size < s.din.nblocks
      here = omega arith

      loaded :
          bmap_load (start / blk_size) (filled s start 0)
          ≡ ok (block_of s (start / blk_size)) (filled s start 0)
      loaded =
          bmap_load-Mapped (filled s start 0) (start / blk_size) (Mapped-filled s start 0 m) here

      moved :
          (len : ℕ)
          → start % blk_size + len ≤ blk_size
          → 0 < len
          → buf_op false 0 len (block_of s (start / blk_size)) (start % blk_size) (filled s start 0)
            ≡ ok tt (filled s start (0 + len))
      moved len fits pos =
          buf_op-filled s start 0 len (start / blk_size) (start % blk_size)
            (m.each (start / blk_size) here) (omega arith) fits pos

  -- Everything is read; the variable `offset` has not moved for the last part.
  last-filled :
      (endpos n blk k : ℕ)
      → Mapped s
      → endpos ≤ s.din.nblocks * blk_size
      → start + n ≤ endpos
      → ((start + n ≡ endpos) ⊎ ((blk * blk_size ≡ start + n) × (blk ≡ endpos / blk_size)))
      → last_part false endpos (at n (start + n) blk k)
        ≡ ok tt (at (endpos - start) (start + n) blk k)
  unfolding last_part
  last-filled endpos n blk k m room le place = elim (lt-cases (start + n) endpos) [
    | inr all ↦
        let e : n ≡ endpos - start = omega arith in
        rw (ltb-false all) (λ i. ok tt (at (e i) (start + n) blk k))
    | inl more ↦
        let e : n + (endpos - (start + n)) ≡ endpos - start = omega arith in
        let (here, blk_end) = aligned more place in
        let lt : blk < s.din.nblocks = omega arith in
        rw
          (
            ltb-true more,
            bmap_load-Mapped (filled s start n) blk (Mapped-filled s start n m) lt,
            buf_op-filled s start n (endpos - (start + n)) blk 0 (m.each blk lt)
                (omega (arith, here)) (omega (arith, here, blk_end)) (omega arith),
          )
          (λ i. ok tt (at (e i) (start + n) blk k))
  ]
    where
      aligned :
          start + n < endpos
          → ((start + n ≡ endpos) ⊎ ((blk * blk_size ≡ start + n) × (blk ≡ endpos / blk_size)))
          → (blk * blk_size ≡ start + n) × (blk ≡ endpos / blk_size)
      aligned lt (inl e) = absurd (omega arith)
      aligned lt (inr h) = h

  -- The middle and the last part together.
  rest-filled :
      (endpos n blk k : ℕ)
      → Mapped s
      → endpos ≤ s.din.nblocks * blk_size
      → Begun endpos n blk k
      → (end : ℕ) × ((middle_part false k (at n (start + n) blk k) !> λ _ io.
            last_part false endpos io)
          ≡ ok tt (at (endpos - start) end (blk + k) k))
        × (end ≤ endpos)
        × (endpos < end + blk_size)
        × ((endpos % blk_size ≡ 0) → end ≡ endpos)
  rest-filled endpos n blk k m room b = by_place b.place
    where
      none_left :
          k ≡ 0 → middle_part false k (at n (start + n) blk k) ≡ ok tt (at n (start + n) blk k)
      none_left z = unfold middle_part in rw z refl

      by_place :
          ((start + n ≡ endpos) × (k ≡ 0))
            ⊎ ((blk * blk_size ≡ start + n) × (blk + k ≡ endpos / blk_size))
          → (end : ℕ) × ((middle_part false k (at n (start + n) blk k) !> λ _ io.
                last_part false endpos io)
              ≡ ok tt (at (endpos - start) end (blk + k) k))
            × (end ≤ endpos)
            × (endpos < end + blk_size)
            × ((endpos % blk_size ≡ 0) → end ≡ endpos)
      by_place (inl (e, z)) =
          let same : blk ≡ blk + k = omega (arith, z) in
          (
            start + n,
            rw (none_left z, last-filled endpos n blk k m room b.upto (inl e))
                (λ i. ok tt (at (endpos - start) (start + n) (same i) k)),
            omega (arith, e),
            omega (arith, e),
            λ q. e,
          )
      by_place (inr (here, blk_end)) =
          let n' : ℕ = n + k * blk_size in
          let e : start + n + k * blk_size ≡ start + (n + k * blk_size) = omega arith in
          let run =
            middle-filled k n blk (start + n) k m (omega (arith, blk_end)) here
            ∙ (λ i. ok tt (at (n + k * blk_size) (e i) (blk + k) k)) in
          let upto : start + (n + k * blk_size) ≤ endpos = omega (arith, here, blk_end) in
          let aligned : (blk + k) * blk_size ≡ start + (n + k * blk_size) = omega (arith, here) in
          (
            start + (n + k * blk_size),
            rw
                (
                  run,
                  last-filled endpos (n + k * blk_size) (blk + k) k m room upto
                      (inr (aligned, blk_end)),
                )
                refl,
            upto,
            omega (arith, aligned, blk_end),
            λ q. omega (arith, aligned, blk_end, q),
          )

  unread : s ≡ filled s start 0
  unread = λ i. record s { buffer = λ x. nothing x i }
    where
      nothing : (x : ℕ) → s.buffer x ≡ (filled s start 0).buffer x
      nothing x = ground arith

  pub transfer-filled :
      (endpos : ℕ)
      → Mapped s
      → start < endpos
      → endpos ≤ s.din.nblocks * blk_size
      → (end : ℕ) × (transfer false start endpos s
          ≡ done (
            none,
            endpos - start,
            grow (end + (endpos - start)) (filled s start (endpos - start)),
          ))
        × (end ≤ endpos)
        × (endpos < end + blk_size)
        × ((endpos % blk_size ≡ 0) → end ≡ endpos)
  unfolding transfer
  transfer-filled endpos m lt room =
      let (n, blk, k, run, b) = first-filled endpos m lt room in
      let (end, rest, le, near, whole) = rest-filled endpos n blk k m room b in
      (end, ap (λ t. transfer false start endpos t) unread ∙ rw (run, rest) refl, le, near, whole)
