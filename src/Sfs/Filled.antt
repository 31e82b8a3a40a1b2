-- ===== src/Sfs/Filled.antt =====
-- Reads of single blocks in `sfs_io_nolock`, and the buffer that they fill.
use oshub.Prelude.{
  ℕ, ◌+◌, ◌-◌, ◌*◌, ◌/◌, ◌%◌, ◌≤◌, ◌<◌, ◌≡◌, refl, sym, ap, ◌∙◌, false, ltb, ltb-true, ltb-false,
  leb-true, leb-false, if◌then◌else◌, inl, inr, lt-cases, arith, ok,
}
use oshub.Sfs.Disk.{Sfs, Bytes, blk_size, blit, block_inuse, rblock}
use oshub.Sfs.Io.{buf_op, block_op}
use oshub.Sfs.Mapped.{
  reached, block_of, content, Usable, Mapped, rwblock_nolock-Usable, rbuf-Usable,
}

-- The state with the first `n` bytes of the buffer read from `start` on.
abbrev pub filled : Sfs → ℕ → ℕ → Sfs
filled s start n = record s { buffer = λ x. if ltb x n then content s (start + x) else s.buffer x }

-- More bytes from one block of the file.
filled_more :
    (s : Sfs) (start n len blk off : ℕ) (src : Bytes)
    → ((i : ℕ) → src i ≡ s.disk (reached (block_of s blk)) (off + i))
    → blk * blk_size + off ≡ start + n
    → off + len ≤ blk_size
    → 0 < len
    → record (filled s start n) { buffer = blit n len src (filled s start n).buffer }
      ≡ filled s start (n + len)
filled_more s start n len blk off src from here room pos = λ i. record s { buffer = λ x. bytes x i }
  where
    bytes :
        (x : ℕ) → blit n len src (filled s start n).buffer x ≡ (filled s start (n + len)).buffer x
    bytes x = elim (lt-cases x n) [
      | inl lt ↦ rw (leb-false lt, ltb-true lt, ltb-true {a = x} {b = n + len} (omega arith)) refl
      | inr ge ↦ elim (lt-cases x (n + len)) [
        | inl lt ↦
            let q : (start + x) / blk_size ≡ blk = omega (arith, here) in
            let r : (start + x) % blk_size ≡ off + (x - n) = omega (arith, here) in
            rw (leb-true ge, ltb-true lt)
              (from (x - n)
                ∙ sym (
                    ap (λ k. s.disk (reached (block_of s k)) ((start + x) % blk_size)) q
                    ∙ ap (s.disk (reached (block_of s blk))) r))
        | inr out ↦ rw (leb-true ge, ltb-false out, ltb-false {a = x} {b = n} ge) refl
      ]
    ]

module _ (s : Sfs) (start : ℕ) where
  Usable-filled : (n ino : ℕ) → Usable s ino → Usable (filled s start n) ino
  unfolding block_inuse
  Usable-filled n ino u = record {
    some_block = u.some_block;
    inside = u.inside;
    on_disk = u.on_disk;
    in_use = u.in_use;
  }

  pub Mapped-filled : (n : ℕ) → Mapped s → Mapped (filled s start n)
  Mapped-filled n m = record {
    within = m.within;
    each = λ i lt. Usable-filled n (block_of s i) (m.each i lt);
    entries = λ lt. Usable-filled n s.din.indirect (m.entries lt);
  }

  pub buf_op-filled :
      (n len blk off : ℕ)
      → Usable s (block_of s blk)
      → blk * blk_size + off ≡ start + n
      → off + len ≤ blk_size
      → 0 < len
      → buf_op false n len (block_of s blk) off (filled s start n)
        ≡ ok tt (filled s start (n + len))
  unfolding buf_op
  buf_op-filled n len blk off u here room pos =
      let lo : off < blk_size = omega arith in
      rw
        (rbuf-Usable (filled s start n) len (block_of s blk) off
          (Usable-filled n (block_of s blk) u) lo room)
        (ap (ok tt) (filled_more s start n len blk off _ (λ i. refl) here room pos))

  pub block_op-filled :
      (n blk : ℕ)
      → Usable s (block_of s blk)
      → blk * blk_size ≡ start + n
      → block_op false n (block_of s blk) (filled s start n) ≡ ok tt (filled s start (n + blk_size))
  unfolding block_op rblock
  block_op-filled n blk u here =
      rw
        (rwblock_nolock-Usable (filled s start n) (block_of s blk)
          (Usable-filled n (block_of s blk) u))
        (ap (ok tt) (
          filled_more s start n blk_size blk 0 _
            (λ i. let e : i ≡ 0 + i = omega arith in ap (s.disk (reached (block_of s blk))) e)
            (omega (arith, here)) (omega arith) (omega arith)))
