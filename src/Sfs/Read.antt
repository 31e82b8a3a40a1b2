-- ===== src/Sfs/Read.antt =====
-- What `sfs_io_nolock` reads.
use oshub.Prelude.{
  ℕ, ◌+◌, ◌-◌, ◌*◌, ◌%◌, ◌^◌, ◌≤◌, ◌<◌, ◌≡◌, ◌≢◌, refl, ap, ◌∙◌, true, false, ==-ne, ltb, leb,
  ltb-true, ltb-false, leb-false, if◌then◌else◌, inl, inr, Bool-cases, arith, done, none,
}
use oshub.Sfs.Disk.{Sfs, blk_size}
use oshub.Sfs.Io.{max_file_size, grow, transfer, io_nolock}
use oshub.Sfs.Mapped.{Mapped, Addressed, stored, content-stored}
use oshub.Sfs.Filled.{filled}
use oshub.Sfs.Parts.{transfer-filled}

grow-same : (end : ℕ) (s : Sfs) → ((grow end s).disk ≡ s.disk) × ((grow end s).buffer ≡ s.buffer)
unfolding grow
grow-same end s = elim (Bool-cases (ltb s.din.size end)) [
  | inl e ↦ (rw e refl, rw e refl)
  | inr e ↦ (rw e refl, rw e refl)
]

-- Where a read stops, and the number of bytes that it asks for and the file has.
abbrev asked : ℕ → ℕ → Sfs → ℕ
asked offset len s = if ltb s.din.size (offset + len) then s.din.size else offset + len

abbrev pub readable : ℕ → ℕ → Sfs → ℕ
readable offset len s = asked offset len s - offset

entry_point :
    (s : Sfs) (offset len : ℕ)
    → Mapped s
    → s.din.is_dir ≡ false
    → 0 < len
    → offset + len < 2 ^ 63
    → offset < s.din.size
    → s.din.size ≤ s.din.nblocks * blk_size
    → io_nolock offset len false s ≡ transfer false offset (asked offset len s) s
unfolding io_nolock
entry_point s offset len m file pos fits lt room =
    let below : offset < max_file_size = omega (arith, m.within) in
    let whole : (offset + len) % 2 ^ 64 ≡ offset + len = omega arith in
    let positive : leb (2 ^ 63) (offset + len) ≡ false = leb-false fits in
    let forward : offset ≤ offset + len = omega arith in
    let moves : offset ≢ offset + len = λ e. omega (arith, e) in
    rw
      (
        file,
        whole,
        leb-false below,
        positive,
        ltb-false forward,
        ==-ne moves,
        leb-false lt,
        limited,
      )
      refl
  where
    limited :
        (let limit = if ltb max_file_size (offset + len) then max_file_size else offset + len in
          if ltb s.din.size limit then s.din.size else limit)
        ≡ asked offset len s
    limited = ground (arith, m.within)

-- A read of some bytes inside of a regular file all of whose blocks are there and lie in the first
-- 2 ^ 32 bytes of the disk, with an end below 2 ^ 63, succeeds: it returns as many bytes as were
-- asked for and the file has. They are the bytes that the blocks of the file hold from the offset
-- on, the rest of the buffer and the disk are as before.
pub io_nolock_read :
    (s : Sfs) (offset len : ℕ)
    → Mapped s
    → Addressed s
    → s.din.is_dir ≡ false
    → 0 < len
    → offset + len < 2 ^ 63
    → offset < s.din.size
    → s.din.size ≤ s.din.nblocks * blk_size
    → (s' : Sfs) × (io_nolock offset len false s ≡ done (none, readable offset len s, s'))
      × (s'.disk ≡ s.disk)
      × ((x : ℕ) → x < readable offset len s → s'.buffer x ≡ stored s (offset + x))
      × ((x : ℕ) → readable offset len s ≤ x → s'.buffer x ≡ s.buffer x)
io_nolock_read s offset len m near_start file pos fits lt room =
    let (end, run, le, near, whole) =
      transfer-filled s offset (asked offset len s) m (ground arith) (ground arith) in
    let n = readable offset len s in
    let same = grow-same (end + n) (filled s offset n) in
    (
      grow (end + n) (filled s offset n),
      entry_point s offset len m file pos fits lt room ∙ run,
      same.0,
      λ x h.
          let within : offset + x < s.din.size = ground (arith, h) in
          ap (λ b. b x) same.1
          ∙ rw (ltb-true h)
              (content-stored s (offset + x) near_start (omega (arith, within, room))),
      λ x h. ap (λ b. b x) same.1 ∙ rw (ltb-false h) refl,
    )

-- A read of a whole file of full blocks, all of them there, doubles the size that the file has, and marks its inode as
-- changed: where the blocks are read, `offset` moves on, and then `offset + alen` counts them
-- twice.
pub io_nolock_grows :
    (s : Sfs)
    → Mapped s
    → s.din.is_dir ≡ false
    → 0 < s.din.size
    → s.din.size % blk_size ≡ 0
    → s.din.size ≤ s.din.nblocks * blk_size
    → (s' : Sfs) × (io_nolock 0 s.din.size false s ≡ done (none, s.din.size, s'))
      × (s'.din.size ≡ 2 * s.din.size)
      × (s'.din.dirty ≡ true)
unfolding grow
io_nolock_grows s m file pos full room =
    let (end, run, le, near, whole) =
      transfer-filled s 0 (asked 0 s.din.size s) m (ground arith) (ground arith) in
    let all : asked 0 s.din.size s ≡ s.din.size = ground arith in
    let at_end : end ≡ s.din.size = whole (rw all full) ∙ all in
    let more : s.din.size < end + (asked 0 s.din.size s - 0) = omega (arith, at_end, all) in
    let twice : (end + (asked 0 s.din.size s - 0)) % 2 ^ 32 ≡ 2 * s.din.size =
      omega (arith, at_end, all, m.within) in
    let count : readable 0 s.din.size s ≡ s.din.size = omega (arith, all) in
    (
      grow (end + (asked 0 s.din.size s - 0)) (filled s 0 (asked 0 s.din.size s - 0)),
      entry_point s 0 s.din.size m file pos (omega (arith, m.within)) pos room ∙ run ∙ (λ i. done (
        none,
        count i,
        grow (end + (asked 0 s.din.size s - 0)) (filled s 0 (asked 0 s.din.size s - 0)),
      )),
      rw (ltb-true more) twice,
      rw (ltb-true more) refl,
    )
