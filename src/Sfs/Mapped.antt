-- ===== src/Sfs/Mapped.antt =====
-- Files whose blocks are all there: `sfs_bmap_load_nolock` finds each of them.
use oshub.Prelude.{
  ℕ, ◌+◌, ◌-◌, ◌*◌, ◌/◌, ◌%◌, ◌^◌, ◌≤◌, ◌<◌, ◌≡◌, ◌≢◌, refl, true, false, ◌==◌, ==-ne, ==-refl, ltb,
  ltb-true, ltb-false, leb-true, if◌then◌else◌, inl, inr, lt-cases, arith, ok, ap, ◌∙◌,
}
use oshub.Sfs.Disk.{Sfs, blk_size, rbuf, rwblock_nolock, disk0_io, block_inuse, holds}
use oshub.Sfs.Bmap.{ndirect, nentry, word_of, bmap_get, bmap_get_sub, bmap_load, checked}

-- The block of the disk that a transfer of a block reaches, by the 32 bits of its offset.
abbrev pub reached : ℕ → ℕ
reached ino = ino * blk_size % 2 ^ 32 / blk_size

abbrev pub entry : Sfs → ℕ → ℕ
entry s index = word_of (λ i. s.disk (reached s.din.indirect) ((index - ndirect) * 4 + i))

-- The number of a block of the file, as the code finds it.
abbrev pub block_of : Sfs → ℕ → ℕ
block_of s index = if ltb index ndirect then s.din.direct index else entry s index

-- The byte at a position of the file, where the code looks for it.
abbrev pub content : Sfs → ℕ → ℕ
content s pos = s.disk (reached (block_of s (pos / blk_size))) (pos % blk_size)

-- A block that can be read and written.
pub record Usable (s : Sfs) (ino : ℕ) : Type 0 where
  pub some_block : ino ≢ 0
  pub inside : ino < s.blocks
  pub on_disk : ino < s.d_blocks
  pub in_use : holds (block_inuse ino s) ≡ true

pub record Mapped (s : Sfs) : Type 0 where
  pub within : s.din.nblocks ≤ ndirect + nentry
  pub each : (i : ℕ) → i < s.din.nblocks → Usable s (block_of s i)
  pub entries : ndirect < s.din.nblocks → Usable s s.din.indirect

pub rwblock_nolock-Usable :
    (s : Sfs) (ino : ℕ) → Usable s ino → rwblock_nolock ino s ≡ ok (reached ino) s
unfolding rwblock_nolock disk0_io
rwblock_nolock-Usable s ino u =
    let aligned : ino * blk_size % 2 ^ 32 % blk_size ≡ 0 = omega arith in
    let room : ltb s.d_blocks (reached ino + 1) ≡ false = ltb-false (omega (arith, u.on_disk)) in
    rw (==-ne u.some_block, ltb-true u.inside, aligned, room) refl

pub rbuf-Usable :
    (s : Sfs) (len ino offset : ℕ)
    → Usable s ino
    → offset < blk_size
    → offset + len ≤ blk_size
    → rbuf len ino offset s ≡ ok (λ i. s.disk (reached ino) (offset + i)) s
unfolding rbuf
rbuf-Usable s len ino offset u lo hi =
    rw (ltb-true lo, leb-true hi, rwblock_nolock-Usable s ino u) refl

checked-Usable : (s : Sfs) (ino : ℕ) → Usable s ino → checked ino s ≡ ok ino s
checked-Usable s ino u = rw (==-ne u.some_block, u.in_use) refl

bmap_get-direct :
    (s : Sfs) (i : ℕ)
    → i < ndirect
    → Usable s (s.din.direct i)
    → bmap_get i false s ≡ ok (s.din.direct i) s
unfolding bmap_get
bmap_get-direct s i d u = rw (ltb-true d, ==-ne u.some_block, u.in_use) refl

bmap_get-indirect :
    (s : Sfs) (i : ℕ)
    → ndirect ≤ i
    → i < ndirect + nentry
    → Usable s s.din.indirect
    → Usable s (entry s i)
    → bmap_get i false s ≡ ok (entry s i) s
unfolding bmap_get bmap_get_sub
bmap_get-indirect s i d lt e u =
    let slot : i - ndirect < nentry = omega arith in
    let room : (i - ndirect) * 4 < blk_size = omega arith in
    let room4 : (i - ndirect) * 4 + 4 ≤ blk_size = omega arith in
    rw
      (
        ltb-false d,
        ltb-true slot,
        ==-ne e.some_block,
        rbuf-Usable s 4 s.din.indirect ((i - ndirect) * 4) e room room4,
        ==-ne u.some_block,
        ==-refl s.din.indirect,
      )
      (checked-Usable s (entry s i) u)

pub bmap_load-Mapped :
    (s : Sfs) (i : ℕ) → Mapped s → i < s.din.nblocks → bmap_load i s ≡ ok (block_of s i) s
unfolding bmap_load
bmap_load-Mapped s i m lt =
    let le : i ≤ s.din.nblocks = omega arith in
    let old : (i == s.din.nblocks) ≡ false = ==-ne (λ e. omega (arith, e)) in
    let u = m.each i lt in rw (leb-true le, old, get u, u.in_use) refl
  where
    get : Usable s (block_of s i) → bmap_get i false s ≡ ok (block_of s i) s
    get u = elim (lt-cases i ndirect) [
      | inl d ↦
          let here : block_of s i ≡ s.din.direct i = rw (ltb-true d) refl in
          rw here (bmap_get-direct s i d (rw here at u))
      | inr d ↦
          let here : block_of s i ≡ entry s i = rw (ltb-false d) refl in
          rw here (
            bmap_get-indirect s i d (omega (arith, m.within)) (m.entries (omega (arith, d, lt)))
              (rw here at u))
    ]

-- The number of a block of the file as the inode and its indirect block give it, and the byte that
-- this block of the disk holds at a position of the file.
abbrev pub named_block : Sfs → ℕ → ℕ
named_block s index =
    if ltb index ndirect
    then s.din.direct index
    else word_of (λ i. s.disk s.din.indirect ((index - ndirect) * 4 + i))

abbrev pub stored : Sfs → ℕ → ℕ
stored s pos = s.disk (named_block s (pos / blk_size)) (pos % blk_size)

-- The blocks of the file lie in the first 2 ^ 32 bytes of the disk.
pub record Addressed (s : Sfs) : Type 0 where
  pub blocks : (i : ℕ) → i < s.din.nblocks → named_block s i < 2 ^ 20
  pub table : ndirect < s.din.nblocks → s.din.indirect < 2 ^ 20

reached-below : (ino : ℕ) → ino < 2 ^ 20 → reached ino ≡ ino
reached-below ino lt = omega arith

block_of-named :
    (s : Sfs) (i : ℕ) → Addressed s → i < s.din.nblocks → block_of s i ≡ named_block s i
block_of-named s i a lt = elim (lt-cases i ndirect) [
  | inl d ↦ rw (ltb-true d) refl
  | inr d ↦
      let near = reached-below s.din.indirect (a.table (omega (arith, d, lt))) in
      rw (ltb-false d, near) refl
]

-- There a transfer finds the bytes where they are stored.
pub content-stored :
    (s : Sfs) (pos : ℕ)
    → Addressed s
    → pos / blk_size < s.din.nblocks
    → content s pos ≡ stored s pos
content-stored s pos a lt =
    let i : ℕ = pos / blk_size in
    let named = block_of-named s i a lt in
    ap (λ b. s.disk (reached b) (pos % blk_size)) named
    ∙ ap (λ b. s.disk b (pos % blk_size)) (reached-below (named_block s i) (a.blocks i lt))
