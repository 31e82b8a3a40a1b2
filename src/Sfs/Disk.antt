-- ===== src/Sfs/Disk.antt =====
-- The disk of the file system: sfs_io.c, the block allocation of sfs_inode.c, and the part of
-- `disk0_io` of lab8/kern/fs/devs/dev_disk0.c that they reach.
use oshub.Prelude.{
  ℕ, zero, suc, ◌+◌, ◌-◌, ◌*◌, ◌/◌, ◌%◌, ◌^◌, Bool, true, false, not, ◌==◌, ltb, leb, if◌then◌else◌,
  ◌&&◌, update, done, panic, Option, none, some, Eff, ok, fail, stop, ◌!>◌, assert_then, e_inval,
  e_no_mem,
}
use oshub.Bitmap
use oshub.Bitmap.{Bitmap}

abbrev pub blk_size : ℕ
blk_size = 4096

-- The bytes of a buffer or a block.
abbrev pub Bytes : Type 0
Bytes = ℕ → ℕ

-- `struct sfs_disk_inode`, with `dirty` of `struct sfs_inode`
pub record Inode : Type 0 where
  pub size : ℕ
  pub is_dir : Bool
  pub nblocks : ℕ
  pub direct : ℕ → ℕ
  pub indirect : ℕ
  pub dirty : Bool

-- `struct sfs_fs` with its disk of `d_blocks` blocks, one inode, and the buffer of the caller.
pub record Sfs : Type 0 where
  pub blocks : ℕ
  pub unused_blocks : ℕ
  pub super_dirty : Bool
  pub freemap : Bitmap
  pub d_blocks : ℕ
  pub disk : ℕ → Bytes
  pub din : Inode
  pub buffer : Bytes

-- `memcpy` of `len` bytes `src` to the place `p` of `dst`, which lies in other memory.
abbrev pub blit : ℕ → ℕ → Bytes → Bytes → Bytes
blit p len src dst x = if leb p x && ltb x (p + len) then src (x - p) else dst x

-- `disk0_io` for one block at the byte `offset`: the block of the disk that it transfers.
unfoldable pub disk0_io : ℕ → Sfs → Eff Sfs ℕ
disk0_io offset s =
    let blkno = offset / blk_size in
    if not (offset % blk_size == 0)
    then fail e_inval s
    else if ltb s.d_blocks (blkno + 1)
    then fail e_inval s
    else ok blkno s

-- `sfs_rwblock_nolock` up to the transfer, which its callers write out: the block of the disk that
-- is transferred. The offset `blkno * SFS_BLKSIZE` has 32 bits. `check` is 1.
unfoldable pub rwblock_nolock : ℕ → Sfs → Eff Sfs ℕ
unfolding disk0_io
rwblock_nolock blkno s =
    assert_then (not (blkno == 0) && ltb blkno s.blocks) (disk0_io (blkno * blk_size % 2 ^ 32) s)

-- `sfs_rblock` and `sfs_wblock` of `nblks` blocks, from or to the place `p` of the buffer.
unfoldable pub rblock : ℕ → ℕ → ℕ → Sfs → Eff Sfs (Unit {0})
unfolding rwblock_nolock
rblock p blkno zero s = ok tt s
rblock p blkno (suc nblks) s = rwblock_nolock blkno s !> λ at s.
    rblock (p + blk_size) (blkno + 1) nblks
      (record s { buffer = blit p blk_size (s.disk at) s.buffer })

unfoldable pub wblock : ℕ → ℕ → ℕ → Sfs → Eff Sfs (Unit {0})
unfolding rwblock_nolock
wblock p blkno zero s = ok tt s
wblock p blkno (suc nblks) s = rwblock_nolock blkno s !> λ at s.
    wblock (p + blk_size) (blkno + 1) nblks
      (record s { disk = update s.disk at (blit 0 blk_size (λ i. s.buffer (p + i)) (s.disk at)) })

-- `sfs_rbuf`: the `len` bytes from `offset` of a block.
unfoldable pub rbuf : ℕ → ℕ → ℕ → Sfs → Eff Sfs Bytes
unfolding rwblock_nolock
rbuf len blkno offset s =
    assert_then (ltb offset blk_size && leb (offset + len) blk_size)
      (rwblock_nolock blkno s !> λ at s. ok (λ i. s.disk at (offset + i)) s)

-- `sfs_wbuf`: the block is read, changed and written.
unfoldable pub wbuf : Bytes → ℕ → ℕ → ℕ → Sfs → Eff Sfs (Unit {0})
unfolding rwblock_nolock
wbuf src len blkno offset s = assert_then (ltb offset blk_size && leb (offset + len) blk_size) (
    rwblock_nolock blkno s !> λ from s. rwblock_nolock blkno s !> λ to s.
    ok tt (record s { disk = update s.disk to (blit offset len src (s.disk from)) }))

-- `sfs_clear_block`
unfoldable pub clear_block : ℕ → ℕ → Sfs → Eff Sfs (Unit {0})
unfolding rwblock_nolock
clear_block blkno zero s = ok tt s
clear_block blkno (suc nblks) s = rwblock_nolock blkno s !> λ at s.
    clear_block (blkno + 1) nblks (record s { disk = update s.disk at (λ _. 0) })

-- `sfs_block_inuse`, which panics out of range; `none` stands for that.
unfoldable pub block_inuse : ℕ → Sfs → Option Bool
block_inuse ino s =
    if not (ino == 0) && ltb ino s.blocks
    then elim (Bitmap.test ino s.freemap) [ done b ↦ some (not b) | panic ↦ none ]
    else none

-- `assert(sfs_block_inuse(sfs, ino))`
abbrev pub holds : Option Bool → Bool
holds (some b) = b
holds none = false

unfoldable pub block_alloc : Sfs → Eff Sfs ℕ
unfolding block_inuse clear_block
block_alloc s = elim (Bitmap.alloc s.freemap) [
  | panic ↦ stop
  | done (none, b) ↦ fail e_no_mem (record s { freemap = b })
  | done (some ino, b) ↦ assert_then (ltb 0 s.unused_blocks) (
      let s' = record s { freemap = b; unused_blocks = s.unused_blocks - 1; super_dirty = true } in
      assert_then (holds (block_inuse ino s')) (clear_block ino 1 s' !> λ _ s. ok ino s))
]

unfoldable pub block_free : ℕ → Sfs → Eff Sfs (Unit {0})
unfolding block_inuse
block_free ino s = assert_then (holds (block_inuse ino s)) (elim (Bitmap.free ino s.freemap) [
  | panic ↦ stop
  | done b ↦
      ok tt (record s {
        freemap = b;
        unused_blocks = (s.unused_blocks + 1) % 2 ^ 32;
        super_dirty = true;
      })
])
