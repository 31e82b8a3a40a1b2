-- ===== src/Sfs/Io.antt =====
-- `sfs_io_nolock` of sfs_inode.c: bytes of a file from or to a buffer.
use oshub.Prelude.{
  ℕ, zero, suc, ◌+◌, ◌-◌, ◌*◌, ◌/◌, ◌%◌, ◌^◌, Bool, true, not, ◌==◌, ltb, leb, if◌then◌else◌, ◌||◌,
  Run, done, panic, assert, ◌>>◌, Option, none, some, Error, e_inval, Eff, ok, fail, stop, ◌!>◌,
}
use oshub.Sfs.Disk.{Sfs, blk_size, blit, rbuf, wbuf, rblock, wblock}
use oshub.Sfs.Bmap.{bmap_load}

abbrev pub max_file_size : ℕ
max_file_size = 1024 * 1024 * 128

-- The variables of the function; the place in the buffer is `alen`.
pub record Io : Type 0 where
  pub fs : Sfs
  pub blkno : ℕ
  pub nblks : ℕ
  pub offset : ℕ
  pub alen : ℕ

abbrev pub lift {ℓ} : {A : Type ℓ} → Eff Sfs A → Io → Eff Io A
lift (ok a s) io = ok a (record io { fs = s })
lift (fail e s) io = fail e (record io { fs = s })
lift stop io = stop

-- `sfs_buf_op` and `sfs_block_op`
unfoldable pub buf_op : Bool → ℕ → ℕ → ℕ → ℕ → Sfs → Eff Sfs (Unit {0})
buf_op write p len blkno offset s =
    if write
    then wbuf (λ i. s.buffer (p + i)) len blkno offset s
    else (rbuf len blkno offset s !> λ b s. ok tt (record s { buffer = blit p len b s.buffer }))

unfoldable pub block_op : Bool → ℕ → ℕ → Sfs → Eff Sfs (Unit {0})
block_op write p blkno s = if write then wblock p blkno 1 s else rblock p blkno 1 s

-- Step 1: the first block, if the offset is not aligned with it.
unfoldable pub first_part : Bool → ℕ → Io → Eff Io (Unit {0})
first_part write endpos io =
    let blkoff = io.offset % blk_size in
    let size = if not (io.nblks == 0) then blk_size - blkoff else endpos - io.offset in
    if not (blkoff == 0)
    then (lift (bmap_load io.blkno io.fs) io !> λ ino io.
        lift (buf_op write io.alen size ino blkoff io.fs) io !> λ _ io. ok tt (record io {
          alen = io.alen + size;
          offset = io.offset + size;
          blkno = io.blkno + 1;
          nblks = if ltb 0 io.nblks then io.nblks - 1 else io.nblks;
        }))
    else ok tt io

-- Step 2: whole blocks, `nblks` of them.
unfoldable pub middle_part : Bool → ℕ → Io → Eff Io (Unit {0})
middle_part write zero io = ok tt io
middle_part write (suc nblks) io = lift (bmap_load io.blkno io.fs) io !> λ ino io.
    lift (block_op write io.alen ino io.fs) io !> λ _ io.
    middle_part write nblks
      (record io { alen = io.alen + blk_size; blkno = io.blkno + 1; offset = io.offset + blk_size })

-- Step 3: what is left, at the beginning of the next block.
unfoldable pub last_part : Bool → ℕ → Io → Eff Io (Unit {0})
last_part write endpos io =
    let size = endpos - io.offset in
    if ltb io.offset endpos
    then (lift (bmap_load io.blkno io.fs) io !> λ ino io.
        lift (buf_op write io.alen size ino 0 io.fs) io !> λ _ io.
        ok tt (record io { alen = io.alen + size }))
    else ok tt io

-- After `out`: the error if there is one, the number of bytes, and the size of the file.
unfoldable pub grow : ℕ → Sfs → Sfs
grow end s =
    if ltb s.din.size end
    then record s { din = record s.din { size = end % 2 ^ 32; dirty = true } }
    else s

abbrev pub finish : Eff Io (Unit {0}) → Run (Option Error × ℕ × Sfs)
finish (ok _ io) = done (none, io.alen, grow (io.offset + io.alen) io.fs)
finish (fail e io) = done (some e, io.alen, grow (io.offset + io.alen) io.fs)
finish stop = panic

unfoldable pub transfer : Bool → ℕ → ℕ → Sfs → Run (Option Error × ℕ × Sfs)
unfolding first_part middle_part last_part
transfer write offset endpos s = finish (
    first_part write endpos (record {
      fs = s;
      blkno = offset / blk_size;
      nblks = endpos / blk_size - offset / blk_size;
      offset = offset;
      alen = 0;
    })
    !> λ _ io. middle_part write io.nblks io !> λ _ io. last_part write endpos io)

-- From the end position on. `offset` and `endpos` are signed 64-bit words.
unfoldable pub io_between : ℕ → ℕ → Bool → Sfs → Run (Option Error × ℕ × Sfs)
unfolding transfer
io_between offset endpos write s =
    let limit = if ltb max_file_size endpos then max_file_size else endpos in
    if leb max_file_size offset || (leb (2 ^ 63) endpos || ltb endpos offset)
    then done (some e_inval, 0, s)
    else if offset == endpos
    then done (none, 0, s)
    else if write
    then transfer write offset limit s
    else if leb s.din.size offset
    then done (none, 0, s)
    else transfer write offset (if ltb s.din.size limit then s.din.size else limit) s

unfoldable pub io_nolock : ℕ → ℕ → Bool → Sfs → Run (Option Error × ℕ × Sfs)
unfolding io_between
io_nolock offset len write s =
    assert (not s.din.is_dir) >> io_between offset ((offset + len) % 2 ^ 64) write s
