-- ===== src/Sfs/Bmap.antt =====
-- Which block of the disk holds a block of a file: `sfs_bmap_...` of sfs_inode.c.
use oshub.Prelude.{
  ℕ, ◌+◌, ◌-◌, ◌*◌, ◌/◌, ◌%◌, ◌^◌, Bool, true, false, not, ◌==◌, ltb, leb, if◌then◌else◌, ◌&&◌,
  ◌||◌, update, Eff, ok, fail, stop, ◌!>◌, assert_then,
}
use oshub.Sfs.Disk.{Bytes, Sfs, rbuf, wbuf, block_inuse, holds, block_alloc, block_free}

abbrev pub ndirect : ℕ
ndirect = 12

abbrev pub nentry : ℕ
nentry = 1024

-- A `uint32_t` in memory, its lowest byte first.
abbrev pub word_of : Bytes → ℕ
word_of b = b 0 + 256 * b 1 + 65536 * b 2 + 16777216 * b 3

abbrev pub bytes_of : ℕ → Bytes
bytes_of w i = w / 256 ^ i % 256

-- `failed_cleanup` of `sfs_bmap_get_sub_nolock`, after an error.
unfoldable pub cleanup : Bool → ℕ → Eff Sfs ℕ → Eff Sfs ℕ
cleanup fresh ent (fail e s) = if fresh then (block_free ent s !> λ _ s. fail e s) else fail e s
cleanup fresh ent m = m

-- The entry block `ent` gets a new block at `index`.
unfoldable pub enter_block : Bool → ℕ → ℕ → Sfs → Eff Sfs ℕ
unfolding cleanup
enter_block fresh ent index s = cleanup fresh ent (
    block_alloc s !> λ ino s. elim (wbuf (bytes_of ino) 4 ent (index * 4) s) [
      | ok _ s ↦ ok ino s
      | fail e s ↦ block_free ino s !> λ _ s. fail e s
      | stop ↦ stop
    ])

-- `sfs_bmap_get_sub_nolock`: the entry block and the block, 0 if there is none.
unfoldable pub bmap_get_sub : ℕ → ℕ → Bool → Sfs → Eff Sfs (ℕ × ℕ)
unfolding enter_block
bmap_get_sub ent index create s = assert_then (ltb index nentry) (
    if not (ent == 0)
    then (rbuf 4 ent (index * 4) s !> λ b s.
        if not (word_of b == 0) || not create
        then ok (ent, word_of b) s
        else (enter_block false ent index s !> λ ino s. ok (ent, ino) s))
    else if not create
    then ok (0, 0) s
    else (block_alloc s !> λ ent s. enter_block true ent index s !> λ ino s. ok (ent, ino) s))

-- The assertion at the end of `sfs_bmap_get_nolock`.
abbrev pub checked : ℕ → Sfs → Eff Sfs ℕ
checked ino s = assert_then (if ino == 0 then true else holds (block_inuse ino s)) (ok ino s)

-- `sfs_bmap_get_nolock`
unfoldable pub bmap_get : ℕ → Bool → Sfs → Eff Sfs ℕ
unfolding bmap_get_sub
bmap_get index create s =
    if ltb index ndirect
    then if s.din.direct index == 0 && create
      then (block_alloc s !> λ ino s. checked ino (record s {
        din = record s.din { direct = update s.din.direct index ino; dirty = true };
      }))
      else checked (s.din.direct index) s
    else if ltb (index - ndirect) nentry
    then (bmap_get_sub s.din.indirect (index - ndirect) create s !> λ (ent, ino) s.
        if not (ent == s.din.indirect)
        then assert_then (s.din.indirect == 0)
            (checked ino (record s { din = record s.din { indirect = ent; dirty = true } }))
        else checked ino s)
    else stop

-- `sfs_bmap_load_nolock`: one block more than the file has makes it longer.
unfoldable pub bmap_load : ℕ → Sfs → Eff Sfs ℕ
unfolding bmap_get
bmap_load index s = assert_then (leb index s.din.nblocks) (
    let create = index == s.din.nblocks in
    bmap_get index create s !> λ ino s. assert_then (holds (block_inuse ino s)) (
      ok ino
        (if create then record s { din = record s.din { nblocks = s.din.nblocks + 1 } } else s)))

-- `sfs_bmap_free_sub_nolock`
unfoldable pub bmap_free_sub : ℕ → ℕ → Sfs → Eff Sfs (Unit {0})
bmap_free_sub ent index s = assert_then (holds (block_inuse ent s) && ltb index nentry) (
    rbuf 4 ent (index * 4) s !> λ b s.
    if not (word_of b == 0)
    then (wbuf (λ _. 0) 4 ent (index * 4) s !> λ _ s. block_free (word_of b) s)
    else ok tt s)

-- `sfs_bmap_free_nolock`
unfoldable pub bmap_free : ℕ → Sfs → Eff Sfs (Unit {0})
unfolding bmap_free_sub
bmap_free index s =
    if ltb index ndirect
    then if not (s.din.direct index == 0)
      then (block_free (s.din.direct index) s !> λ _ s.
          ok tt (record s {
            din = record s.din { direct = update s.din.direct index 0; dirty = true };
          }))
      else ok tt s
    else if ltb (index - ndirect) nentry && not (s.din.indirect == 0)
    then bmap_free_sub s.din.indirect (index - ndirect) s
    else ok tt s

-- `sfs_bmap_truncate_nolock`: the last block of the file goes.
unfoldable pub bmap_truncate : Sfs → Eff Sfs (Unit {0})
unfolding bmap_free
bmap_truncate s = assert_then (not (s.din.nblocks == 0)) (
    bmap_free (s.din.nblocks - 1) s !> λ _ s.
    ok tt (record s { din = record s.din { nblocks = s.din.nblocks - 1; dirty = true } }))
