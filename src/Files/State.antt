-- ===== src/Files/State.antt =====
-- The table of open files of a process, the reference counts of vfs/inode.c, and the operations
-- that a file system supplies.
use oshub.Prelude.{
  ℕ, ◌+◌, ◌-◌, Bool, ltb, leb, ◌==◌, ◌&&◌, if◌then◌else◌, update, List, Option, Error, Run, Eff, ok,
  fail, stop, assert_then,
}
use oshub.Files.Iobuf.{Iobuf}

pub data Status : Type 0 where
  fd_none fd_init fd_opened fd_closed : Status

-- `struct file`; `fd` is a 32-bit and `pos` a 64-bit word.
pub record File : Type 0 where
  pub status : Status
  pub readable : Bool
  pub writable : Bool
  pub fd : ℕ
  pub pos : ℕ
  pub node : Option ℕ
  pub open_count : ℕ

-- `struct files_struct`, the counts of every `struct inode`, and what the file systems keep.
pub record Fs (W : Type 0) : Type 0 where
  pub pwd : Option ℕ
  pub table : ℕ → File
  pub files_count : ℕ
  pub node_refs : ℕ → ℕ
  pub node_opens : ℕ → ℕ
  pub sys : W

abbrev pub Name : Type 0
Name = List ℕ

-- `struct inode_ops`, and the two searches of vfs/vfslookup.c
pub record Ops (W : Type 0) : Type 0 where
  pub vop_open : ℕ → ℕ → Fs W → Eff W (Unit {0})
  pub vop_close : ℕ → Fs W → Eff W (Unit {0})
  pub vop_reclaim : ℕ → Fs W → Eff W (Unit {0})
  pub vop_read : ℕ → Iobuf → Fs W → Run (Option Error × Iobuf × W)
  pub vop_write : ℕ → Iobuf → Fs W → Run (Option Error × Iobuf × W)
  pub vop_getdirentry : ℕ → Iobuf → Fs W → Run (Option Error × Iobuf × W)
  pub vop_fstat : ℕ → Fs W → Eff W ℕ
  pub vop_fsync : ℕ → Fs W → Eff W (Unit {0})
  pub vop_tryseek : ℕ → ℕ → Fs W → Eff W (Unit {0})
  pub vop_truncate : ℕ → ℕ → Fs W → Eff W (Unit {0})
  pub vop_create : ℕ → Name → Bool → Fs W → Eff (Fs W) ℕ
  pub vfs_lookup : Name → Fs W → Eff (Fs W) ℕ
  pub vfs_lookup_parent : Name → Fs W → Eff (Fs W) (ℕ × Name)

abbrev pub max_inode_count : ℕ
max_inode_count = 65536

module _ {W : Type 0} where
  -- `inode_check`
  unfoldable pub inode_check : ℕ → Fs W → Bool
  inode_check n s =
      leb (s.node_opens n) (s.node_refs n)
      && ltb (s.node_refs n) max_inode_count
      && ltb (s.node_opens n) max_inode_count

  abbrev pub lift {ℓ} : {A : Type ℓ} → Eff W A → Fs W → Eff (Fs W) A
  lift (ok a w) s = ok a (record s { sys = w })
  lift (fail e w) s = fail e (record s { sys = w })
  lift stop s = stop

  -- `__vop_op`: the check and then the call.
  abbrev pub vop {ℓ} : {A : Type ℓ} → ℕ → (Fs W → Eff W A) → Fs W → Eff (Fs W) A
  vop n f s = assert_then (inode_check n s) (lift (f s) s)

  -- A call whose error is only reported on the console.
  abbrev pub warned : Eff (Fs W) (Unit {0}) → Eff (Fs W) (Unit {0})
  warned (ok _ s) = ok tt s
  warned (fail e s) = ok tt s
  warned stop = stop

  unfoldable pub inode_ref_inc : ℕ → Fs W → Fs W
  inode_ref_inc n s = record s { node_refs = update s.node_refs n (s.node_refs n + 1) }

  unfoldable pub inode_open_inc : ℕ → Fs W → Fs W
  inode_open_inc n s = record s { node_opens = update s.node_opens n (s.node_opens n + 1) }

  unfoldable pub inode_ref_dec : Ops W → ℕ → Fs W → Eff (Fs W) (Unit {0})
  unfolding inode_check
  inode_ref_dec ops n s =
      let s' = record s { node_refs = update s.node_refs n (s.node_refs n - 1) } in
      assert_then (ltb 0 (s.node_refs n))
        (if s.node_refs n == 1 then warned (vop n (ops.vop_reclaim n) s') else ok tt s')

  unfoldable pub inode_open_dec : Ops W → ℕ → Fs W → Eff (Fs W) (Unit {0})
  unfolding inode_check
  inode_open_dec ops n s =
      let s' = record s { node_opens = update s.node_opens n (s.node_opens n - 1) } in
      assert_then (ltb 0 (s.node_opens n))
        (if s.node_opens n == 1 then warned (vop n (ops.vop_close n) s') else ok tt s')
