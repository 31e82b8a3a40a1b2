-- ===== src/Files/Vfs.antt =====
-- vfs/vfsfile.c: opening a path and closing an inode.
use oshub.Prelude.{
  ℕ, ◌/◌, ◌%◌, ◌==◌, Bool, not, ◌||◌, ◌&&◌, if◌then◌else◌, e_inval, e_noent, e_exists, Eff, ok,
  fail, stop, ◌!>◌, assert_then,
}
use oshub.Files.State.{
  Fs, Ops, Name, vop, inode_check, inode_open_inc, inode_open_dec, inode_ref_dec,
}

-- The bits of `open_flags`.
abbrev pub access : ℕ → ℕ
access flags = flags % 4

abbrev pub has : ℕ → ℕ → Bool
has bit flags = not (flags / bit % 2 == 0)

abbrev pub o_creat : ℕ
o_creat = 4

abbrev pub o_excl : ℕ
o_excl = 8

abbrev pub o_trunc : ℕ
o_trunc = 16

abbrev pub o_append : ℕ
o_append = 32

module _ {W : Type 0} (ops : Ops W) where
  unfoldable pub vfs_close : ℕ → Fs W → Eff (Fs W) (Unit {0})
  unfolding inode_open_dec inode_ref_dec
  vfs_close n s = inode_open_dec ops n s !> λ _ s. inode_ref_dec ops n s

  -- The inode, which is made if it is missing and `create` is set.
  unfoldable pub find_node : Name → Bool → Bool → Fs W → Eff (Fs W) ℕ
  unfolding inode_check
  find_node path excl create s = elim (ops.vfs_lookup path s) [
    | ok n s ↦ if excl && create then fail e_exists s else ok n s
    | fail e_noent s ↦
        if create
        then (ops.vfs_lookup_parent path s !> λ (dir, name) s.
            assert_then (inode_check dir s) (ops.vop_create dir name excl s))
        else fail e_noent s
    | fail e s ↦ fail e s
    | stop ↦ stop
  ]

  -- What follows on `vop_truncate`.
  abbrev pub after_cut : ℕ → Eff (Fs W) (Unit {0}) → Eff (Fs W) ℕ
  after_cut n (ok _ s) = ok n s
  after_cut n (fail e s) = inode_open_dec ops n s !> λ _ s. inode_ref_dec ops n s !> λ _ s. fail e s
  after_cut n stop = stop

  -- What follows on `vop_open`: the file is cut to length 0 if that is asked for.
  abbrev pub after_open : ℕ → ℕ → Bool → Eff (Fs W) (Unit {0}) → Eff (Fs W) ℕ
  after_open flags n create (ok _ s) =
      let s' = inode_open_inc n s in
      if has o_trunc flags || create then after_cut n (vop n (ops.vop_truncate n 0) s') else ok n s'
  after_open flags n create (fail e s) = inode_ref_dec ops n s !> λ _ s. fail e s
  after_open flags n create stop = stop

  -- From the inode on.
  unfoldable pub open_node : ℕ → ℕ → Bool → Fs W → Eff (Fs W) ℕ
  open_node flags n create s = after_open flags n create (vop n (ops.vop_open n flags) s)

  unfoldable pub vfs_open : Name → ℕ → Fs W → Eff (Fs W) ℕ
  unfolding find_node open_node
  vfs_open path flags s =
      if access flags == 3
      then fail e_inval s
      else if has o_trunc flags && access flags == 0
      then fail e_inval s
      else (find_node path (has o_excl flags) (has o_creat flags) s !> λ n s.
          open_node flags n (has o_creat flags) s)
