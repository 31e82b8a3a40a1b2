-- ===== src/Files/Process.antt =====
-- fs/fs.c: the table of open files when a process begins, is copied and ends.
use oshub.Prelude.{
  ℕ, zero, suc, ◌+◌, ltb, ◌==◌, ◌&&◌, Bool, if◌then◌else◌, Option, some, none, Eff, ok, ◌!>◌,
  assert_then,
}
use oshub.Files.State.{File, fd_init, Fs, Ops, inode_ref_inc, inode_ref_dec}
use oshub.Files.Table.{
  nentry, is_none, is_opened, set_file, fd_array_init, fd_array_close, fd_array_dup,
}

module _ {W : Type 0} where
  -- `files_create`, where `got` says whether `kmalloc` returned memory; it held the table `t`.
  unfoldable pub files_create : Bool → (ℕ → File) → Fs W → Option (Fs W)
  unfolding fd_array_init
  files_create got t s =
      if got
      then some (record s { pwd = none; files_count = 0; table = fd_array_init nentry 0 t })
      else none

  -- `if (file->status == FD_OPENED) fd_array_close(file);`
  unfoldable pub close_if_open : Ops W → ℕ → Fs W → Eff (Fs W) (Unit {0})
  unfolding fd_array_close
  close_if_open ops i s = if is_opened (s.table i).status then fd_array_close ops i s else ok tt s

  -- The loop of `files_closeall`, `k` slots from `i` on.
  unfoldable pub close_from : Ops W → ℕ → ℕ → Fs W → Eff (Fs W) (Unit {0})
  unfolding close_if_open
  close_from ops zero i s = ok tt s
  close_from ops (suc k) i s = close_if_open ops i s !> λ _ s. close_from ops k (i + 1) s

  unfoldable pub files_closeall : Ops W → Fs W → Eff (Fs W) (Unit {0})
  unfolding close_from
  files_closeall ops s = assert_then (ltb 0 s.files_count) (close_from ops 99 2 s)

  -- The loop of `files_destroy`.
  unfoldable pub destroy_from : Ops W → ℕ → ℕ → Fs W → Eff (Fs W) (Unit {0})
  unfolding close_if_open
  destroy_from ops zero i s = ok tt s
  destroy_from ops (suc k) i s = close_if_open ops i s !> λ _ s.
      assert_then (is_none (s.table i).status) (destroy_from ops k (i + 1) s)

  abbrev pub leave_pwd : Ops W → Option ℕ → Fs W → Eff (Fs W) (Unit {0})
  leave_pwd ops none s = ok tt s
  leave_pwd ops (some n) s = inode_ref_dec ops n s

  unfoldable pub files_destroy : Ops W → Fs W → Eff (Fs W) (Unit {0})
  unfolding inode_ref_dec destroy_from
  files_destroy ops s =
      assert_then (s.files_count == 0) (leave_pwd ops s.pwd s !> λ _ s. destroy_from ops nentry 0 s)

  -- The loop of `dup_files`: `to` is the table of the state.
  unfoldable pub dup_from : ℕ → ℕ → (ℕ → File) → Fs W → Eff (Fs W) (Unit {0})
  unfolding fd_array_dup
  dup_from zero i from s = ok tt s
  dup_from (suc k) i from s =
      (if is_opened (from i).status
        then fd_array_dup i (from i) (set_file i (record (s.table i) { status = fd_init }) s)
        else ok tt s)
      !> λ _ s. dup_from k (i + 1) from s

  abbrev enter_pwd : Option ℕ → Fs W → Fs W
  enter_pwd none s = record s { pwd = none }
  enter_pwd (some n) s = inode_ref_inc n (record s { pwd = some n })

  -- The other table has the directory `pwd`, the count `count` and the files `from`.
  unfoldable pub dup_files : Option ℕ → ℕ → (ℕ → File) → Fs W → Eff (Fs W) (Unit {0})
  unfolding inode_ref_inc dup_from
  dup_files pwd count from s =
      assert_then ((s.files_count == 0) && ltb 0 count) (dup_from nentry 0 from (enter_pwd pwd s))
