-- ===== src/Files/Calls.antt =====
-- fs/file.c: the calls on file descriptors. A call returns its error and what it stores.
use oshub.Prelude.{
  ℕ, ◌+◌, ◌%◌, ◌^◌, not, ◌==◌, if◌then◌else◌, Option, some, none, Error, e_inval, Run, done, panic,
  Eff, ok, fail, stop, ◌!>◌,
}
use oshub.Files.State.{Fs, Ops, Name, vop, inode_check}
use oshub.Files.Vfs.{vfs_open, vfs_close, access, has, o_append}
use oshub.Files.Iobuf.{Iobuf, iobuf_init, iobuf_used}
use oshub.Files.Table.{
  no_fd, is_opened, set_file, fd_array_alloc, fd_array_free, fd_array_open, fd_array_close,
  fd_array_dup, fd_array_acquire, fd_array_release, fd2file,
}

module _ {W : Type 0} (ops : Ops W) where
  -- `file_open` from the inode on: the position, and the slot is opened.
  unfoldable pub open_slot : ℕ → ℕ → ℕ → Fs W → Eff (Fs W) ℕ
  unfolding vfs_close fd_array_free fd_array_open inode_check
  open_slot flags i n s0 =
      let s = set_file i (record (s0.table i) { pos = 0 }) s0 in
      elim (if has o_append flags then vop n (ops.vop_fstat n) s else ok 0 s) [
        | stop ↦ stop
        | fail e s ↦ vfs_close ops n s !> λ _ s. fd_array_free ops i s !> λ _ s. fail e s
        | ok size s ↦
            fd_array_open i (
              set_file i
                (record (s.table i) {
                  pos = size;
                  node = some n;
                  readable = not (access flags == 1);
                  writable = not (access flags == 0);
                })
                s)
            !> λ _ s. ok (s.table i).fd s
      ]

  unfoldable pub file_open : Name → ℕ → Fs W → Eff (Fs W) ℕ
  unfolding fd_array_alloc vfs_open open_slot fd_array_free
  file_open path flags s =
      if access flags == 3
      then fail e_inval s
      else (fd_array_alloc no_fd s !> λ i s. elim (vfs_open ops path flags s) [
        | stop ↦ stop
        | fail e s ↦ fd_array_free ops i s !> λ _ s. fail e s
        | ok n s ↦ open_slot flags i n s
      ])

  unfoldable pub file_close : ℕ → Fs W → Eff (Fs W) (Unit {0})
  unfolding fd2file fd_array_close
  file_close fd s = fd2file fd s !> λ i s. fd_array_close ops i s

  -- The call of the file system on the inode of an open file.
  abbrev pub on_node {ℓ} : {A : Type ℓ} → Option ℕ → (ℕ → Fs W → Eff W A) → Fs W → Eff (Fs W) A
  on_node none f s = stop
  on_node (some n) f s = vop n (f n) s

  -- A transfer through a buffer: its error, and the number of bytes used.
  abbrev pub used : Run (Option Error × Iobuf × W) → Eff W (Option Error × ℕ)
  used (done (e, iob, w)) = ok (e, iobuf_used iob) w
  used panic = stop

  -- The position moves on, if the file is still open.
  abbrev pub advance : ℕ → ℕ → Fs W → Fs W
  advance i copied s =
      if is_opened (s.table i).status
      then set_file i (record (s.table i) { pos = ((s.table i).pos + copied) % 2 ^ 64 }) s
      else s

  -- From `fd_array_acquire` on, for `file_read` and `file_write`.
  unfoldable pub transfer :
      (ℕ → Iobuf → Fs W → Run (Option Error × Iobuf × W))
      → ℕ
      → ℕ
      → ℕ
      → Fs W
      → Eff (Fs W) (Option Error × ℕ)
  unfolding fd_array_acquire fd_array_release iobuf_init iobuf_used inode_check
  transfer call base len i s = fd_array_acquire i s !> λ _ s.
      on_node (s.table i).node (λ n s. used (call n (iobuf_init base len (s.table i).pos) s)) s
      !> λ (e, copied) s. fd_array_release ops i (advance i copied s) !> λ _ s. ok (e, copied) s

  -- The error of the table, with no byte copied.
  abbrev uncopied : Eff (Fs W) (Option Error × ℕ) → Eff (Fs W) (Option Error × ℕ)
  uncopied (fail e s) = ok (some e, 0) s
  uncopied m = m

  unfoldable pub file_read : ℕ → ℕ → ℕ → Fs W → Eff (Fs W) (Option Error × ℕ)
  file_read fd base len s = uncopied (
      fd2file fd s !> λ i s.
      if (s.table i).readable then transfer ops.vop_read base len i s else fail e_inval s)

  unfoldable pub file_write : ℕ → ℕ → ℕ → Fs W → Eff (Fs W) (Option Error × ℕ)
  file_write fd base len s = uncopied (
      fd2file fd s !> λ i s.
      if (s.table i).writable then transfer ops.vop_write base len i s else fail e_inval s)

  -- `fd_array_acquire`, the work `m`, and `fd_array_release` whether it fails or not.
  unfoldable pub guarded {ℓ} : {A : Type ℓ} → ℕ → (ℕ → Fs W → Eff (Fs W) A) → Fs W → Eff (Fs W) A
  unfolding fd2file fd_array_acquire fd_array_release
  guarded fd m s = fd2file fd s !> λ i s. fd_array_acquire i s !> λ _ s. elim (m i s) [
    | ok a s ↦ fd_array_release ops i s !> λ _ s. ok a s
    | fail e s ↦ fd_array_release ops i s !> λ _ s. fail e s
    | stop ↦ stop
  ]

  -- The position that `file_seek` wants: `whence` is 0, 1 or 2.
  unfoldable pub seek_target : ℕ → ℕ → ℕ → Fs W → Eff (Fs W) ℕ
  unfolding inode_check
  seek_target pos whence i s =
      if whence == 0
      then ok pos s
      else if whence == 1
      then ok ((pos + (s.table i).pos) % 2 ^ 64) s
      else if whence == 2
      then (on_node (s.table i).node ops.vop_fstat s !> λ size s. ok ((pos + size) % 2 ^ 64) s)
      else fail e_inval s

  unfoldable pub file_seek : ℕ → ℕ → ℕ → Fs W → Eff (Fs W) (Unit {0})
  unfolding guarded seek_target inode_check
  file_seek fd pos whence s =
      guarded fd
        (λ i s. seek_target pos whence i s !> λ pos s.
          on_node (s.table i).node (λ n. ops.vop_tryseek n pos) s !> λ _ s.
          ok tt (set_file i (record (s.table i) { pos = pos }) s))
        s

  unfoldable pub file_fstat : ℕ → Fs W → Eff (Fs W) ℕ
  unfolding guarded inode_check
  file_fstat fd s = guarded fd (λ i s. on_node (s.table i).node ops.vop_fstat s) s

  unfoldable pub file_fsync : ℕ → Fs W → Eff (Fs W) (Unit {0})
  unfolding guarded inode_check
  file_fsync fd s = guarded fd (λ i s. on_node (s.table i).node ops.vop_fsync s) s

  abbrev name_size : ℕ
  name_size = 256

  -- The new `direntp->offset`.
  unfoldable pub file_getdirentry : ℕ → ℕ → ℕ → Fs W → Eff (Fs W) ℕ
  unfolding guarded inode_check iobuf_init iobuf_used
  file_getdirentry fd name offset s =
      guarded fd
        (λ i s.
          on_node (s.table i).node
            (λ n s. used (ops.vop_getdirentry n (iobuf_init name name_size offset) s)) s
          !> λ (e, copied) s. elim e [
            | none ↦ ok ((offset + copied) % 2 ^ 64) s
            | some e ↦ fail e s
          ])
        s

  unfoldable pub file_dup : ℕ → ℕ → Fs W → Eff (Fs W) ℕ
  unfolding fd2file fd_array_alloc fd_array_dup
  file_dup fd1 fd2 s = fd2file fd1 s !> λ i s.
      fd_array_alloc fd2 s !> λ j s. fd_array_dup j (s.table i) s !> λ _ s. ok (s.table j).fd s
