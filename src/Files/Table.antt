-- ===== src/Files/Table.antt =====
-- fs/file.c: the slots of the table of open files. A `struct file *` is the index of its slot.
use oshub.Prelude.{
  ℕ, zero, suc, ◌+◌, ◌-◌, ◌^◌, Bool, true, false, not, ltb, ◌==◌, ◌&&◌, ◌||◌, if◌then◌else◌, update,
  Option, some, none, e_inval, e_busy, e_max_open, Eff, ok, fail, stop, ◌!>◌, assert_then,
}
use oshub.Files.State.{
  Status, fd_none, fd_init, fd_opened, fd_closed, File, Fs, Ops, inode_ref_inc, inode_open_inc,
}
use oshub.Files.Vfs.{vfs_close}

-- `FILES_STRUCT_NENTRY`: (4096 - 48) / 40, from the sizes of the two structs.
abbrev pub nentry : ℕ
nentry = 101

-- `NO_FD`, which is -0x9527
abbrev pub no_fd : ℕ
no_fd = 2 ^ 32 - 38183

abbrev pub testfd : ℕ → Bool
testfd fd = ltb fd (2 ^ 31) && ltb fd nentry

abbrev pub is_none : Status → Bool
is_none fd_none = true
is_none _ = false

abbrev pub is_init : Status → Bool
is_init fd_init = true
is_init _ = false

abbrev pub is_opened : Status → Bool
is_opened fd_opened = true
is_opened _ = false

abbrev pub is_closed : Status → Bool
is_closed fd_closed = true
is_closed _ = false

abbrev pub has_node : Option ℕ → Bool
has_node none = false
has_node (some n) = true

-- The loop over the slots, `k` of them from `fd` on.
unfoldable pub fd_array_init : ℕ → ℕ → (ℕ → File) → (ℕ → File)
fd_array_init zero fd t = t
fd_array_init (suc k) fd t =
    fd_array_init k (fd + 1)
      (update t fd (record (t fd) { open_count = 0; status = fd_none; fd = fd }))

-- The loop that searches a free slot, `k` slots from `fd` on.
unfoldable pub find_slot : ℕ → ℕ → (ℕ → File) → Option ℕ
find_slot zero fd t = none
find_slot (suc k) fd t =
    let rest = find_slot k (fd + 1) t in if is_none (t fd).status then some fd else rest

module _ {W : Type 0} where
  abbrev pub set_file : ℕ → File → Fs W → Fs W
  set_file i f s = record s { table = update s.table i f }

  -- `get_fd_array`, and then `m`
  abbrev pub with_array {ℓ} : {A : Type ℓ} → Fs W → Eff (Fs W) A → Eff (Fs W) A
  with_array s m = assert_then (ltb 0 s.files_count) m

  -- After `found`.
  unfoldable pub take_slot : ℕ → Fs W → Eff (Fs W) ℕ
  take_slot i s =
      assert_then ((s.table i).open_count == 0)
        (ok i (set_file i (record (s.table i) { status = fd_init; node = none }) s))

  unfoldable pub fd_array_alloc : ℕ → Fs W → Eff (Fs W) ℕ
  unfolding find_slot take_slot
  fd_array_alloc fd s = with_array s (
      if fd == no_fd
      then elim (find_slot nentry 0 s.table) [ none ↦ fail e_max_open s | some i ↦ take_slot i s ]
      else if testfd fd
      then (if is_none (s.table fd).status then take_slot fd s else fail e_busy s)
      else fail e_inval s)

  -- `vfs_close(file->node)`, where a NULL stops in its checks.
  abbrev pub close_node : Ops W → Option ℕ → Fs W → Eff (Fs W) (Unit {0})
  close_node ops none s = stop
  close_node ops (some n) s = vfs_close ops n s

  unfoldable pub fd_array_free : Ops W → ℕ → Fs W → Eff (Fs W) (Unit {0})
  unfolding vfs_close
  fd_array_free ops i s = assert_then (is_init (s.table i).status || is_closed (s.table i).status) (
      assert_then ((s.table i).open_count == 0) (
        (if is_closed (s.table i).status then close_node ops (s.table i).node s else ok tt s)
        !> λ _ s. ok tt (set_file i (record (s.table i) { status = fd_none }) s)))

  unfoldable pub fd_array_acquire : ℕ → Fs W → Eff (Fs W) (Unit {0})
  fd_array_acquire i s =
      assert_then (is_opened (s.table i).status)
        (ok tt (set_file i (record (s.table i) { open_count = (s.table i).open_count + 1 }) s))

  -- `fopen_count_dec`, and `fd_array_free` when the count is 0.
  unfoldable pub drop_count : Ops W → ℕ → Fs W → Eff (Fs W) (Unit {0})
  unfolding fd_array_free
  drop_count ops i s = assert_then (ltb 0 (s.table i).open_count) (
      let s' = set_file i (record (s.table i) { open_count = (s.table i).open_count - 1 }) s in
      if (s.table i).open_count == 1 then fd_array_free ops i s' else ok tt s')

  unfoldable pub fd_array_release : Ops W → ℕ → Fs W → Eff (Fs W) (Unit {0})
  unfolding drop_count
  fd_array_release ops i s =
      assert_then (is_opened (s.table i).status || is_closed (s.table i).status)
        (drop_count ops i s)

  unfoldable pub fd_array_open : ℕ → Fs W → Eff (Fs W) (Unit {0})
  fd_array_open i s = assert_then (is_init (s.table i).status && has_node (s.table i).node) (
      ok tt (
        set_file i
          (record (s.table i) { status = fd_opened; open_count = (s.table i).open_count + 1 }) s))

  unfoldable pub fd_array_close : Ops W → ℕ → Fs W → Eff (Fs W) (Unit {0})
  unfolding drop_count
  fd_array_close ops i s =
      assert_then (is_opened (s.table i).status && ltb 0 (s.table i).open_count)
        (drop_count ops i (set_file i (record (s.table i) { status = fd_closed }) s))

  -- `vop_ref_inc(node), vop_open_inc(node)`
  abbrev pub share_node : Option ℕ → Fs W → Fs W
  share_node none s = s
  share_node (some n) s = inode_open_inc n (inode_ref_inc n s)

  -- The slot `to` becomes a copy of the file `from`, which may be of another table.
  unfoldable pub fd_array_dup : ℕ → File → Fs W → Eff (Fs W) (Unit {0})
  unfolding fd_array_open inode_ref_inc inode_open_inc
  fd_array_dup to from s = assert_then (is_init (s.table to).status && is_opened from.status) (
      fd_array_open to (
        share_node from.node (
          set_file to
            (record (s.table to) {
              pos = from.pos;
              readable = from.readable;
              writable = from.writable;
              node = from.node;
            })
            s)))

  unfoldable pub fd2file : ℕ → Fs W → Eff (Fs W) ℕ
  fd2file fd s =
      if testfd fd
      then with_array s (
          if is_opened (s.table fd).status && (s.table fd).fd == fd
          then ok fd s
          else fail e_inval s)
      else fail e_inval s

  unfoldable pub file_testfd : ℕ → Bool → Bool → Fs W → Eff (Fs W) Bool
  unfolding fd2file
  file_testfd fd readable writable s = elim (fd2file fd s) [
    | fail e s ↦ ok false s
    | stop ↦ stop
    | ok i s ↦
        if readable && not (s.table i).readable
        then ok false s
        else if writable && not (s.table i).writable
        then ok false s
        else ok true s
  ]
