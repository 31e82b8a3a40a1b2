-- ===== src/Files/Tests.antt =====
-- A table with two open files, over file systems that do nothing.
use oshub.Prelude.{
  ℕ, ◌+◌, ◌-◌, ◌≤◌, ◌<◌, ◌≡◌, true, ◌⊎◌, arith, Option, some, none, [], Error, e_no_mem, done, ok,
}
use oshub.Memory.Copy.{Copied}
use oshub.Files.State.{File, fd_none, fd_opened, Fs, Ops}
use oshub.Files.Iobuf.{Iobuf, Buffered, iobuf_move, iobuf_used}
use oshub.Files.Kept.{Others, Kept}
use oshub.Files.Copying.{with_copy}
use oshub.Files.Move.{iobuf_move_lem}

abbrev quiet : Ops (Unit {0})
quiet = record {
  vop_open = λ n flags s. ok tt tt;
  vop_close = λ n s. ok tt tt;
  vop_reclaim = λ n s. ok tt tt;
  vop_read = λ n iob s. done (none, record iob { io_resid = iob.io_resid - 5 }, tt);
  vop_write = λ n iob s. done (some e_no_mem, record iob { io_resid = iob.io_resid - 5 }, tt);
  vop_getdirentry = λ n iob s. done (none, iob, tt);
  vop_fstat = λ n s. ok 0 tt;
  vop_fsync = λ n s. ok tt tt;
  vop_tryseek = λ n pos s. ok tt tt;
  vop_truncate = λ n len s. ok tt tt;
  vop_create = λ n name excl s. ok 9 s;
  vfs_lookup = λ path s. ok 7 s;
  vfs_lookup_parent = λ path s. ok (7, []) s;
}

abbrev opened : File
opened = record {
  status = fd_opened;
  readable = true;
  writable = true;
  fd = 0;
  pos = 10;
  node = some 7;
  open_count = 1;
}

abbrev empty : Fs (Unit {0})
empty = record {
  pwd = none;
  table = λ i. record opened { status = fd_none; fd = i; node = none; open_count = 0 };
  files_count = 1;
  node_refs = λ n. 1;
  node_opens = λ n. 0;
  sys = tt;
}

-- No other table; a name holds a reference to every inode.
abbrev alone : Others
alone = record { opens = λ n. 0; refs = λ n. 1 }

abbrev two : Fs (Unit {0})
two = with_copy 1 opened 7 (with_copy 0 opened 7 empty)

abbrev left : Fs (Unit {0})
left = record two { files_count = 0 }

abbrev five_read : Iobuf
five_read = record { io_base = 1000; io_offset = 10; io_len = 8; io_resid = 3 }

abbrev buffered : Buffered
buffered = record { iob = five_read; mem = λ x. x }

iobuf_move_lem_example :
    (e : Option Error) × (n : ℕ) × (b' : Buffered) × (iobuf_move 2000 4 true buffered
      ≡ ok (e, n) b')
    × (((e ≡ none) × (n ≡ 4)) ⊎ ((e ≡ some e_no_mem) × (n ≡ 3) × (n < 4)))
    × (b'.iob.io_resid + n ≡ 3)
    × (b'.iob.io_resid ≤ b'.iob.io_len)
    × (iobuf_used b'.iob ≡ iobuf_used five_read + n)
    × Copied n 1000 2000 buffered.mem b'.mem
iobuf_move_lem_example = iobuf_move_lem 2000 4 true buffered (omega arith)
