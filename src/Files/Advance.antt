-- ===== src/Files/Advance.antt =====
-- `file_read` of an open file.
use oshub.Prelude.{ℕ, ◌+◌, ◌%◌, ◌^◌, update}
use oshub.Files.State.{Fs, Ops}
use oshub.Files.Iobuf.{Iobuf}
use oshub.Files.Table.{set_file}
use oshub.Files.Kept.{Kept}

module _ {W : Type 0} (ops : Ops W) where
  -- The file while it is read.
  abbrev pub acquired : ℕ → Fs W → Fs W
  acquired i s = set_file i (record (s.table i) { open_count = (s.table i).open_count + 1 }) s

  -- The file after a transfer of `copied` bytes.
  abbrev pub moved_on : ℕ → ℕ → W → Fs W → Fs W
  moved_on i copied w s = record s {
    table = update s.table i (record (s.table i) { pos = ((s.table i).pos + copied) % 2 ^ 64 });
    sys = w;
  }
