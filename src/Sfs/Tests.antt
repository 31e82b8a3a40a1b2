-- ===== src/Sfs/Tests.antt =====
-- A file of one block on a small disk.
use oshub.Prelude.{ℕ, ◌+◌, ◌*◌, ◌<◌, ◌≤◌, ◌≡◌, refl, true, false, arith, done, none}
use oshub.Bitmap
use oshub.Sfs.Disk.{Sfs, block_inuse}
use oshub.Sfs.Io.{io_nolock}
use oshub.Sfs.Mapped.{Mapped, Usable, Addressed, stored}
use oshub.Sfs.Read.{readable, io_nolock_read, io_nolock_grows}

abbrev one_block : Sfs
one_block = record {
  blocks = 100;
  unused_blocks = 90;
  super_dirty = false;
  freemap = record { nbits = 100; nwords = 4; map = λ w i. false };
  d_blocks = 100;
  disk = λ b x. b + x;
  din = record {
    size = 4096;
    is_dir = false;
    nblocks = 1;
    direct = λ i. 5;
    indirect = 0;
    dirty = false;
  };
  buffer = λ x. 0;
}

five-Usable : Usable one_block 5
unfolding block_inuse Bitmap.test
five-Usable = record {
  some_block = λ e. omega (arith, e);
  inside = omega arith;
  on_disk = omega arith;
  in_use = refl;
}

one_block-Mapped : Mapped one_block
one_block-Mapped = record {
  within = omega arith;
  each = λ i h. let e : i ≡ 0 = omega arith in rw e five-Usable;
  entries = λ h. absurd (omega arith);
}

one_block-Addressed : Addressed one_block
one_block-Addressed = record {
  blocks = λ i h. let e : i ≡ 0 = omega arith in rw e (omega arith);
  table = λ h. absurd (omega arith);
}

io_nolock_read_example :
    (s' : Sfs) × (io_nolock 10 100 false one_block ≡ done (none, readable 10 100 one_block, s'))
    × (s'.disk ≡ one_block.disk)
    × ((x : ℕ) → x < readable 10 100 one_block → s'.buffer x ≡ stored one_block (10 + x))
    × ((x : ℕ) → readable 10 100 one_block ≤ x → s'.buffer x ≡ one_block.buffer x)
io_nolock_read_example =
    io_nolock_read one_block 10 100 one_block-Mapped one_block-Addressed refl (omega arith)
      (omega arith) (omega arith) (omega arith)

io_nolock_grows_example :
    (s' : Sfs) × (io_nolock 0 4096 false one_block ≡ done (none, 4096, s'))
    × (s'.din.size ≡ 2 * 4096)
    × (s'.din.dirty ≡ true)
io_nolock_grows_example =
    io_nolock_grows one_block one_block-Mapped refl (omega arith) refl (omega arith)
