-- ===== src/Files/Iobuf.antt =====
-- fs/iobuf.c: the part of a buffer that is still to be read or written.
use oshub.Prelude.{
  ℕ, ◌+◌, ◌-◌, ◌%◌, ◌^◌, Bool, ltb, leb, ◌==◌, if◌then◌else◌, Option, some, none, Error, e_no_mem,
  Eff, ok, assert_then, ◌!>◌,
}
use oshub.Memory.{Bytes, memmove, memset}

-- `struct iobuf`
pub record Iobuf : Type 0 where
  pub io_base : ℕ
  pub io_offset : ℕ
  pub io_len : ℕ
  pub io_resid : ℕ

unfoldable pub iobuf_init : ℕ → ℕ → ℕ → Iobuf
iobuf_init base len offset = record {
  io_base = base;
  io_offset = offset;
  io_len = len;
  io_resid = len;
}

unfoldable pub iobuf_used : Iobuf → ℕ
iobuf_used iob =
    if leb iob.io_resid iob.io_len
    then iob.io_len - iob.io_resid
    else iob.io_len + 2 ^ 64 - iob.io_resid

-- A buffer and the memory that it lies in.
pub record Buffered : Type 0 where
  pub iob : Iobuf
  pub mem : Bytes

unfoldable pub iobuf_skip : ℕ → Buffered → Eff Buffered (Unit {0})
iobuf_skip n b = assert_then (leb n b.iob.io_resid) (
    ok tt (record b {
      iob = record b.iob {
        io_base = (b.iob.io_base + n) % 2 ^ 64;
        io_offset = (b.iob.io_offset + n) % 2 ^ 64;
        io_resid = b.iob.io_resid - n;
      };
    }))

-- The number of bytes of the next move, of `len` that are asked for.
abbrev pub portion : ℕ → Buffered → ℕ
portion len b = if ltb len b.iob.io_resid then len else b.iob.io_resid

-- The value that is returned, and the bytes moved.
abbrev pub moved : ℕ → ℕ → Option Error × ℕ
moved len alen = (if len - alen == 0 then none else some e_no_mem, alen)

unfoldable pub iobuf_move : ℕ → ℕ → Bool → Buffered → Eff Buffered (Option Error × ℕ)
iobuf_move area len m2b b =
    let alen = portion len b in
    if ltb 0 alen
    then (iobuf_skip alen (record b {
      mem =
          if m2b
          then memmove b.iob.io_base area alen b.mem
          else memmove area b.iob.io_base alen b.mem;
    })
        !> λ _ b. ok (moved len alen) b)
    else ok (moved len alen) b

unfoldable pub iobuf_move_zeros : ℕ → Buffered → Eff Buffered (Option Error × ℕ)
iobuf_move_zeros len b =
    let alen = portion len b in
    if ltb 0 alen
    then (iobuf_skip alen (record b { mem = memset b.iob.io_base 0 alen b.mem }) !> λ _ b.
        ok (moved len alen) b)
    else ok (moved len alen) b
