-- ===== src/Files/Move.antt =====
-- `iobuf_move`: how many bytes are moved, and where they come from.
use oshub.Prelude.{
  ℕ, ◌+◌, ◌-◌, ◌%◌, ◌^◌, ◌≤◌, ◌<◌, ◌≡◌, ◌≢◌, refl, Bool, true, false, ltb-true, ltb-false, leb,
  leb-true, ◌==◌, ==-ne, if◌then◌else◌, inl, inr, lt-cases, ◌⊎◌, arith, Option, some, none, Error,
  e_no_mem, ok,
}
use oshub.Memory.{Bytes, memmove}
use oshub.Memory.Copy.{Copied, memmove-Copied}
use oshub.Files.Iobuf.{Buffered, iobuf_move, iobuf_skip, iobuf_used, portion, moved}

portion-cases :
    (len : ℕ) (b : Buffered)
    → (portion len b ≤ b.iob.io_resid)
      × ((((moved len (portion len b)).0 ≡ none) × (portion len b ≡ len))
          ⊎ (((moved len (portion len b)).0 ≡ some e_no_mem)
              × (portion len b ≡ b.iob.io_resid)
              × (portion len b < len)))
portion-cases len b = elim (lt-cases b.iob.io_resid len) [
  | inl few ↦
      let left : len - b.iob.io_resid ≢ 0 = λ e. omega (arith, e) in
      rw (ltb-false {a = len} {b = b.iob.io_resid} (omega arith), ==-ne left)
        (omega arith, inr (refl, refl, few))
  | inr enough ↦ elim (lt-cases len b.iob.io_resid) [
    | inl more ↦ rw (ltb-true more, all len) (omega arith, inl (refl, refl))
    | inr exact ↦
        let same : b.iob.io_resid ≡ len = omega arith in
        rw (ltb-false exact, same, all len) (omega arith, inl (refl, refl))
  ]
]
  where
    all : (n : ℕ) → (n - n == 0) ≡ true
    all n = let e : n - n ≡ 0 = omega arith in rw e refl

moved_bytes :
    (area base n : ℕ) (m2b : Bool) (m : Bytes)
    → Copied n
        (if m2b then base else area)
        (if m2b then area else base)
        m
        (if m2b then memmove base area n m else memmove area base n m)
moved_bytes area base n true m = memmove-Copied base area n m
moved_bytes area base n false m = memmove-Copied area base n m

nothing_moved : (n d s : ℕ) (m : Bytes) → n ≤ 0 → Copied n d s m m
nothing_moved n d s m h = record {
  inside = λ x lo hi. absurd (omega arith);
  below = λ x lt. refl;
  above = λ x ge. refl;
}

-- `iobuf_move` never panics. It moves the smaller of `len` and the bytes that are left, reports
-- E_NO_MEM exactly if that is less than `len`, takes them off what is left, and copies them from the
-- place that `m2b` selects to the other one.
pub iobuf_move_lem :
    (area len : ℕ) (m2b : Bool) (b : Buffered)
    → b.iob.io_resid ≤ b.iob.io_len
    → (e : Option Error) × (n : ℕ) × (b' : Buffered) × (iobuf_move area len m2b b ≡ ok (e, n) b')
      × (((e ≡ none) × (n ≡ len)) ⊎ ((e ≡ some e_no_mem) × (n ≡ b.iob.io_resid) × (n < len)))
      × (b'.iob.io_resid + n ≡ b.iob.io_resid)
      × (b'.iob.io_resid ≤ b'.iob.io_len)
      × (iobuf_used b'.iob ≡ iobuf_used b.iob + n)
      × Copied n
          (if m2b then b.iob.io_base else area)
          (if m2b then area else b.iob.io_base)
          b.mem
          b'.mem
unfolding iobuf_move iobuf_skip iobuf_used
iobuf_move_lem area len m2b b room =
    let n = portion len b in
    let (le, which) = portion-cases len b in
    elim (lt-cases 0 n) [
      | inl pos ↦ (
        (moved len n).0,
        n,
        record {
          iob = record b.iob {
            io_base = (b.iob.io_base + n) % 2 ^ 64;
            io_offset = (b.iob.io_offset + n) % 2 ^ 64;
            io_resid = b.iob.io_resid - n;
          };
          mem =
              if m2b
              then memmove b.iob.io_base area n b.mem
              else memmove area b.iob.io_base n b.mem;
        },
        rw (ltb-true pos, leb-true le) refl,
        which,
        omega (arith, le),
        omega (arith, le),
        (let after : leb (b.iob.io_resid - n) b.iob.io_len ≡ true =
              leb-true (omega (arith, room)) in
            rw (leb-true room, after) (omega (arith, le, room))),
        moved_bytes area b.iob.io_base n m2b b.mem,
      )
      | inr no_bytes ↦ (
        (moved len n).0,
        n,
        b,
        rw (ltb-false no_bytes) refl,
        which,
        omega (arith, no_bytes),
        room,
        omega (arith, no_bytes),
        nothing_moved n _ _ b.mem no_bytes,
      )
    ]
