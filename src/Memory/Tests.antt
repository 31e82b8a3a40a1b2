-- ===== src/Memory/Tests.antt =====
-- Copies between overlapping areas, the length of a string and a comparison, and the theorems about them there.
use oshub.Prelude.{ℕ, ◌+◌, ◌<◌, ◌≤◌, ◌↔◌, ◌≡◌, ◌==◌, if◌then◌else◌, arith}
use oshub.Memory.{Bytes, memmove, strlen}
use oshub.Memory.Compare.{strcmp}
use oshub.Memory.Equal.{strcmp_lem}
use oshub.Memory.Copy.{Copied, memmove-Copied}

-- The byte at each address is the address, up to a 0 at 14.
abbrev counting : Bytes
counting = λ a. if a == 14 then 0 else a + 1

memmove-Copied_example : Copied 5 12 10 counting (memmove 12 10 5 counting)
memmove-Copied_example = memmove-Copied 12 10 5 counting

-- Two strings "AAAA" at 10 and at 30.
abbrev letters : Bytes
letters = λ a. if a == 14 then 0 else if a == 34 then 0 else 65

letters-byte : (x : ℕ) → letters x < 256
letters-byte x = ground arith

letters-strlen : strlen 9 10 letters < 9
unfolding strlen
letters-strlen = omega arith

strcmp_lem_example :
    (strcmp 9 10 30 letters ≡ 0)
    ↔ ((i : ℕ) → i ≤ strlen 9 10 letters → letters (10 + i) ≡ letters (30 + i))
strcmp_lem_example = strcmp_lem 9 10 30 letters letters-byte letters-strlen
