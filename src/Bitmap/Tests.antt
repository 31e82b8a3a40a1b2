-- ===== src/Bitmap/Tests.antt =====
-- Bitmaps of a few blocks, and the theorems about bitmap.c there.
use oshub.Prelude.{
  ℕ, ◌<◌, ◌≡◌, ◌⊎◌, refl, true, false, ltb, ◌==◌, ◌&&◌, if◌then◌else◌, done, none, some, arith,
}
use oshub.Bitmap.{Bitmap, bit, create, alloc, free}
use oshub.Bitmap.Bits.{Valid}
use oshub.Bitmap.Create.{Fresh, create-Fresh}
use oshub.Bitmap.Alloc.{Turned, alloc-Turned, free-alloc}

create-Fresh_example : (b : Bitmap) × (create true true 40 ≡ done (some b)) × Fresh 40 b
create-Fresh_example = create-Fresh 40 true true (omega arith) (omega arith)

-- 40 blocks, of which 35 and those from 37 on are free.
abbrev forty : Bitmap
forty = record {
  nbits = 40;
  nwords = 2;
  map = λ ix o. if ix == 1 then (if o == 3 then true else ltb 4 o && ltb o 8) else false;
}

forty-Valid : Valid forty
forty-Valid = record { words = refl; small = omega arith; rest = λ i lo hi. ground arith }

alloc-Turned_example :
    ((alloc forty ≡ done (none, forty)) × ((j : ℕ) → j < 40 → bit forty j ≡ false))
    ⊎ ((i : ℕ) × (b' : Bitmap) × (alloc forty ≡ done (some i, b'))
        × Turned forty b' i false
        × ((j : ℕ) → j < i → bit forty j ≡ false))
alloc-Turned_example = alloc-Turned forty forty-Valid

free-alloc_example :
    (alloc forty ≡ done (none, forty))
    ⊎ ((i : ℕ) × (b1 : Bitmap) × (b2 : Bitmap) × (alloc forty ≡ done (some i, b1))
        × (free i b1 ≡ done b2)
        × ((j : ℕ) → bit b2 j ≡ bit forty j))
free-alloc_example = free-alloc forty forty-Valid
