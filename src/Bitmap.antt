-- ===== src/Bitmap.antt =====
-- lab8/kern/fs/sfs/bitmap.c: the bitmaps of free disk blocks, where a bit is 1 if its block is
-- free, so that allocation clears it, other than the comments there say. A word of the map is its 32 bits.
pub mod Bits
pub mod Create
pub mod Alloc
mod Tests
use oshub.Prelude.{
  ℕ, zero, suc, ◌+◌, ◌-◌, ◌*◌, ◌/◌, ◌%◌, ◌^◌, Bool, true, false, not, ◌==◌, ltb, if◌then◌else◌,
  ◌&&◌, ◌||◌, update, Run, done, panic, assert, ◌>>=◌, ◌>>◌, Option, none, some,
}

abbrev pub word_bits : ℕ
word_bits = 32

-- `struct bitmap`
pub record Bitmap : Type 0 where
  pub nbits : ℕ
  pub nwords : ℕ
  pub map : ℕ → ℕ → Bool

-- `word ^= (1 << offset)`
abbrev pub flip : ℕ → (ℕ → Bool) → (ℕ → Bool)
flip offset word = update word offset (not (word offset))

-- The loop of `bitmap_create` over the bits of the last word that stand for no block.
unfoldable pub mark_rest : ℕ → ℕ → (ℕ → Bool) → (ℕ → Bool)
mark_rest zero overbits word = word
mark_rest (suc k) overbits word = mark_rest k (overbits + 1) (flip overbits word)

abbrev pub full : ℕ → ℕ → Bitmap
full nbits nwords = record { nbits = nbits; nwords = nwords; map = λ _ _. true }

-- The leftover bits at the end are in use.
unfoldable pub trim : Bitmap → Run Bitmap
trim b =
    let ix = b.nwords - 1 in
    let overbits = b.nbits - ix * word_bits in
    if b.nbits == b.nwords * word_bits
    then done b
    else (assert (b.nbits / word_bits == ix)
        >> (assert (ltb 0 overbits && ltb overbits word_bits)
            >> done (record b {
              map = update b.map ix (mark_rest (word_bits - overbits) overbits (b.map ix));
            })))

-- `bitmap_create`, where the two calls of `kmalloc` give memory or NULL.
unfoldable pub create : Bool → Bool → ℕ → Run (Option Bitmap)
unfolding trim
create for_bitmap for_map nbits = do
  assert (not (nbits == 0) && ltb nbits (nbits + word_bits))
  let nwords = (nbits + word_bits - 1) / word_bits
  if for_bitmap && for_map then trim (full nbits nwords) >>= (λ b. done (some b)) else done none

-- `map[ix] != 0`, and the loop over the mask: the first bit from `offset` that is 1.
unfoldable pub is_nonzero : ℕ → ℕ → (ℕ → Bool) → Bool
is_nonzero zero offset word = false
is_nonzero (suc k) offset word = word offset || is_nonzero k (offset + 1) word

unfoldable pub scan : ℕ → ℕ → (ℕ → Bool) → Option ℕ
scan zero offset word = none
scan (suc k) offset word =
    let rest = scan k (offset + 1) word in if word offset then some offset else rest

-- The bit that was found is cleared; `assert(0)` if there was none.
abbrev pub claim : ℕ → Option ℕ → Bitmap → Run (Option ℕ × Bitmap)
claim ix none b = panic
claim ix (some offset) b = done (
  some ((ix * word_bits + offset) % 2 ^ 32),
  record b { map = update b.map ix (flip offset (b.map ix)) },
)

-- The loop of `bitmap_alloc` over `k` words from `ix`.
unfoldable pub alloc_loop : ℕ → ℕ → Bitmap → Run (Option ℕ × Bitmap)
alloc_loop zero ix b = done (none, b)
alloc_loop (suc k) ix b =
    let rest = alloc_loop k (ix + 1) b in
    if is_nonzero word_bits 0 (b.map ix) then claim ix (scan word_bits 0 (b.map ix)) b else rest

-- `bitmap_alloc`: the index, or `none` for -E_NO_MEM.
unfoldable pub alloc : Bitmap → Run (Option ℕ × Bitmap)
unfolding alloc_loop
alloc b = alloc_loop b.nwords 0 b

-- The bit that `bitmap_translate` names.
abbrev pub bit : Bitmap → ℕ → Bool
bit b index = b.map (index / word_bits) (index % word_bits)

unfoldable pub test : ℕ → Bitmap → Run Bool
test index b = do assert (ltb index b.nbits); done (bit b index)

unfoldable pub free : ℕ → Bitmap → Run Bitmap
free index b = do
  assert (ltb index b.nbits)
  assert (not (bit b index))
  done (record b {
    map =
        update b.map (index / word_bits)
          (update (b.map (index / word_bits)) (index % word_bits) true);
  })
