-- ===== src/Memory.antt =====
-- lab8/libs/string.c: functions on bytes in memory, which is a function from addresses. The
-- __HAVE_ARCH variants are not defined for this machine.
pub mod Copy
pub mod Compare
pub mod Equal
mod Tests
use oshub.Prelude.{
  ℕ, zero, suc, ◌+◌, ◌-◌, Bool, true, false, ◌==◌, ltb, ◌&&◌, if◌then◌else◌, update,
}

abbrev pub Bytes : Type 0
Bytes = ℕ → ℕ

-- `while (n -- > 0) *d ++ = *s ++`
unfoldable pub copy_up : ℕ → ℕ → ℕ → Bytes → Bytes
copy_up zero d s m = m
copy_up (suc n) d s m = copy_up n (d + 1) (s + 1) (update m d (m s))

-- `while (n -- > 0) *-- d = *-- s`
unfoldable pub copy_down : ℕ → ℕ → ℕ → Bytes → Bytes
copy_down zero d s m = m
copy_down (suc n) d s m = copy_down n (d - 1) (s - 1) (update m (d - 1) (m (s - 1)))

unfoldable pub memmove : ℕ → ℕ → ℕ → Bytes → Bytes
memmove dst src n m =
    if ltb src dst && ltb dst (src + n)
    then copy_down n (dst + n) (src + n) m
    else copy_up n dst src m

unfoldable pub memcpy : ℕ → ℕ → ℕ → Bytes → Bytes
memcpy dst src n m = copy_up n dst src m

-- `while (n -- > 0) *p ++ = c`
unfoldable pub memset : ℕ → ℕ → ℕ → Bytes → Bytes
memset s c zero m = m
memset s c (suc n) m = memset (s + 1) c n (update m s c)

-- The fuel bounds the length.
unfoldable pub strlen : ℕ → ℕ → Bytes → ℕ
strlen zero s m = 0
strlen (suc f) s m = let rest = strlen f (s + 1) m in if m s == 0 then 0 else rest + 1

unfoldable pub strnlen : ℕ → ℕ → Bytes → ℕ
strnlen s zero m = 0
strnlen s (suc len) m = let rest = strnlen (s + 1) len m in if m s == 0 then 0 else rest + 1

-- `while (len > 0)`: past the end of the source the pointer stays on the terminator.
unfoldable pub strncpy : ℕ → ℕ → ℕ → Bytes → Bytes
strncpy p src zero m = m
strncpy p src (suc len) m =
    strncpy (p + 1) (if m src == 0 then src else src + 1) len (update m p (m src))
