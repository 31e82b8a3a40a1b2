-- ===== src/Memory/Compare.antt =====
-- lab8/libs/string.c: comparing, searching and joining strings in memory. The fuel of a function
-- bounds the length of its string.
use oshub.Prelude.{
  ℕ, zero, suc, ◌+◌, ◌-◌, ◌%◌, ◌^◌, not, ◌==◌, ◌&&◌, if◌then◌else◌, update, Option, some, none,
}
use oshub.Memory.{Bytes, strlen}

-- `(int)((unsigned char)a - (unsigned char)b)`, a 32-bit word.
abbrev pub difference : ℕ → ℕ → ℕ
difference a b = (2 ^ 32 + a - b) % 2 ^ 32

unfoldable pub strcmp : ℕ → ℕ → ℕ → Bytes → ℕ
strcmp zero s1 s2 m = difference (m s1) (m s2)
strcmp (suc f) s1 s2 m =
    let rest = strcmp f (s1 + 1) (s2 + 1) m in
    if not (m s1 == 0) && (m s1 == m s2) then rest else difference (m s1) (m s2)

unfoldable pub strncmp : ℕ → ℕ → ℕ → Bytes → ℕ
strncmp zero s1 s2 m = 0
strncmp (suc n) s1 s2 m =
    let rest = strncmp n (s1 + 1) (s2 + 1) m in
    if not (m s1 == 0) && (m s1 == m s2) then rest else difference (m s1) (m s2)

unfoldable pub memcmp : ℕ → ℕ → ℕ → Bytes → ℕ
memcmp zero s1 s2 m = 0
memcmp (suc n) s1 s2 m =
    let rest = memcmp n (s1 + 1) (s2 + 1) m in
    if not (m s1 == m s2) then difference (m s1) (m s2) else rest

unfoldable pub strchr : ℕ → ℕ → ℕ → Bytes → Option ℕ
strchr zero s c m = none
strchr (suc f) s c m =
    let rest = strchr f (s + 1) c m in if m s == 0 then none else if m s == c then some s else rest

unfoldable pub strfind : ℕ → ℕ → ℕ → Bytes → ℕ
strfind zero s c m = s
strfind (suc f) s c m =
    let rest = strfind f (s + 1) c m in if m s == 0 then s else if m s == c then s else rest

-- `while ((*p ++ = *src ++) != '\0')`
unfoldable pub strcpy : ℕ → ℕ → ℕ → Bytes → Bytes
strcpy zero p src m = m
strcpy (suc f) p src m =
    let rest = strcpy f (p + 1) (src + 1) (update m p (m src)) in
    if m src == 0 then update m p (m src) else rest

unfoldable pub strcat : ℕ → ℕ → ℕ → Bytes → Bytes
strcat f dst src m = strcpy f (dst + strlen f dst m) src m
