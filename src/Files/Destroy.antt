-- ===== src/Files/Destroy.antt =====
-- `files_destroy`: the end of a table of open files.
use oshub.Prelude.{ℕ, zero, suc, ◌-◌, ◌<◌, ◌≡◌, refl, update, arith, Option, none, some}
use oshub.Files.State.{File}
use oshub.Files.Counts.{holders, share}
use oshub.Files.Kept.{Others, Idle, Kept}

pub none_open : (m n : ℕ) (t : ℕ → File) → ((i : ℕ) → i < m → Idle (t i)) → holders m n t ≡ 0
unfolding holders
none_open zero n t h = refl
none_open (suc m) n t h =
    let empty : share n (t m) ≡ 0 = rw (h m (omega arith)).0 refl in
    omega (arith, empty, none_open m n t (λ i lt. h i (omega arith)))

-- The counts from elsewhere without the reference of the working directory.
abbrev pub without_pwd : Option ℕ → Others → Others
without_pwd none o = o
without_pwd (some d) o = record o { refs = update o.refs d (o.refs d - 1) }
