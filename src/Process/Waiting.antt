-- ===== src/Process/Waiting.antt =====
-- One round of `do_wait`: which child it takes, and when it sleeps.
use oshub.Prelude.{ℕ, not, ◌==◌, ◌&&◌, if◌then◌else◌, List, [], ◌∷◌}
use oshub.Sched.{null, is_zombie}
use oshub.Process.{Procs}
use oshub.Process.Table.{Table, first_with}
use oshub.Process.Children.{Children}
use oshub.Process.Calls.{Waiting, found, asleep, bad_proc, fall_asleep}

-- The first zombie of a list, or NULL.
abbrev pub first_zombie : Procs → List ℕ → ℕ
first_zombie s [] = null
first_zombie s (k ∷ ks) =
    let rest = first_zombie s ks in if is_zombie (s.sched.procs k).state then k else rest

-- The children that `do_wait` is asked for: all, or the one with that number.
abbrev pub asked : Procs → ℕ → List ℕ → List ℕ → List ℕ
asked s pid xs ks =
    let p = first_with s.pid pid xs in
    if pid == 0
    then ks
    else if not (p == null) && (s.parent p == s.sched.current)
    then p ∷ []
    else []

-- Without a child there is nothing to wait for; else the first zombie is found, or there is none
-- and the process falls asleep.
abbrev pub outcome : Procs → List ℕ → Waiting
outcome s [] = bad_proc
outcome s (k ∷ ks) =
    let z = first_zombie s (k ∷ ks) in if z == null then asleep (fall_asleep s) else found z
