-- ===== src/Paging/Insert.antt =====
-- `page_insert` as a whole, where the tables of the address are there.
use oshub.Prelude.{ℕ, Bool, if◌then◌else◌}
use oshub.Pmm.{Pages}
use oshub.Paging.{Paging, set_entry}

-- The state before the entry is written: other references, and the entry cleared or not.
abbrev ready : Paging → Pages → Bool → ℕ → ℕ → Paging
ready s p b t i = let u : Paging = record s { pages = p } in if b then set_entry t i 0 u else u
