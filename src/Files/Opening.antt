-- ===== src/Files/Opening.antt =====
-- The counts of an inode that `vfs_open` opens.
use oshub.Prelude.{ℕ, ◌+◌, ◌-◌, ◌≡◌, ◌≢◌, ◌⊎◌, Error, Eff, ok, fail, stop, ◌!>◌}
use oshub.Files.State.{Fs, Ops, inode_ref_dec}
use oshub.Files.Counts.{Answers}

-- The calls of a file system that begin the use of an inode return.
pub record Begins {W : Type 0} (ops : Ops W) : Type 0 where
  pub opens : (n flags : ℕ) (s : Fs W) → ops.vop_open n flags s ≢ stop
  pub truncates : (n len : ℕ) (s : Fs W) → ops.vop_truncate n len s ≢ stop

module _ {W : Type 0} (ops : Ops W) (a : Answers ops) where
  -- The counts of the inode `n` after an attempt to open it, and those of every other inode.
  pub record Counted (n refs opens : ℕ) (s s' : Fs W) : Type 0 where
    pub refs_here : s'.node_refs n ≡ refs
    pub opens_here : s'.node_opens n ≡ opens
    pub refs_else : (m : ℕ) → m ≢ n → s'.node_refs m ≡ s.node_refs m
    pub opens_else : (m : ℕ) → m ≢ n → s'.node_opens m ≡ s.node_opens m
    pub table : s'.table ≡ s.table

  abbrev dropped : ℕ → Error → Fs W → Eff (Fs W) ℕ
  dropped n e s = inode_ref_dec ops n s !> λ _ s. fail e s

  abbrev pub Outcome : ℕ → Fs W → Eff (Fs W) ℕ → Type 0
  Outcome n s r =
      ((s' : Fs W) × (r ≡ ok n s') × Counted n (s.node_refs n) (s.node_opens n + 1) s s')
      ⊎ ((e : Error) × (s' : Fs W) × (r ≡ fail e s')
          × Counted n (s.node_refs n - 1) (s.node_opens n) s s')
