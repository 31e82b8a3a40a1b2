-- ===== src/Files/Kept.antt =====
-- Tables of open files at rest: the counts of the inodes are those of the open slots, beside the
-- `others` that come from elsewhere.
use oshub.Prelude.{
  ℕ, ◌+◌, ◌-◌, ◌≤◌, ◌<◌, ◌≡◌, ◌≢◌, refl, sym, ap, ◌∙◌, Bool, true, false, Bool-cases, ◌==◌, ==-ne,
  ==-refl, ◌&&◌, if◌then◌else◌, update, update-at, ◌⊎◌, inl, inr, eq-cases, arith, some, ok,
}
use oshub.Files.State.{File, fd_none, fd_opened, fd_closed, Fs, Ops, max_inode_count}
use oshub.Files.Vfs.{vfs_close}
use oshub.Files.Table.{nentry, is_opened, set_file, fd_array_close, fd_array_free, drop_count}
use oshub.Files.Counts.{
  Answers, names, share, holders, holders-update, share-le-holders, vfs_close_lem,
}

abbrev pub Idle : File → Type 0
Idle f = (f.status ≡ fd_none) × (f.open_count ≡ 0)

abbrev pub InUse : File → Type 0
InUse f = (f.status ≡ fd_opened) × (f.open_count ≡ 1) × ((n : ℕ) × (f.node ≡ some n))

-- The counts of every inode that come from elsewhere: other tables, directories, and names.
pub record Others : Type 0 where
  pub opens : ℕ → ℕ
  pub refs : ℕ → ℕ

pub record Kept {W : Type 0} (others : Others) (s : Fs W) : Type 0 where
  pub placed : (i : ℕ) → i < nentry → (s.table i).fd ≡ i
  pub slots : (i : ℕ) → i < nentry → Idle (s.table i) ⊎ InUse (s.table i)
  pub opens : (n : ℕ) → s.node_opens n ≡ others.opens n + holders nentry n s.table
  pub refs : (n : ℕ) → s.node_refs n ≡ others.refs n + holders nentry n s.table
  pub enough : (n : ℕ) → others.opens n ≤ others.refs n
  pub small : (n : ℕ) → s.node_refs n < max_inode_count

pub referenced :
    {W : Type 0} (others : Others) (s : Fs W)
    → Kept others s
    → (n : ℕ) → s.node_opens n ≤ s.node_refs n
referenced others s k n = omega (arith, k.opens n, k.refs n, k.enough n)

pub share-InUse : (n : ℕ) (f : File) → f.status ≡ fd_opened → f.node ≡ some n → share n f ≡ 1
share-InUse n f e e' = rw (e, e', ==-refl n) refl

pub share-none : (n : ℕ) (f : File) → f.status ≡ fd_none → share n f ≡ 0
share-none n f e = rw e refl

pub share-other : (n m : ℕ) (f : File) → m ≢ n → f.node ≡ some m → share n f ≡ 0
share-other n m f ne e = unopened (is_opened f.status)
  where
    unopened : (b : Bool) → ◌≡◌ {A = ℕ} (if b && names n f.node then 1 else 0) 0
    unopened true = rw (e, ==-ne ne) refl
    unopened false = refl

-- The state with the slot `i` closed, and the file systems at `w`.
abbrev pub without : {W : Type 0} → ℕ → ℕ → W → Fs W → Fs W
without i n w s = record s {
  table = update s.table i (record (s.table i) { status = fd_none; open_count = 0 });
  node_opens = update s.node_opens n (s.node_opens n - 1);
  node_refs = update s.node_refs n (s.node_refs n - 1);
  sys = w;
}

-- The counts after `vfs_close`.
abbrev closed : {W : Type 0} → ℕ → W → Fs W → Fs W
closed n w s = record s {
  node_opens = update s.node_opens n (s.node_opens n - 1);
  node_refs = update s.node_refs n (s.node_refs n - 1);
  sys = w;
}

-- Three writes to a slot are one.
pub once_written :
    (t : ℕ → File) (i : ℕ) (f g h : File) → update (update (update t i f) i g) i h ≡ update t i h
once_written t i f g h = λ j x. at x j
  where
    at : (x : ℕ) → update (update (update t i f) i g) i h x ≡ update t i h x
    at x = elim (Bool-cases (x == i)) [ inl e ↦ rw e refl | inr e ↦ rw e refl ]

module _ {W : Type 0} (ops : Ops W) where
  free-closed :
      (s : Fs W) (i n : ℕ) (w : W)
      → (s.table i).status ≡ fd_closed
      → (s.table i).open_count ≡ 0
      → (s.table i).node ≡ some n
      → vfs_close ops n s ≡ ok tt (closed n w s)
      → fd_array_free ops i s
        ≡ ok tt (set_file i (record (s.table i) { status = fd_none }) (closed n w s))
  unfolding fd_array_free
  free-closed s i n w st zero_count named e =
      rw (st, zero_count, named, e)
        (λ j. ok tt (record (closed n w s) {
          table =
              update s.table i (record (s.table i) {
                status = fd_none;
                node = named j;
                open_count = zero_count j;
              });
        }))

  drop-last :
      (s : Fs W) (i : ℕ)
      → (s.table i).open_count ≡ 1
      → drop_count ops i s
        ≡ fd_array_free ops i (set_file i (record (s.table i) { open_count = 0 }) s)
  unfolding drop_count
  drop-last s i once = rw once refl

  close-opened :
      (s : Fs W) (i : ℕ)
      → (s.table i).status ≡ fd_opened
      → (s.table i).open_count ≡ 1
      → fd_array_close ops i s
        ≡ drop_count ops i (set_file i (record (s.table i) { status = fd_closed }) s)
  unfolding fd_array_close
  close-opened s i st once = rw (st, once) refl

module _ {W : Type 0} (ops : Ops W) (a : Answers ops) (others : Others) where
  -- Closing a slot that is in use.
  pub fd_array_close_lem :
      (s : Fs W) (i n : ℕ)
      → Kept others s
      → i < nentry
      → (s.table i).status ≡ fd_opened
      → (s.table i).open_count ≡ 1
      → (s.table i).node ≡ some n
      → (w : W) × (fd_array_close ops i s ≡ ok tt (without i n w s))
  fd_array_close_lem s i n k lt opened once named =
      let mine : 1 ≤ holders nentry n s.table =
        omega
          (arith, share-le-holders nentry n i s.table lt, share-InUse n (s.table i) opened named) in
      let pos : 0 < s.node_opens n = omega (arith, mine, k.opens n) in
      let f1 : File = record (s.table i) { status = fd_closed } in
      let s1 : Fs W = set_file i f1 s in
      let at1 : s1.table i ≡ f1 = update-at s.table i f1 in
      let f2 : File = record (s1.table i) { open_count = 0 } in
      let s2 : Fs W = set_file i f2 s1 in
      let at2 : s2.table i ≡ f2 = update-at s1.table i f2 in
      let (w, e) = vfs_close_lem ops a n s2 pos (referenced others s k n) (k.small n) in
      (
        w,
        close-opened ops s i opened once
            ∙ drop-last ops s1 i (ap (λ f. f.open_count) at1 ∙ once)
            ∙ free-closed ops s2 i n w (ap (λ f. f.status) at2 ∙ ap (λ f. f.status) at1)
                (ap (λ f. f.open_count) at2) (ap (λ f. f.node) at2 ∙ ap (λ f. f.node) at1 ∙ named) e
            ∙ (λ j. ok tt (record (closed n w s) {
              table = once_written s.table i f1 f2 (record (s2.table i) { status = fd_none }) j;
            }))
            ∙ (λ j. ok tt (record (closed n w s) {
              table =
                  update s.table i (record ((at2 ∙ (λ l. record (at1 l) { open_count = 0 })) j) {
                    status = fd_none;
                  });
            })),
      )

  pub without-Kept :
      (s : Fs W) (i n : ℕ) (w : W)
      → Kept others s
      → i < nentry
      → (s.table i).status ≡ fd_opened
      → (s.table i).node ≡ some n
      → Kept others (without i n w s)
  without-Kept s i n w k lt opened named = record {
    placed = λ j h. elim (eq-cases j i) [
      | inl e ↦ rw (e, ==-refl i) (k.placed i lt)
      | inr ne ↦ rw (==-ne ne) (k.placed j h)
    ];
    slots = λ j h. elim (eq-cases j i) [
      | inl e ↦ rw (e, ==-refl i) (inl (refl, refl))
      | inr ne ↦ rw (==-ne ne) (k.slots j h)
    ];
    opens = one_less s.node_opens others.opens k.opens;
    refs = one_less s.node_refs others.refs k.refs;
    enough = k.enough;
    small = λ m. elim (eq-cases m n) [
      | inl e ↦ rw (e, ==-refl n) (omega (arith, k.small n))
      | inr ne ↦ rw (==-ne ne) (k.small m)
    ];
  }
    where
      one_less :
          (count ext : ℕ → ℕ)
          → ((m : ℕ) → count m ≡ ext m + holders nentry m s.table)
          → (m : ℕ)
          → update count n (count n - 1) m ≡ ext m + holders nentry m (without i n w s).table
      one_less count ext h m =
          let closed_file : File = record (s.table i) { status = fd_none; open_count = 0 } in
          let moved = holders-update nentry m i s.table closed_file lt in
          elim (eq-cases m n) [
            | inl e ↦
                let mine : share m (s.table i) ≡ 1 =
                  rw e (share-InUse n (s.table i) opened named) in
                rw (e, ==-refl n) (omega (arith, rw e at moved, rw e at mine, h n))
            | inr ne ↦
                let mine : share m (s.table i) ≡ 0 =
                  share-other m n (s.table i) (λ q. ne (sym q)) named in
                rw (==-ne ne) (omega (arith, moved, mine, h m))
          ]
