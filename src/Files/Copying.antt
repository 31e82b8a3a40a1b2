-- ===== src/Files/Copying.antt =====
-- The parts of `file_dup`: the search for a free slot, and the copy of a file into it.
use oshub.Prelude.{
  ℕ, zero, suc, ◌+◌, ◌≤◌, ◌<◌, ◌≡◌, refl, sym, ap, ◌∙◌, true, false, Bool-cases, ltb-true, ==-ne,
  ==-refl, update, update-at, ◌⊎◌, inl, inr, eq-cases, arith, some, none, ok,
}
use oshub.Files.State.{File, fd_init, fd_opened, Fs, max_inode_count, inode_ref_inc, inode_open_inc}
use oshub.Files.Table.{
  nentry, no_fd, is_none, set_file, find_slot, take_slot, fd_array_alloc, fd_array_open,
  fd_array_dup, share_node,
}
use oshub.Files.Counts.{share, holders, holders-update}
use oshub.Files.Kept.{Others, Idle, Kept, share-none, share-InUse, share-other, once_written}

-- What the search for a free slot finds.
pub find_slot_lem :
    (k i : ℕ) (t : ℕ → File)
    → ((find_slot k i t ≡ none) × ((j : ℕ) → i ≤ j → j < i + k → is_none (t j).status ≡ false))
      ⊎ ((j : ℕ) × (find_slot k i t ≡ some j)
          × (i ≤ j)
          × (j < i + k)
          × (is_none (t j).status ≡ true)
          × ((l : ℕ) → i ≤ l → l < j → is_none (t l).status ≡ false))
unfolding find_slot
find_slot_lem zero i t = inl (refl, λ j lo hi. absurd (omega arith))
find_slot_lem (suc k) i t = elim (Bool-cases (is_none (t i).status)) [
  | inl e ↦ inr (i, rw e refl, omega arith, omega arith, e, λ l lo hi. absurd (omega arith))
  | inr e ↦ elim (find_slot_lem k (i + 1) t) [
    | inl (out, all) ↦ inl (
      rw e out,
      λ j lo hi. elim (eq-cases j i) [
        | inl q ↦ rw q e
        | inr ne ↦ all j (omega (arith, ne)) (omega arith)
      ],
    )
    | inr (j, found, lo, hi, free, before) ↦ inr (
      j,
      rw e found,
      omega arith,
      omega arith,
      free,
      λ l lo' hi'. elim (eq-cases l i) [
        | inl q ↦ rw q e
        | inr ne ↦ before l (omega (arith, ne)) hi'
      ],
    )
  ]
]

-- A new slot for the inode of an open file.
abbrev pub copy_of : File → File → File
copy_of from to = record to {
  status = fd_opened;
  pos = from.pos;
  readable = from.readable;
  writable = from.writable;
  node = from.node;
  open_count = 1;
}

abbrev pub with_copy : {W : Type 0} → ℕ → File → ℕ → Fs W → Fs W
with_copy j from n s = record s {
  table = update s.table j (copy_of from (s.table j));
  node_refs = update s.node_refs n (s.node_refs n + 1);
  node_opens = update s.node_opens n (s.node_opens n + 1);
}

module _ {W : Type 0} where
  pub alloc_lem :
      (s : Fs W) (j : ℕ)
      → 0 < s.files_count
      → find_slot nentry 0 s.table ≡ some j
      → (s.table j).open_count ≡ 0
      → fd_array_alloc no_fd s
        ≡ ok j (set_file j (record (s.table j) { status = fd_init; node = none; open_count = 0 }) s)
  unfolding fd_array_alloc take_slot
  alloc_lem s j counted found unused = rw (ltb-true counted, found, unused) refl

  open_lem :
      (s : Fs W) (i n : ℕ)
      → (s.table i).status ≡ fd_init
      → (s.table i).node ≡ some n
      → fd_array_open i s
        ≡ ok tt (
            set_file i
              (record (s.table i) { status = fd_opened; open_count = (s.table i).open_count + 1 })
              s)
  unfolding fd_array_open
  open_lem s i n st named = rw (st, named) refl

  dup_lem :
      (s : Fs W) (to : ℕ) (from : File)
      → (s.table to).status ≡ fd_init
      → from.status ≡ fd_opened
      → fd_array_dup to from s
        ≡ fd_array_open to (
            share_node from.node (
              set_file to
                (record (s.table to) {
                  pos = from.pos;
                  readable = from.readable;
                  writable = from.writable;
                  node = from.node;
                })
                s))
  unfolding fd_array_dup
  dup_lem s to from st opened = rw (st, opened) refl

  -- The slot `j` becomes the copy.
  pub copied :
      (s : Fs W) (j n : ℕ) (from : File)
      → from.status ≡ fd_opened
      → from.node ≡ some n
      → fd_array_dup j from
          (set_file j (record (s.table j) { status = fd_init; node = none; open_count = 0 }) s)
        ≡ ok tt (with_copy j from n s)
  unfolding inode_ref_inc inode_open_inc
  copied s j n from opened named =
      let f1 : File = record (s.table j) { status = fd_init; node = none; open_count = 0 } in
      let s1 : Fs W = set_file j f1 s in
      let at1 : s1.table j ≡ f1 = update-at s.table j f1 in
      let f2 : File = record (s1.table j) {
        pos = from.pos;
        readable = from.readable;
        writable = from.writable;
        node = from.node;
      } in
      let s2 : Fs W = share_node (some n) (set_file j f2 s1) in
      let at2 : s2.table j ≡ f2 = update-at s1.table j f2 in
      dup_lem s1 j from (ap (λ f. f.status) at1) opened
      ∙ ap (λ o. fd_array_open j (share_node o (set_file j f2 s1))) named
      ∙ open_lem s2 j n (ap (λ f. f.status) at2 ∙ ap (λ f. f.status) at1)
          (ap (λ f. f.node) at2 ∙ named)
      ∙ (λ i. ok tt (record s2 {
        table =
            once_written s.table j f1 f2
              (record (s2.table j) { status = fd_opened; open_count = (s2.table j).open_count + 1 })
              i;
      }))
      ∙ (λ i.
          let f : File =
            (at2 ∙ λ l. record (at1 l) {
              pos = from.pos;
              readable = from.readable;
              writable = from.writable;
              node = from.node;
            })
              i in
          ok tt (record s2 {
            table =
                update s.table j (record f { status = fd_opened; open_count = f.open_count + 1 });
          }))

  pub with_copy-Kept :
      (others : Others) (s : Fs W) (j n : ℕ) (from : File)
      → Kept others s
      → j < nentry
      → Idle (s.table j)
      → from.status ≡ fd_opened
      → from.node ≡ some n
      → s.node_refs n + 1 < max_inode_count
      → Kept others (with_copy j from n s)
  with_copy-Kept others s j n from k lt idle opened named room = record {
    placed = λ i h. elim (eq-cases i j) [
      | inl e ↦ rw (e, ==-refl j) (k.placed j lt)
      | inr ne ↦ rw (==-ne ne) (k.placed i h)
    ];
    slots = λ i h. elim (eq-cases i j) [
      | inl e ↦ rw (e, ==-refl j) (inr (refl, refl, (n, named)))
      | inr ne ↦ rw (==-ne ne) (k.slots i h)
    ];
    opens = one_more s.node_opens others.opens k.opens;
    refs = one_more s.node_refs others.refs k.refs;
    enough = k.enough;
    small = λ m. elim (eq-cases m n) [
      | inl e ↦ rw (e, ==-refl n) room
      | inr ne ↦ rw (==-ne ne) (k.small m)
    ];
  }
    where
      one_more :
          (count ext : ℕ → ℕ)
          → ((m : ℕ) → count m ≡ ext m + holders nentry m s.table)
          → (m : ℕ)
          → update count n (count n + 1) m ≡ ext m + holders nentry m (with_copy j from n s).table
      one_more count ext h m =
          let copy : File = copy_of from (s.table j) in
          let moved = holders-update nentry m j s.table copy lt in
          let before : share m (s.table j) ≡ 0 = share-none m (s.table j) idle.0 in
          elim (eq-cases m n) [
            | inl e ↦
                let mine : share m copy ≡ 1 = rw e (share-InUse n copy refl named) in
                rw (e, ==-refl n) (omega (arith, rw e at moved, rw e at before, rw e at mine, h n))
            | inr ne ↦
                let mine : share m copy ≡ 0 = share-other m n copy (λ q. ne (sym q)) named in
                rw (==-ne ne) (omega (arith, moved, before, mine, h m))
          ]
