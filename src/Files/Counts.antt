-- ===== src/Files/Counts.antt =====
-- How many slots of a table have an inode open, and the counts of an inode that is closed.
use oshub.Prelude.{
  ℕ, zero, suc, ◌+◌, ◌-◌, ◌≤◌, ◌<◌, ◌≡◌, ◌≢◌, refl, Bool, false, ltb-true, leb-true, ◌==◌, ==-ne,
  ==-refl, ◌&&◌, if◌then◌else◌, update, update-at, update-other, inl, inr, eq-cases, arith, Option,
  some, none, Eff, ok, fail, stop,
}
use oshub.Files.State.{
  File, Fs, Ops, lift, warned, inode_check, inode_open_dec, inode_ref_dec, max_inode_count,
}
use oshub.Files.Vfs.{vfs_close}
use oshub.Files.Table.{is_opened}

abbrev pub names : ℕ → Option ℕ → Bool
names n none = false
names n (some m) = m == n

-- 1 if the slot has the inode `n` open.
abbrev pub share : ℕ → File → ℕ
share n f = if is_opened f.status && names n f.node then 1 else 0

-- The number of the first `k` slots that have it open.
unfoldable pub holders : ℕ → ℕ → (ℕ → File) → ℕ
holders zero n t = 0
holders (suc k) n t = share n (t k) + holders k n t

pub holders-beyond :
    (k n i : ℕ) (t : ℕ → File) (f : File) → k ≤ i → holders k n (update t i f) ≡ holders k n t
unfolding holders
holders-beyond zero n i t f h = refl
holders-beyond (suc k) n i t f h =
    rw (update-other t i f k (λ e. omega (arith, e)), holders-beyond k n i t f (omega arith)) refl

pub holders-update :
    (k n i : ℕ) (t : ℕ → File) (f : File)
    → i < k
    → holders k n (update t i f) + share n (t i) ≡ holders k n t + share n f
unfolding holders
holders-update zero n i t f h = absurd (omega arith)
holders-update (suc k) n i t f h = elim (eq-cases k i) [
  | inl e ↦
      let beyond = holders-beyond k n i t f (omega (arith, e)) in
      rw (e, update-at t i f, rw e at beyond) (omega arith)
  | inr ne ↦
      let before = holders-update k n i t f (omega (arith, ne)) in
      rw (update-other t i f k ne) (omega (arith, before))
]

pub share-le-holders : (k n i : ℕ) (t : ℕ → File) → i < k → share n (t i) ≤ holders k n t
unfolding holders
share-le-holders zero n i t h = absurd (omega arith)
share-le-holders (suc k) n i t h = elim (eq-cases k i) [
  | inl e ↦ rw e (omega arith)
  | inr ne ↦ omega (arith, share-le-holders k n i t (omega (arith, ne)))
]

-- The calls of a file system that end the use of an inode return.
pub record Answers {W : Type 0} (ops : Ops W) : Type 0 where
  pub closes : (n : ℕ) (s : Fs W) → ops.vop_close n s ≢ stop
  pub reclaims : (n : ℕ) (s : Fs W) → ops.vop_reclaim n s ≢ stop

module _ {W : Type 0} (ops : Ops W) (a : Answers ops) where
  warned-lift :
      (s : Fs W) (m : Eff W (Unit {0}))
      → m ≢ stop
      → (w : W) × (warned (lift m s) ≡ ok tt (record s { sys = w }))
  warned-lift s (ok _ w) h = (w, refl)
  warned-lift s (fail e w) h = (w, refl)
  warned-lift s stop h = absurd (h refl)

  pub inode_open_dec_lem :
      (n : ℕ) (s : Fs W)
      → 0 < s.node_opens n
      → s.node_opens n ≤ s.node_refs n
      → s.node_refs n < max_inode_count
      → (w : W) × (inode_open_dec ops n s
          ≡ ok tt (record s { node_opens = update s.node_opens n (s.node_opens n - 1); sys = w }))
  unfolding inode_open_dec inode_check
  inode_open_dec_lem n s pos le small =
      let s' = record s { node_opens = update s.node_opens n (s.node_opens n - 1) } in
      elim (eq-cases (s.node_opens n) 1) [
        | inr more ↦ (s.sys, rw (ltb-true pos, ==-ne more) refl)
        | inl last ↦
            let (w, e) = warned-lift s' (ops.vop_close n s') (a.closes n s') in
            (
              w,
              rw
                  (
                    ltb-true pos,
                    last,
                    ==-refl n,
                    leb-true {a = 0} {b = s.node_refs n} (omega arith),
                    ltb-true small,
                  )
                  (rw last at e),
            )
      ]

  pub inode_ref_dec_lem :
      (n : ℕ) (s : Fs W)
      → s.node_opens n < s.node_refs n
      → s.node_refs n < max_inode_count
      → (w : W) × (inode_ref_dec ops n s
          ≡ ok tt (record s { node_refs = update s.node_refs n (s.node_refs n - 1); sys = w }))
  unfolding inode_ref_dec inode_check
  inode_ref_dec_lem n s lt small =
      let s' = record s { node_refs = update s.node_refs n (s.node_refs n - 1) } in
      let pos : 0 < s.node_refs n = omega arith in
      elim (eq-cases (s.node_refs n) 1) [
        | inr more ↦ (s.sys, rw (ltb-true pos, ==-ne more) refl)
        | inl last ↦
            let unopened : s.node_opens n ≡ 0 = omega arith in
            let (w, e) = warned-lift s' (ops.vop_reclaim n s') (a.reclaims n s') in
            (w, rw (last, ==-refl n, unopened) (rw last at e))
      ]

  -- Closing an inode that is open takes one from both of its counts.
  pub vfs_close_lem :
      (n : ℕ) (s : Fs W)
      → 0 < s.node_opens n
      → s.node_opens n ≤ s.node_refs n
      → s.node_refs n < max_inode_count
      → (w : W) × (vfs_close ops n s
          ≡ ok tt (record s {
            node_opens = update s.node_opens n (s.node_opens n - 1);
            node_refs = update s.node_refs n (s.node_refs n - 1);
            sys = w;
          }))
  unfolding vfs_close
  vfs_close_lem n s pos le small =
      let (w, e) = inode_open_dec_lem n s pos le small in
      let s1 = record s { node_opens = update s.node_opens n (s.node_opens n - 1); sys = w } in
      let below : s1.node_opens n < s1.node_refs n =
        rw (update-at s.node_opens n (s.node_opens n - 1)) (omega arith) in
      let (w', e') = inode_ref_dec_lem n s1 below small in (w', rw e e')
