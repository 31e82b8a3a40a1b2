-- ===== src/Files/Close.antt =====
-- Closing files: `file_close`, `files_closeall` and `files_destroy`.
use oshub.Prelude.{
  ℕ, suc, ◌+◌, ◌^◌, ◌≤◌, ◌<◌, ◌≡◌, ◌≢◌, refl, sym, ap, ◌∙◌, Bool, true, false, Bool-cases, ltb,
  ltb-true, ltb-false, ==-refl, ◌&&◌, update-at, update-other, inl, inr, eq-cases, lt-cases, arith,
  e_inval, ok, fail,
}
use mathlib.Core.Bool.{true≢false}
use oshub.Files.State.{fd_none, Fs, Ops}
use oshub.Files.Table.{nentry, is_opened, fd_array_close, fd2file}
use oshub.Files.Process.{close_if_open}
use oshub.Files.Counts.{Answers}
use oshub.Files.Kept.{Others, Idle, InUse, Kept, without, fd_array_close_lem, without-Kept}

-- A descriptor of an open file.
abbrev pub valid : {W : Type 0} → ℕ → Fs W → Bool
valid fd s = ltb fd nentry && is_opened (s.table fd).status

pub fd2file-valid :
    {W : Type 0} (others : Others) (s : Fs W) (fd : ℕ)
    → Kept others s
    → 0 < s.files_count
    → valid fd s ≡ true
    → (fd < nentry) × InUse (s.table fd) × (fd2file fd s ≡ ok fd s)
unfolding fd2file
fd2file-valid others s fd k counted v = elim (lt-cases fd nentry) [
  | inr out ↦ absurd (true≢false (sym (rw (ltb-false out) at v)))
  | inl lt ↦ elim (k.slots fd lt) [
    | inl (st, c) ↦ absurd (true≢false (sym (rw (ltb-true lt, st) at v)))
    | inr u ↦
        let low : fd < 2 ^ 31 = omega arith in
        (
          lt,
          u,
          rw (ltb-true low, ltb-true lt, ltb-true counted, u.0, k.placed fd lt, ==-refl fd) refl,
        )
  ]
]

pub fd2file-invalid :
    {W : Type 0} (s : Fs W) (fd : ℕ)
    → 0 < s.files_count
    → valid fd s ≡ false
    → fd2file fd s ≡ fail e_inval s
unfolding fd2file
fd2file-invalid s fd counted v = elim (lt-cases fd nentry) [
  | inr out ↦ elim (Bool-cases (ltb fd (2 ^ 31))) [
    | inl e ↦ rw (e, ltb-false out) refl
    | inr e ↦ rw e refl
  ]
  | inl lt ↦
      let low : fd < 2 ^ 31 = omega arith in
      let shut : is_opened (s.table fd).status ≡ false = rw (ltb-true lt) at v in
      rw (ltb-true low, ltb-true lt, ltb-true counted, shut) refl
]

module _ {W : Type 0} (ops : Ops W) (a : Answers ops) (others : Others) where
  -- What closing some slots leaves.
  pub record Shut (s s' : Fs W) (lo hi : ℕ) : Type 0 where
    pub kept : Kept others s'
    pub count : s'.files_count ≡ s.files_count
    pub idle : (i : ℕ) → lo ≤ i → i < hi → Idle (s'.table i)
    pub below : (i : ℕ) → i < lo → s'.table i ≡ s.table i

  opened_closes :
      (s : Fs W) (i : ℕ)
      → is_opened (s.table i).status ≡ true
      → close_if_open ops i s ≡ fd_array_close ops i s
  unfolding close_if_open
  opened_closes s i e = rw e refl

  idle_stays :
      (s : Fs W) (i : ℕ) → is_opened (s.table i).status ≡ false → close_if_open ops i s ≡ ok tt s
  unfolding close_if_open
  idle_stays s i e = rw e refl

  pub close_one :
      (s : Fs W) (i : ℕ)
      → Kept others s
      → i < nentry
      → (s' : Fs W) × (close_if_open ops i s ≡ ok tt s')
        × Kept others s'
        × (s'.files_count ≡ s.files_count)
        × Idle (s'.table i)
        × ((j : ℕ) → j ≢ i → s'.table j ≡ s.table j)
  close_one s i k lt = elim (k.slots i lt) [
    | inl idle ↦ (s, idle_stays s i (ap is_opened idle.0), k, refl, idle, λ j ne. refl)
    | inr (st, once, (n, named)) ↦
        let (w, e) = fd_array_close_lem ops a others s i n k lt st once named in
        let gone = record (s.table i) { status = fd_none; open_count = 0 } in
        (
          without i n w s,
          opened_closes s i (ap is_opened st) ∙ e,
          without-Kept ops a others s i n w k lt st named,
          refl,
          (
            ap (λ f. f.status) (update-at s.table i gone),
            ap (λ f. f.open_count) (update-at s.table i gone),
          ),
          λ j ne. update-other s.table i gone j ne,
        )
  ]

  pub none_yet : (s : Fs W) (i : ℕ) → Kept others s → Shut s s i (i + 0)
  none_yet s i k = record {
    kept = k;
    count = refl;
    idle = λ j lo hi. absurd (omega arith);
    below = λ j h. refl;
  }

  pub one_more :
      (s s1 s2 : Fs W) (i m : ℕ)
      → s1.files_count ≡ s.files_count
      → Idle (s1.table i)
      → ((j : ℕ) → j ≢ i → s1.table j ≡ s.table j)
      → Shut s1 s2 (i + 1) (i + 1 + m)
      → Shut s s2 i (i + suc m)
  one_more s s1 s2 i m c1 idle1 same1 sh = record {
    kept = sh.kept;
    count = sh.count ∙ c1;
    idle = λ j lo hi. elim (eq-cases j i) [
      | inl q ↦ rw (q, sh.below i (omega arith)) idle1
      | inr ne ↦ sh.idle j (omega (arith, ne)) (omega arith)
    ];
    below = λ j h. sh.below j (omega arith) ∙ same1 j (λ q. omega (arith, q));
  }
