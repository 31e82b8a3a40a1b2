-- ===== src/Sched/Leave.antt =====
-- What `del_timer` of sched.c makes of the ticks until the timers expire.
use oshub.Prelude.{
  ℕ, ◌+◌, ◌%◌, ◌^◌, ◌<◌, ◌≡◌, ◌≢◌, refl, sym, ◌∙◌, true, ◌==◌, ==-ne, ==-refl, if◌then◌else◌, List,
  [], ◌∷◌, ◌++◌, head_or, All, ◌∉◌, Distinct, arith, Bool-cases, inl, inr, ◌⊎◌, All-right,
}
use oshub.Links
use oshub.Links.{Links}
use oshub.Links.Ring.{Ring, del_init-Ring, next-Ring, is_empty-member}
use oshub.Sched.{Sched, timer_list}
use oshub.Sched.Timers.{del_timer, handed_on}
use oshub.Sched.Due.{due, due_same, keep_others}

-- The other timers keep their ticks.
abbrev pub leave : ℕ → List (ℕ × ℕ) → List (ℕ × ℕ)
leave t [] = []
leave t ((u, e) ∷ l) = if t == u then l else (u, e) ∷ leave t l

-- The next timer, if there is one, takes over the ticks of `timer`.
abbrev Takes : (ℕ → ℕ) → (ℕ → ℕ) → ℕ → List ℕ → Type 0
Takes g ex timer [] = Unit
Takes g ex timer (y ∷ ys) = (g y ≡ ex y + ex timer) × All (λ u. g u ≡ ex u) ys

leave-due :
    (g ex : ℕ → ℕ) (timer passed : ℕ) (xs ys : List ℕ)
    → timer ∉ xs
    → All (λ u. g u ≡ ex u) xs
    → Takes g ex timer ys
    → due g passed (xs ++ ys) ≡ leave timer (due ex passed (xs ++ timer ∷ ys))
leave-due g ex timer passed [] [] out h k = rw (==-refl timer) refl
leave-due g ex timer passed [] (y ∷ ys) out h k =
    let sum : passed + (ex y + ex timer) ≡ passed + ex timer + ex y = omega arith in
    rw (==-refl timer, k.0, sum, due_same ex g _ (passed + ex timer + ex y) ys refl k.1) refl
leave-due g ex timer passed (x ∷ xs) ys out h k =
    rw (==-ne out.0, h.0, leave-due g ex timer (passed + ex x) xs ys out.1 h.1 k) refl

-- The ticks of the two together fit 32 bits.
abbrev Near : (ℕ → ℕ) → ℕ → List ℕ → Type 0
Near ex timer [] = Unit
Near ex timer (y ∷ ys) = ex y + ex timer < 2 ^ 32

near :
    (ex : ℕ → ℕ) (timer passed : ℕ) (xs ys : List ℕ)
    → All (λ e. e.1 < 2 ^ 32) (due ex passed (xs ++ timer ∷ ys))
    → Near ex timer ys
near ex timer passed [] [] h = tt
near ex timer passed [] (y ∷ ys) h = omega (arith, h.1.0)
near ex timer passed (x ∷ xs) ys h = near ex timer (passed + ex x) xs ys h.1

handed_on-Takes :
    (s : Sched) (timer : ℕ) (ys : List ℕ)
    → s.timer_link.next timer ≡ head_or ys timer_list
    → timer_list ∉ ys
    → Distinct ys
    → Near s.expires timer ys
    → Takes (handed_on timer s) s.expires timer ys
handed_on-Takes s timer [] e out d small = tt
handed_on-Takes s timer (y ∷ ys) e out d small = elim (Bool-cases (s.expires timer == 0)) [
  | inl z ↦
      let zero_ticks : s.expires timer ≡ 0 = ground arith in
      rw (z, zero_ticks) (omega arith, same ys)
  | inr z ↦
      rw (z, e, ==-ne (λ h. out.0 (sym h)))
        (ground (arith, %-small), keep_others s.expires y _ ys d.0)
]
  where
    same : (us : List ℕ) → All (λ u. s.expires u ≡ s.expires u) us
    same [] = tt
    same (u ∷ us) = (refl, same us)

    %-small : (s.expires y + s.expires timer) % 2 ^ 32 ≡ s.expires y + s.expires timer
    %-small = omega arith

handed_on-other :
    (s : Sched) (timer x : ℕ)
    → (s.timer_link.next timer ≡ timer_list) ⊎ (x ≢ s.timer_link.next timer)
    → handed_on timer s x ≡ s.expires x
handed_on-other s timer x (inl e) = rw e (ground arith)
handed_on-other s timer x (inr n) = elim (Bool-cases (s.expires timer == 0)) [
  | inl z ↦ rw z refl
  | inr z ↦ elim (Bool-cases (s.timer_link.next timer == timer_list)) [
    | inl e ↦ rw (z, e) refl
    | inr e ↦ rw (z, e, ==-ne n) refl
  ]
]

handed_on-before :
    (s : Sched) (timer : ℕ) (xs ys : List ℕ)
    → s.timer_link.next timer ≡ head_or ys timer_list
    → Distinct (xs ++ timer ∷ ys)
    → All (λ u. handed_on timer s u ≡ s.expires u) xs
handed_on-before s timer [] ys e d = tt
handed_on-before s timer (x ∷ xs) ys e d =
    (handed_on-other s timer x (beside ys e d.0), handed_on-before s timer xs ys e d.1)
  where
    beside :
        (ys : List ℕ)
        → s.timer_link.next timer ≡ head_or ys timer_list
        → x ∉ (xs ++ timer ∷ ys)
        → (s.timer_link.next timer ≡ timer_list) ⊎ (x ≢ s.timer_link.next timer)
    beside [] e out = inl e
    beside (y ∷ ys) e out = inr (λ h. (All-right _ xs (timer ∷ y ∷ ys) out).1.0 (h ∙ e))

-- `del_timer` of a timer in the list takes it out and leaves it in no list, and the others expire
-- as they would have; its own ticks and the list's are below `2 ^ 32`. A second
-- call changes nothing.
pub del_timer_lem :
    (s : Sched) (timer : ℕ) (xs ys : List ℕ)
    → Ring s.timer_link timer_list (xs ++ timer ∷ ys)
    → All (λ e. e.1 < 2 ^ 32) (due s.expires 0 (xs ++ timer ∷ ys))
    → Ring (del_timer timer s).timer_link timer_list (xs ++ ys)
      × (Links.is_empty timer (del_timer timer s).timer_link ≡ true)
      × (due (del_timer timer s).expires 0 (xs ++ ys)
          ≡ leave timer (due s.expires 0 (xs ++ timer ∷ ys)))
      × (del_timer timer (del_timer timer s) ≡ del_timer timer s)
unfolding del_timer
del_timer_lem s timer xs ys r small =
    let next = next-Ring xs ys timer r in
    let (ring, lone) = del_init-Ring xs ys timer r in
    let d = r.distinct.1 in
    let behind = All-right _ xs (timer ∷ ys) r.distinct.0 in
    rw (is_empty-member xs ys timer r, lone)
      (
        ring,
        refl,
        leave-due (handed_on timer s) s.expires timer 0 xs ys (apart xs d)
            (handed_on-before s timer xs ys next d)
            (handed_on-Takes s timer ys next behind.1 (Distinct-right xs d).1
              (near s.expires timer 0 xs ys small)),
        refl,
      )
  where
    apart : (xs : List ℕ) → Distinct (xs ++ timer ∷ ys) → timer ∉ xs
    apart [] d = tt
    apart (x ∷ xs) d = (λ e. (All-right _ xs (timer ∷ ys) d.0).0 (sym e), apart xs d.1)

    Distinct-right : (xs : List ℕ) → Distinct (xs ++ timer ∷ ys) → Distinct (timer ∷ ys)
    Distinct-right [] d = d
    Distinct-right (x ∷ xs) d = Distinct-right xs d.1
