-- ===== src/Process/Adopt.antt =====
-- The loop of `do_exit`, which hands the children of a process over to `initproc`.
use mathlib.Core.Path.{subst}
use oshub.Prelude.{
  and_false, ℕ, zero, suc, ◌<◌, ◌≡◌, ◌≢◌, inl, inr, refl, sym, ◌∙◌, ap, Bool, true, false, ◌==◌,
  ==-refl, ==-ne, if◌then◌else◌, ◌&&◌, ◌||◌, Bool-cases, arith, List, [], ◌∷◌, length, Run, done,
  ◌>>=◌,
}
use oshub.Sched.{Sched, Class, null, is_zombie, wakeup_proc}
use oshub.Process.{Procs, youngest}
use oshub.Process.Children.{Children}
use oshub.Process.Calls.{wt_child, handed_over, wake_up, notify, adopt}
use oshub.Process.HandOver.{Leaving, handed_over-here, handed_over-initproc, handed_over-other}

-- The children in the order in which they stand after each has been put before `ys`.
abbrev pub onto : List ℕ → List ℕ → List ℕ
onto [] ys = ys
onto (x ∷ xs) ys = onto xs (x ∷ ys)

abbrev pub any_zombie : Sched → List ℕ → Bool
any_zombie t [] = false
any_zombie t (x ∷ xs) = is_zombie (t.procs x).state || any_zombie t xs

-- `initproc` waits for a child.
abbrev pub awaits : Procs → Bool
awaits s = (s.sched.procs s.initproc).wait_state == wt_child

-- What the loop of `do_exit` leaves behind, with `t` for the scheduler.
abbrev pub Adopted : Procs → ℕ → List ℕ → List ℕ → Sched → Run Procs → Type 0
Adopted s here xs ys t r =
    (s' : Procs) × (r ≡ done s')
    × Children s' here []
    × Children s' s.initproc (onto xs ys)
    × (s'.sched ≡ t)
    × ((q : ℕ) (zs : List ℕ) → q ≢ here → q ≢ s.initproc → Children s q zs → Children s' q zs)

-- The same children in another scheduler.
resched :
    {s : Procs} {p : ℕ} {xs : List ℕ} (t : Sched)
    → Children s p xs
    → Children (record s { sched = t }) p xs
resched t v = record { row = v.row; parents = v.parents; distinct = v.distinct }

resched-Leaving :
    {s : Procs} {p y : ℕ} {xs : List ℕ} (t : Sched)
    → Leaving s p y xs
    → Leaving (record s { sched = t }) p y xs
resched-Leaving t v = record { row = v.row; parents = v.parents; distinct = v.distinct }

module _ (c : Class) where
  adopt-step :
      (f : ℕ) (s : Procs) (here x : ℕ)
      → s.cptr here ≡ x
      → x ≢ null
      → adopt c (suc f) here s ≡ (notify c s.initproc x (handed_over here x s) >>= adopt c f here)
  unfolding adopt
  adopt-step f s here x e ne =
      subst
        (λ k.
          (if k == null
            then done s
            else (notify c s.initproc k (handed_over here k s) >>= adopt c f here))
          ≡ (notify c s.initproc x (handed_over here x s) >>= adopt c f here))
        (sym e) (rw (==-ne ne) refl)

  notify-quiet :
      (init x : ℕ) (s : Procs)
      → (is_zombie (s.sched.procs x).state && ((s.sched.procs init).wait_state == wt_child)) ≡ false
      → notify c init x s ≡ done s
  notify-quiet init x s quiet = rw quiet refl

  -- One turn, after which the rest of the loop goes on from `s2` in the scheduler `s2.sched`.
  turn :
      (f : ℕ) (s : Procs) (here x y : ℕ) (xs ys : List ℕ) (u t : Sched)
      → here ≢ s.initproc
      → Leaving s here y (x ∷ xs)
      → Children s s.initproc ys
      → notify c s.initproc x (handed_over here x s)
        ≡ done (record (handed_over here x s) { sched = u })
      → (let s2 = record (handed_over here x s) { sched = u } in
          Adopted s2 here xs (x ∷ ys) t (adopt c f here s2))
      → Adopted s here (x ∷ xs) ys t (adopt c (suc f) here s)
  unfolding handed_over youngest
  turn f s here x y xs ys u t ne l w e (s', r, mine, adopted, sc, others) = (
    s',
    adopt-step f s here x l.row.0 l.row.1 ∙ ap (λ (m : Run Procs). m >>= adopt c f here) e ∙ r,
    mine,
    adopted,
    sc,
    λ q zs nh ni v.
        others q zs nh ni (resched u (handed_over-other s here x y xs ys ne q zs nh ni l w v)),
  )

  adopt-quiet :
      (f : ℕ) (s : Procs) (here y : ℕ) (xs ys : List ℕ)
      → here ≢ s.initproc
      → awaits s ≡ false
      → Leaving s here y xs
      → Children s s.initproc ys
      → length xs < f
      → Adopted s here xs ys s.sched (adopt c f here s)
  unfolding adopt handed_over youngest
  adopt-quiet zero s here y xs ys ne quiet l w fuel = absurd (omega arith)
  adopt-quiet (suc f) s here y [] ys ne quiet l w fuel =
      let over : (s.cptr here == null) ≡ true = rw l.row (==-refl null) in
      rw over
        (s, refl, record { row = l.row; parents = tt; distinct = tt }, w, refl, λ q zs nh ni u. u)
  adopt-quiet (suc f) s here y (x ∷ xs) ys ne quiet l w fuel =
      turn f s here x y xs ys s.sched s.sched ne l w
        (notify-quiet s.initproc x (handed_over here x s) (and_false _ _ quiet))
        (adopt-quiet f (handed_over here x s) here x xs (x ∷ ys) ne quiet
          (handed_over-here s here x y xs ys ne l w) (handed_over-initproc s here x y xs ys ne l w)
          (omega arith))

  adopt-awaits :
      (f : ℕ) (s : Procs) (here y : ℕ) (xs ys : List ℕ) (t : Sched)
      → here ≢ s.initproc
      → awaits s ≡ true
      → wakeup_proc c s.initproc s.sched ≡ done t
      → ((t.procs s.initproc).wait_state == wt_child) ≡ false
      → Leaving s here y xs
      → Children s s.initproc ys
      → length xs < f
      → Adopted s here xs ys (if any_zombie s.sched xs then t else s.sched) (adopt c f here s)
  unfolding adopt handed_over youngest wake_up
  adopt-awaits zero s here y xs ys t ne on woken calm l w fuel = absurd (omega arith)
  adopt-awaits (suc f) s here y [] ys t ne on woken calm l w fuel =
      let over : (s.cptr here == null) ≡ true = rw l.row (==-refl null) in
      rw over
        (s, refl, record { row = l.row; parents = tt; distinct = tt }, w, refl, λ q zs nh ni u. u)
  adopt-awaits (suc f) s here y (x ∷ xs) ys t ne on woken calm l w fuel =
      let l' = handed_over-here s here x y xs ys ne l w in
      let w' = handed_over-initproc s here x y xs ys ne l w in
      elim (Bool-cases (is_zombie (s.sched.procs x).state)) [
        | inl z ↦ rw z (
            turn f s here x y xs ys t t ne l w (rw (z, on, woken) refl) (
              adopt-quiet f (record (handed_over here x s) { sched = t }) here x xs (x ∷ ys) ne calm
                (resched-Leaving t l') (resched t w') (omega arith)))
        | inr z ↦ rw z (
            turn f s here x y xs ys s.sched (if any_zombie s.sched xs then t else s.sched) ne l w
              (notify-quiet s.initproc x (handed_over here x s) (rw z refl))
              (adopt-awaits f (handed_over here x s) here x xs (x ∷ ys) t ne on woken calm l' w'
                (omega arith)))
      ]

  -- Where `initproc` can be woken up, and does not wait for a child then, the loop of `do_exit`
  -- ends with fuel above the number of children: they all are children of `initproc`, put before
  -- the ones it had, the process has none, the children of all others stay, and `initproc` has been
  -- woken up exactly if it waited for a child and one of those handed over is a zombie.
  pub adopt_lem :
      (f : ℕ) (s : Procs) (here : ℕ) (xs ys : List ℕ) (t : Sched)
      → here ≢ s.initproc
      → wakeup_proc c s.initproc s.sched ≡ done t
      → ((t.procs s.initproc).wait_state == wt_child) ≡ false
      → Children s here xs
      → Children s s.initproc ys
      → length xs < f
      → Adopted s here xs ys
          (if awaits s && any_zombie s.sched xs then t else s.sched)
          (adopt c f here s)
  adopt_lem f s here xs ys t ne woken calm v w fuel =
      let l : Leaving s here null xs = record {
        row = v.row;
        parents = v.parents;
        distinct = v.distinct;
      } in
      elim (Bool-cases (awaits s)) [
        | inl on ↦ rw on (adopt-awaits f s here null xs ys t ne on woken calm l w fuel)
        | inr quiet ↦ rw quiet (adopt-quiet f s here null xs ys ne quiet l w fuel)
      ]
