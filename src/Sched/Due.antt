-- ===== src/Sched/Due.antt =====
-- When the timers of sched.c expire, and what `add_timer` makes of it.
use mathlib.Core.Path.{subst}
use oshub.Prelude.{
  ℕ, zero, suc, ◌+◌, ◌-◌, ◌≤◌, ◌<◌, ◌≡◌, ◌≢◌, refl, ltb-true, ltb-false, sym, ap, ◌∙◌, true, false,
  ◌==◌, ==-ne, ltb, if◌then◌else◌, update, done, List, [], ◌∷◌, ◌++◌, length, head_or, All, ◌∉◌,
  Distinct, arith, Bool-cases, inl, inr,
}
use oshub.Links
use oshub.Links.{Links}
use oshub.Links.Chain.{Chain}
use oshub.Links.Ring.{Ring, add_before-Ring}
use oshub.Sched.{Sched, null, timer_list}
use oshub.Sched.Timers.{place, add_timer}

-- The timers with the number of ticks until each expires, from `expires` of the ones before.
abbrev pub due : (ℕ → ℕ) → ℕ → List ℕ → List (ℕ × ℕ)
due ex passed [] = []
due ex passed (t ∷ ts) = (t, passed + ex t) ∷ due ex (passed + ex t) ts

-- A timer takes its place behind those that expire with it or before.
abbrev pub enter : ℕ → ℕ → List (ℕ × ℕ) → List (ℕ × ℕ)
enter t d [] = (t, d) ∷ []
enter t d ((u, e) ∷ l) = if ltb d e then (t, d) ∷ (u, e) ∷ l else (u, e) ∷ enter t d l

pub due_same :
    (f g : ℕ → ℕ) (a b : ℕ) (ts : List ℕ)
    → a ≡ b
    → All (λ t. g t ≡ f t) ts
    → due g b ts ≡ due f a ts
due_same f g a b [] e h = refl
due_same f g a b (t ∷ ts) e h = rw (← e, h.0, due_same f g (a + f t) (a + f t) ts refl h.1) refl

first_of :
    (l : Links) (p : ℕ) (ts : List ℕ) → Chain l p ts timer_list → l.next p ≡ head_or ts timer_list
first_of l p [] c = c.0
first_of l p (t ∷ ts) c = c.0.0

-- What the loop of `add_timer` leaves: the place, and the ticks with the timer there.
record Placed (ex : ℕ → ℕ) (timer passed : ℕ) (ts : List ℕ) (out : ℕ × (ℕ → ℕ)) : Type 0 where
  pub before : List ℕ
  pub behind : List ℕ
  pub parts : ts ≡ before ++ behind
  pub at : out.0 ≡ head_or behind timer_list
  pub ticks :
      due out.1 passed (before ++ timer ∷ behind)
      ≡ enter timer (passed + ex timer) (due ex passed ts)
  pub others : (u : ℕ) → u ∉ (timer ∷ ts) → out.1 u ≡ ex u

pub keep_others : (f : ℕ → ℕ) (a v : ℕ) (ts : List ℕ) → a ∉ ts → All (λ t. update f a v t ≡ f t) ts
keep_others f a v [] h = tt
keep_others f a v (t ∷ ts) h = (ground arith, keep_others f a v ts h.1)

enter_here :
    (g ex : ℕ → ℕ) (timer passed t : ℕ) (ts : List ℕ)
    → g timer ≡ ex timer
    → g t ≡ ex t - ex timer
    → ex timer < ex t
    → All (λ u. g u ≡ ex u) ts
    → due g passed (timer ∷ t ∷ ts) ≡ enter timer (passed + ex timer) (due ex passed (t ∷ ts))
enter_here g ex timer passed t ts e1 e2 lt h =
    let first : passed + ex timer < passed + ex t = omega arith in
    let sum : passed + ex timer + (ex t - ex timer) ≡ passed + ex t = omega arith in
    rw (ltb-true first, e1, e2, sum, due_same ex g (passed + ex t) (passed + ex t) ts refl h) refl

enter_on :
    (g ex ex1 : ℕ → ℕ) (timer passed t : ℕ) (ts zs : List ℕ)
    → g t ≡ ex t
    → ex t ≤ ex timer
    → All (λ u. ex1 u ≡ ex u) ts
    → ex1 timer ≡ ex timer - ex t
    → due g (passed + ex t) zs
      ≡ enter timer (passed + ex t + ex1 timer) (due ex1 (passed + ex t) ts)
    → due g passed (t ∷ zs) ≡ enter timer (passed + ex timer) (due ex passed (t ∷ ts))
enter_on g ex ex1 timer passed t ts zs kept ge h e1 ticks =
    let later : passed + ex t ≤ passed + ex timer = omega arith in
    let sum : passed + ex t + (ex timer - ex t) ≡ passed + ex timer = omega arith in
    rw
      (
        ltb-false later,
        kept,
        ticks,
        due_same ex ex1 (passed + ex t) (passed + ex t) ts refl h,
        e1,
        sum,
      )
      refl

place-Placed :
    (f : ℕ) (l : Links) (timer : ℕ) (ts : List ℕ) (le prior : ℕ) (ex : ℕ → ℕ) (passed : ℕ)
    → Chain l prior ts timer_list
    → le ≡ head_or ts timer_list
    → Distinct (timer_list ∷ timer ∷ ts)
    → length ts < f
    → Placed ex timer passed ts (place f l timer le ex)
unfolding place
place-Placed zero l timer ts le prior ex passed c e d fuel = elim (not_below fuel) [ ]
  where
    not_below : length ts < 0 → ⊥
    not_below h = omega arith
place-Placed (suc f) l timer [] le prior ex passed c e d fuel = rw e (record {
  before = [];
  behind = [];
  parts = refl;
  at = refl;
  ticks = refl;
  others = λ u out. refl;
})
place-Placed (suc f) l timer (t ∷ ts) le prior ex passed c e d fuel =
    elim (Bool-cases (ltb (ex timer) (ex t))) [
      | inl lt ↦
          rw (e, at_node, lt)
            (record {
              before = [];
              behind = t ∷ ts;
              parts = refl;
              at = refl;
              ticks = here (ground arith);
              others = λ u out. ground arith;
            })
      | inr ge ↦
          let i =
            place-Placed f l timer ts (l.next t) t ex1 (passed + ex t) c.1 follows
              ((d.0.0, d.0.1.1), (d.1.0.1, d.1.1.1)) (omega arith) in
          let kept : (place f l timer (l.next t) ex1).1 t ≡ ex t =
            i.others t (λ h. d.1.0.0 (sym h), d.1.1.0) ∙ ground arith in
          rw (e, at_node, ge)
            (record {
              before = t ∷ i.before;
              behind = i.behind;
              parts = ap (λ l. t ∷ l) i.parts;
              at = i.at;
              ticks =
                  enter_on (place f l timer (l.next t) ex1).1 ex ex1 timer passed t ts
                    (i.before ++ timer ∷ i.behind) kept (ground arith)
                    (keep_others ex timer _ ts d.1.0.1) (ground arith) i.ticks;
              others = λ u out. i.others u (out.0, out.1.1) ∙ ground arith;
            })
    ]
  where
    ex1 : ℕ → ℕ
    ex1 = update ex timer (ex timer - ex t)

    at_node : (t == timer_list) ≡ false
    at_node = ==-ne (λ h. d.0.1.0 (sym h))

    follows : l.next t ≡ head_or ts timer_list
    follows = first_of l t ts c.1

    here :
        ex timer < ex t
        → due (update ex t (ex t - ex timer)) passed (timer ∷ t ∷ ts)
          ≡ enter timer (passed + ex timer) (due ex passed (t ∷ ts))
    here lt =
        enter_here (update ex t (ex t - ex timer)) ex timer passed t ts (ground (arith, d.1.0.0))
          (ground arith) lt (keep_others ex t _ ts d.1.1.0)

-- `add_timer` of a timer that is in no list, has a process and expires in `d > 0` ticks puts it
-- into the list: it expires in `d` ticks, behind the timers that expire with it or before, and the
-- ticks of all others are as before. A bound above the number of timers is enough fuel.
pub add_timer_lem :
    (f : ℕ) (s : Sched) (timer : ℕ) (ts : List ℕ)
    → Ring s.timer_link timer_list ts
    → timer ∉ (timer_list ∷ ts)
    → Links.is_empty timer s.timer_link ≡ true
    → 0 < s.expires timer
    → s.timer_proc timer ≢ null
    → length ts < f
    → (s' : Sched) × (xs : List ℕ) × (add_timer f timer s ≡ done s')
      × Ring s'.timer_link timer_list xs
      × (due s'.expires 0 xs ≡ enter timer (s.expires timer) (due s.expires 0 ts))
unfolding add_timer
add_timer_lem f s timer ts r new lone pos some fuel =
    let i =
      place-Placed f s.timer_link timer ts (s.timer_link.next timer_list) timer_list s.expires 0
        r.chain (first r.chain) ((λ e. new.0 (sym e), r.distinct.0), (new.1, r.distinct.1)) fuel in
    (
      record s {
        timer_link =
            Links.add_before (place f s.timer_link timer (s.timer_link.next timer_list) s.expires).0
              timer s.timer_link;
        expires = (place f s.timer_link timer (s.timer_link.next timer_list) s.expires).1;
      },
      i.before ++ timer ∷ i.behind,
      rw (ltb-true pos, ==-ne some, lone) refl,
      rw i.at (
          add_before-Ring i.before i.behind timer
            (subst (λ l. Ring s.timer_link timer_list l) i.parts r)
            (subst (λ l. timer ∉ (timer_list ∷ l)) i.parts new)),
      i.ticks ∙ ap (λ d. enter timer d (due s.expires 0 ts)) (omega arith),
    )
  where
    first :
        Chain s.timer_link timer_list ts timer_list
        → s.timer_link.next timer_list ≡ head_or ts timer_list
    first c = first_of s.timer_link timer_list ts c
