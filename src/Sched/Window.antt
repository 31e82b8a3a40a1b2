-- ===== src/Sched/Window.antt =====
-- Strides on the circle of 32-bit numbers: how far each lies behind a base, and how the
-- comparison of default_sched_stride.c and the heap see it.
use oshub.Prelude.{
  ℕ, ◌+◌, ◌-◌, ◌%◌, ◌^◌, ◌≤◌, ◌<◌, ◌≡◌, refl, ltb, ltb-true, ltb-false, leb-true, leb-false, arith,
  inl, inr, lt-cases,
}
use oshub.SkewHeap.Tree.{Tree, leaf, node, count, AtLeast, IsHeap}
use oshub.Sched.Stride.{less, big_stride}

-- The distance from `base` to `w`.
abbrev pub ahead : ℕ → ℕ → ℕ
ahead base w = (w + 2 ^ 32 - base) % 2 ^ 32

-- Within half the circle the comparison is that of the distances from the base.
pub less-ahead :
    (stride : ℕ → ℕ) (base a b : ℕ)
    → base < 2 ^ 32
    → stride a < 2 ^ 32
    → stride b < 2 ^ 32
    → ahead base (stride a) ≤ big_stride
    → ahead base (stride b) ≤ big_stride
    → less stride a b ≡ ltb (ahead base (stride a)) (ahead base (stride b))
less-ahead stride base a b hb ha hb' wa wb =
    elim (lt-cases (ahead base (stride a)) (ahead base (stride b))) [
      | inl lt ↦ rw (ltb-true lt, leb-true (below lt)) refl
      | inr ge ↦ rw (ltb-false ge, leb-false (above ge)) refl
    ]
  where
    below :
        ahead base (stride a) < ahead base (stride b)
        → 2 ^ 31 ≤ (stride a + 2 ^ 32 - stride b) % 2 ^ 32
    below lt = omega arith

    above :
        ahead base (stride b) ≤ ahead base (stride a)
        → (stride a + 2 ^ 32 - stride b) % 2 ^ 32 < 2 ^ 31
    above ge = omega arith

-- A base that moves up to a stride leaves what is beyond it in order.
pub ahead-move :
    (base w v : ℕ)
    → base < 2 ^ 32
    → w < 2 ^ 32
    → v < 2 ^ 32
    → ahead base w ≤ ahead base v
    → ahead base v ≤ big_stride
    → ahead w v + ahead base w ≡ ahead base v
ahead-move base w v hb hw hv le big = omega arith

-- One pass is at most `big_stride`.
pub ahead-pass : (w k : ℕ) → w < 2 ^ 32 → k ≤ big_stride → ahead w ((w + k) % 2 ^ 32) ≡ k
ahead-pass w k hw hk = omega arith

AtLeast-shift :
    (f g : ℕ → ℕ) (d m : ℕ) (t : Tree)
    → ((x : ℕ) → 0 < count x t → g x + d ≡ f x)
    → (n : ℕ) → n + d ≤ m
    → AtLeast f m t
    → AtLeast g n t
AtLeast-shift f g d m leaf e n h a = tt
AtLeast-shift f g d m (node l x r) e n h a = (
  omega (arith, e x (ground arith)),
  AtLeast-shift f g d m l (λ y i. e y (ground arith)) n h a.1,
  AtLeast-shift f g d m r (λ y i. e y (ground arith)) n h a.2,
)

pub IsHeap-shift :
    (f g : ℕ → ℕ) (d : ℕ) (t : Tree)
    → ((x : ℕ) → 0 < count x t → g x + d ≡ f x)
    → IsHeap f t
    → IsHeap g t
IsHeap-shift f g d leaf e h = tt
IsHeap-shift f g d (node l x r) e h =
    let here = e x (ground arith) in
    let el : (y : ℕ) → 0 < count y l → g y + d ≡ f y = λ y i. e y (ground arith) in
    let er : (y : ℕ) → 0 < count y r → g y + d ≡ f y = λ y i. e y (ground arith) in
    (
      AtLeast-shift f g d (f x) l el (g x) (omega arith) h.0,
      AtLeast-shift f g d (f x) r er (g x) (omega arith) h.1,
      IsHeap-shift f g d l el h.2,
      IsHeap-shift f g d r er h.3,
    )
