-- ===== src/Prelude/Effects.antt =====
-- What a kernel function does that works on a state and may report an error: it returns a value,
-- it returns an error code, each with the state that it leaves, or the machine stops.
use mathlib.Core.Bool.{Bool, true, false}
use mathlib.Core.Path.{◌≡◌, refl}

-- The codes of lab8/libs/error.h that the models return.
pub data Error : Type 0 where
  e_inval e_no_mem e_busy e_noent e_max_open e_isdir e_notdir e_exists e_no_dev e_na_dev : Error
  e_unimp e_bad_proc e_no_free_proc e_killed e_too_big e_xdev e_notempty e_seek e_fault : Error

pub data Eff {ℓ κ} (S : Type ℓ) (A : Type κ) : Type (ℓ ⊔ κ) where
  ok : A → S → Eff S A
  fail : Error → S → Eff S A
  stop : Eff S A

-- `if ((ret = m) != 0) return ret;` and then `f`
infixl 4 ◌!>◌
abbrev pub ◌!>◌ {ℓ κ μ} :
    {S : Type ℓ} {A : Type κ} {B : Type μ} → Eff S A → (A → S → Eff S B) → Eff S B
ok a s !> f = f a s
fail e s !> f = fail e s
stop !> f = stop

-- `assert(b)`, and then `m`
abbrev pub assert_then {ℓ κ} : {S : Type ℓ} {A : Type κ} → Bool → Eff S A → Eff S A
assert_then true m = m
assert_then false m = stop

pub bind_assoc {ℓ κ μ ν} :
    {S : Type ℓ} {A : Type κ} {B : Type μ} {C : Type ν} (m : Eff S A) (f : A → S → Eff S B)
    (g : B → S → Eff S C)
    → (m !> f !> g) ≡ (m !> λ a s. f a s !> g)
bind_assoc (ok a s) f g = refl
bind_assoc (fail e s) f g = refl
bind_assoc stop f g = refl
