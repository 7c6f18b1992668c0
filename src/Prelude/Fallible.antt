-- ===== src/Prelude/Fallible.antt =====
-- Chains of steps that may fail, as `do` blocks.
use mathlib.Core.Path.{◌≡◌, refl}
use mathlib.Core.Option.{Option, none, some}

infixl 5 ◌>>=◌
abbrev pub ◌>>=◌ {ℓ κ} : {A : Type ℓ} {B : Type κ} → Option A → (A → Option B) → Option B
none >>= f = none
some a >>= f = f a

-- chains with the same first step
pub bind_congr {ℓ κ} :
    {A : Type ℓ} {B : Type κ} (x : Option A) (f g : A → Option B)
    → ((a : A) → f a ≡ g a)
    → (x >>= f) ≡ (x >>= g)
bind_congr none f g h = refl
bind_congr (some a) f g h = h a

-- what holds of none and of every result of the second step holds of the chain
pub bind_elim {ℓ κ μ} :
    {A : Type ℓ} {B : Type κ} (P : Option B → Type μ)
    → P none
    → (x : Option A) (f : A → Option B) → ((a : A) → P (f a))
    → P (x >>= f)
bind_elim P n none f h = n
bind_elim P n (some a) f h = h a
