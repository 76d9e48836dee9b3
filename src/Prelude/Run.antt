-- ===== src/Prelude/Run.antt =====
-- Runs of C code: a result, a step that C leaves undefined, or a loop that was cut off.
use mathlib.Core.Bool.{Bool, true, false}
use cs_261_basics_of_compute.Prelude.{if◌then◌else◌}

pub data Run {ℓ} (A : Type ℓ) : Type ℓ where
  ok : A → Run A
  undefined : Run A
  out_of_fuel : Run A

infixl 5 ◌>>=◌
abbrev pub ◌>>=◌ {ℓ κ} : {A : Type ℓ} {B : Type κ} → Run A → (A → Run B) → Run B
ok a >>= f = f a
undefined >>= f = undefined
out_of_fuel >>= f = out_of_fuel

-- The code returns, or does what C leaves undefined.
pub data Settles {ℓ} {A : Type ℓ} : Run A → Type ℓ where
  returns : {a : A} → Settles (ok a)
  faults : Settles undefined

pub bind-Settles :
    {A B : Type 0} {r : Run A} {f : A → Run B}
    → Settles r
    → ((a : A) → Settles (f a))
    → Settles (r >>= f)
bind-Settles (returns {a}) h = h a
bind-Settles faults h = faults

pub if-Settles :
    {A : Type 0} {x y : Run A} (b : Bool) → Settles x → Settles y → Settles (if b then x else y)
if-Settles true x y = x
if-Settles false x y = y
