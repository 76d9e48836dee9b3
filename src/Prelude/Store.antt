-- ===== src/Prelude/Store.antt =====
-- A store is a function from addresses to cells; `write` changes one cell.
use cs_261_basics_of_compute.Prelude.Tests.{◌==◌, if◌then◌else◌}
use Prim.Native.Nat.{ℕ}
use mathlib.Core.Path.{◌≡◌}
use mathlib.Core.Logic.{◌≢◌}
use native.Mathlib.Omega.{arith}

module _ {ℓ} {A : Type ℓ} where
  unfoldable pub write : (ℕ → A) → ℕ → A → ℕ → A
  write m a v x = if x == a then v else m x

  pub write_self : (m : ℕ → A) (a : ℕ) (v : A) → write m a v a ≡ v
  unfolding write
  write_self m a v = ground arith

  pub write_ne : (m : ℕ → A) (a : ℕ) (v : A) (x : ℕ) → x ≢ a → write m a v x ≡ m x
  unfolding write
  write_ne m a v x h = ground arith
