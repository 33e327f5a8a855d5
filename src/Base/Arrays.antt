-- ===== src/Base/Arrays.antt =====
-- A fixed-size C array as a function of the index, and its update at one index.
use Prim.Native.Nat.{ℕ}
use mathlib.Core.Path.{◌≡◌}
use mathlib.Core.Logic.{◌≢◌}
use native.Mathlib.Omega.{arith}
use liberdos.Base.Tests.{◌==◌, if◌then◌else◌}

abbrev pub Array {ℓ} : Type ℓ → Type ℓ
Array A = ℕ → A

module _ {ℓ} {A : Type ℓ} where
  abbrev pub update : Array A → ℕ → A → Array A
  update a i v j = if i == j then v else a j

  pub update_self : (a : Array A) (i : ℕ) (v : A) → update a i v i ≡ v
  update_self a i v = ground arith

  pub update_ne : (a : Array A) (i j : ℕ) (v : A) → i ≢ j → update a i v j ≡ a j
  update_ne a i j v h = ground arith

  pub update_twice_ne :
      (a : Array A) (i j : ℕ) (v w : A) → i ≢ j → update (update a i v) i w j ≡ a j
  update_twice_ne a i j v w h = ground arith
