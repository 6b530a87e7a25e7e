-- ===== src/Base/Float.antt =====
-- Python's `float`, by what the code does with it. The order is that of finite values: the
-- program stores no NaN.
use Prim.Native.Nat.{ℕ}
use mathlib.Core.Path.{◌≡◌}
use mathlib.Core.Logic.{◌⊎◌}
use mathlib.Core.Bool.{Bool, true, not}
use newchanges.Base.Tests.{if◌then◌else◌}

pub record Float {ℓ} (F : Type ℓ) : Type ℓ where
  pub nought : F
  pub hundred : F
  pub add : F → F → F
  pub sub : F → F → F
  -- `x * n` for an int `n`
  pub scale : F → ℕ → F
  pub le : F → F → Bool
  pub lt : F → F → Bool

module _ {ℓ} {F : Type ℓ} ⦃f : Float F⦄ where
  -- `min(a, b)` and `max(a, b)` return the first of two equal values.
  abbrev pub min : F → F → F
  min a b = if f.lt b a then b else a

  abbrev pub max : F → F → F
  max a b = if f.lt a b then b else a

infix 4 ◌≼◌
abbrev pub ◌≼◌ {ℓ} : {F : Type ℓ} ⦃f : Float F⦄ → F → F → Type 0
◌≼◌ ⦃f⦄ a b = f.le a b ≡ true

pub record IsOrdered {ℓ} (F : Type ℓ) ⦃f : Float F⦄ : Type ℓ where
  pub le_refl : (a : F) → a ≼ a
  pub le_trans : (a b c : F) → a ≼ b → b ≼ c → a ≼ c
  pub le_total : (a b : F) → (a ≼ b) ⊎ (b ≼ a)
  pub lt-eq-not-le : (a b : F) → f.lt a b ≡ not (f.le b a)
