-- ===== src/Prelude/Scores.antt =====
-- What the code does with floating-point scores, as a parameter, and the laws of their order. They
-- hold of the numbers that are not NaN; the sum of two scores above -∞ has to be one.
use mathlib.Core.Path.{◌≡◌}
use mathlib.Core.Bool.{Bool, true, false}
use mathlib.Core.Option.{Option, none, some}
use Prim.Native.Nat.{ℕ, ◌+◌}
use native.Mathlib.Omega.{arith}
use flashlight.Prelude.Tests.{ltb}

pub record Score {ℓ} (W : Type ℓ) : Type ℓ where
  pub nought : W
  pub neg_infinity : W
  pub plus : W → W → W
  pub gt : W → W → Bool

-- `!(a > b)`
infix 4 ◌≼◌
abbrev pub ◌≼◌ {ℓ} : {W : Type ℓ} ⦃s : Score W⦄ → W → W → Type 0
◌≼◌ ⦃s⦄ a b = s.gt a b ≡ false

abbrev pub IsFinite {ℓ} : {W : Type ℓ} ⦃s : Score W⦄ → W → Type 0
IsFinite ⦃s⦄ a = s.gt a s.neg_infinity ≡ true

pub record IsOrdered {ℓ} (W : Type ℓ) ⦃s : Score W⦄ : Type ℓ where
  pub le_refl : (a : W) → a ≼ a
  pub le_trans : (a b c : W) → a ≼ b → b ≼ c → a ≼ c
  pub le_of_gt : (a b : W) → s.gt a b ≡ true → b ≼ a
  pub plus_mono : (a b c : W) → a ≼ b → s.plus a c ≼ s.plus b c
  pub plus_nought : (a : W) → s.plus a s.nought ≡ a
  pub plus_finite : (a b : W) → IsFinite a → IsFinite b → IsFinite (s.plus a b)

-- The laws can be met: natural numbers, with `none` for -∞.
abbrev pub Whole : Type 0
Whole = Option ℕ

abbrev pub whole_plus : Whole → Whole → Whole
whole_plus (some a) (some b) = some (a + b)
whole_plus (some a) none = none
whole_plus none b = none

abbrev pub whole_gt : Whole → Whole → Bool
whole_gt none b = false
whole_gt (some a) none = true
whole_gt (some a) (some b) = ltb b a

instance abbrev pub whole_score : Score Whole
whole_score = record { nought = some 0; neg_infinity = none; plus = whole_plus; gt = whole_gt }

pub Whole-IsOrdered : IsOrdered Whole
Whole-IsOrdered = ground arith
