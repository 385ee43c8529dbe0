-- ===== src/Prelude/Float/Order.antt =====
-- Laws of IEEE 754 for comparisons and for arithmetic that rounds. `IsOrdered` is about values that
-- are no NaN, where no operation overflows or is invalid, and so is `IsMonotone`; `IsIeee` holds of all values, since no
-- comparison holds of a NaN.
use mathlib.Core.Bool.{false, true, not}
use Prim.Native.Nat.{ℕ, ◌<◌, ◌^◌}
use mathlib.Core.Path.{◌≡◌}
use mathlib.Core.Logic.{◌⊎◌}
use wealth.Prelude.Float.{Float64, ◌⊕◌, ◌⊖◌, ◌⊗◌, ◌<?◌, ◌≤?◌, negate, nought, to_cents}

infix 4 ◌≼◌
abbrev pub ◌≼◌ : {F : Type 0} ⦃f : Float64 F⦄ → F → F → Type 0
◌≼◌ ⦃f⦄ x y = f.le x y ≡ true

pub record IsOrdered (F : Type 0) ⦃f : Float64 F⦄ : Type 0 where
  pub le_refl : (x : F) → x ≼ x
  pub le_trans : (x y z : F) → x ≼ y → y ≼ z → x ≼ z
  pub le_total : (x y : F) → (x ≼ y) ⊎ (y ≼ x)
  pub lt-eq-not-le : (x y : F) → (x <? y) ≡ not (y ≤? x)
  pub literal_nonneg : (n k : ℕ) → nought ≼ f.literal n k
  -- A difference has the sign of the exact one, and is exact between equals.
  pub sub_nonneg : (x y : F) → y ≼ x → nought ≼ x ⊖ y
  pub sub_le : (x y : F) → nought ≼ y → x ⊖ y ≼ x
  pub sub_pos : (x y : F) → (y <? x) ≡ true → (nought <? x ⊖ y) ≡ true
  pub sub_self : (x : F) → x ⊖ x ≡ nought
  -- So has a sum of numbers that are not negative, and a product.
  pub add_nonneg : (x y : F) → nought ≼ x → nought ≼ y → nought ≼ x ⊕ y
  pub mul_nonneg : (x y : F) → nought ≼ x → nought ≼ y → nought ≼ x ⊗ y
  pub zero_mul : (x : F) → nought ≼ x → nought ⊗ x ≡ nought
  -- Rounding to cents is monotone, and leaves whole numbers alone that have nine digits at most.
  pub to_cents_mono : (x y : F) → x ≼ y → to_cents x ≼ to_cents y
  pub to_cents_whole : (n : ℕ) → n < 10 ^ 9 → to_cents (f.literal n 0) ≡ f.literal n 0

-- Adding what is not positive gives no more, adding what is not negative no less.
pub record IsMonotone (F : Type 0) ⦃f : Float64 F⦄ : Type 0 where
  pub add_le : (x y : F) → x ≼ nought → x ⊕ y ≼ y
  pub le_add : (x y : F) → nought ≼ x → y ≼ x ⊕ y

pub record IsIeee (F : Type 0) ⦃f : Float64 F⦄ : Type 0 where
  pub lt_irrefl : (x : F) → (x <? x) ≡ false
  pub le_trans : (x y z : F) → x ≼ y → y ≼ z → x ≼ z
  pub le-not-lt : (x y : F) → x ≼ y → (y <? x) ≡ false
  -- What is not below 0, and may be NaN.
  pub literal_not_neg : (n k : ℕ) → (f.literal n k <? nought) ≡ false
  pub negate_not_neg : (x : F) → (x <? nought) ≡ true → (negate x <? nought) ≡ false
  pub add_not_neg :
      (x y : F) → (x <? nought) ≡ false → (y <? nought) ≡ false → (x ⊕ y <? nought) ≡ false
  pub mul_not_neg :
      (x y : F) → (x <? nought) ≡ false → (y <? nought) ≡ false → (x ⊗ y <? nought) ≡ false
  pub to_cents_not_neg : (x : F) → (x <? nought) ≡ false → (to_cents x <? nought) ≡ false
  pub to_cents_nought : to_cents (nought {F = F}) ≡ nought
