-- ===== src/Prelude/Float/Cents.antt =====
-- Rounding to cents keeps what is not negative.
use native.Mathlib.Omega.{arith}
use wealth.Prelude.Float.{Float64, nought, to_cents}
use wealth.Prelude.Float.Order.{IsOrdered, ◌≼◌}

module _ {F : Type 0} ⦃f : Float64 F⦄ (laws : IsOrdered F) where
  open laws use {to_cents_mono, to_cents_whole}

  pub cents_nonneg : (x : F) → nought ≼ x → nought ≼ to_cents x
  cents_nonneg x h = rw (to_cents_whole 0 (omega arith)) at (to_cents_mono nought x h)
