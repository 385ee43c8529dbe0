-- ===== src/Prelude/Float/FixedOrder.antt =====
-- The laws hold of `Fixed`.
use Prim.Native.Nat.{ℕ, zero, suc, ◌+◌, ◌*◌, ◌/◌, ◌^◌, ◌≤◌}
use mathlib.Core.Bool.{true}
use mathlib.Core.Path.{◌≡◌, refl, sym, subst₂}
use native.Mathlib.Omega.{arith}
use wealth.Prelude.Float.{to_cents}
use wealth.Prelude.Float.Fixed.{Fixed, pos, negsuc, signed, fixed_float}
use wealth.Prelude.Float.Order.{IsMonotone, IsOrdered, ◌≼◌}

-- What `to_cents` does to the size of a number.
cents : ℕ → ℕ
cents n = (n * 10 ^ 10 / 10 ^ 8 + 10 ^ 8 / 2) / 10 ^ 8 * 10 ^ 8 * 10 ^ 8 / 10 ^ 10

cents_mono : (m n : ℕ) → m ≤ n → cents m ≤ cents n
unfolding cents
cents_mono m n h = omega arith

to_cents-pos : (n : ℕ) → to_cents (pos n) ≡ pos (cents n)
unfolding cents
to_cents-pos n = ground arith

to_cents-negsuc : (n : ℕ) → to_cents (negsuc n) ≡ signed true (cents (suc n))
unfolding cents
to_cents-negsuc n = ground arith

signed_le_pos : (m n : ℕ) → signed true m ≼ pos n
signed_le_pos zero n = ground arith
signed_le_pos (suc m) n = ground arith

signed_mono : (m n : ℕ) → n ≤ m → signed true m ≼ signed true n
signed_mono zero zero h = refl
signed_mono zero (suc n) h = elim h [ ]
signed_mono (suc m) zero h = ground arith
signed_mono (suc m) (suc n) h = ground arith

to_cents-mono : (x y : Fixed) → x ≼ y → to_cents x ≼ to_cents y
to_cents-mono (pos m) (pos n) h =
    subst₂ ◌≼◌ (sym (to_cents-pos m)) (sym (to_cents-pos n)) (ground (arith, cents_mono m n))
to_cents-mono (pos m) (negsuc n) h = absurd (ground arith)
to_cents-mono (negsuc m) (pos n) h =
    subst₂ ◌≼◌ (sym (to_cents-negsuc m)) (sym (to_cents-pos n))
      (signed_le_pos (cents (suc m)) (cents n))
to_cents-mono (negsuc m) (negsuc n) h =
    subst₂ ◌≼◌ (sym (to_cents-negsuc m)) (sym (to_cents-negsuc n))
      (signed_mono _ _ (cents_mono (suc n) (suc m) (ground arith)))

pub Fixed-IsOrdered : IsOrdered Fixed
Fixed-IsOrdered = record {
  le_refl = λ x. ground arith;
  le_trans = λ x y z h k. ground arith;
  le_total = λ x y. ground arith;
  lt-eq-not-le = λ x y. ground arith;
  literal_nonneg = λ n k. ground arith;
  sub_nonneg = λ x y h. ground arith;
  sub_le = λ x y h. ground arith;
  sub_pos = λ x y h. ground arith;
  sub_self = λ x. ground arith;
  add_nonneg = λ x y h k. ground arith;
  mul_nonneg = λ x y h k. ground arith;
  zero_mul = λ x h. ground arith;
  to_cents_mono = to_cents-mono;
  to_cents_whole = λ n h. ground arith;
}

pub Fixed-IsMonotone : IsMonotone Fixed
Fixed-IsMonotone = record { add_le = λ x y h. ground arith; le_add = λ x y h. ground arith }
