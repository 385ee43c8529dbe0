-- ===== src/Prelude/Float/Nan.antt =====
-- Numbers with eight decimals and a NaN, `none`: every operation on a NaN gives a NaN, and so does a
-- division by 0; no comparison holds of one. `IsIeee` holds of them.
use mathlib.Core.Bool.{Bool, true, false}
use mathlib.Core.Option.{Option, none, some}
use mathlib.Core.Path.{◌≡◌, refl}
use native.Mathlib.Omega.{arith}
use wealth.Prelude.Tests.{if◌then◌else◌}
use wealth.Prelude.Float.{Float64, nought, to_cents}
use wealth.Prelude.Float.Fixed.{Fixed, fixed_float}
use wealth.Prelude.Float.FixedOrder.{Fixed-IsOrdered}
use wealth.Prelude.Float.Order.{IsIeee}
use wealth.Prelude.Float.Cents.{cents_nonneg}

abbrev each : (Fixed → Fixed) → Option Fixed → Option Fixed
each g none = none
each g (some x) = some (g x)

abbrev both : (Fixed → Fixed → Fixed) → Option Fixed → Option Fixed → Option Fixed
both g (some x) (some y) = some (g x y)
both g _ _ = none

abbrev compared : (Fixed → Fixed → Bool) → Option Fixed → Option Fixed → Bool
compared g (some x) (some y) = g x y
compared g _ _ = false

abbrev divided : Option Fixed → Option Fixed → Option Fixed
divided (some x) (some y) =
    if fixed_float.eq y (fixed_float.literal 0 0) then none else some (fixed_float.div x y)
divided _ _ = none

instance abbrev pub nan_float : Float64 (Option Fixed)
nan_float = record {
  literal = λ n k. some (fixed_float.literal n k);
  add = both fixed_float.add;
  sub = both fixed_float.sub;
  mul = both fixed_float.mul;
  div = divided;
  lt = compared fixed_float.lt;
  le = compared fixed_float.le;
  eq = compared fixed_float.eq;
  round = each fixed_float.round;
  floor = each fixed_float.floor;
}

cents_not_neg :
    (x : Fixed)
    → fixed_float.lt x (fixed_float.literal 0 0) ≡ false
    → fixed_float.lt (to_cents ⦃f = fixed_float⦄ x) (fixed_float.literal 0 0) ≡ false
cents_not_neg x h = ground (
  arith,
  cents_nonneg Fixed-IsOrdered x,
  Fixed-IsOrdered.lt-eq-not-le x nought,
  Fixed-IsOrdered.lt-eq-not-le (to_cents x) nought,
)

pub nan-IsIeee : IsIeee (Option Fixed) ⦃f = nan_float⦄
nan-IsIeee = record {
  lt_irrefl = irrefl;
  le_trans = trans;
  le-not-lt = not_lt;
  literal_not_neg = λ n k. ground arith;
  negate_not_neg = negated;
  add_not_neg = added;
  mul_not_neg = multiplied;
  to_cents_not_neg = cents;
  to_cents_nought = refl;
}
  where
    irrefl : (x : Option Fixed) → nan_float.lt x x ≡ false
    irrefl none = refl
    irrefl (some x) = ground arith

    trans :
        (x y z : Option Fixed)
        → nan_float.le x y ≡ true
        → nan_float.le y z ≡ true
        → nan_float.le x z ≡ true
    trans (some x) (some y) (some z) h k = Fixed-IsOrdered.le_trans x y z h k
    trans none y z h k = ground arith
    trans (some x) none z h k = ground arith
    trans (some x) (some y) none h k = ground arith

    not_lt : (x y : Option Fixed) → nan_float.le x y ≡ true → nan_float.lt y x ≡ false
    not_lt (some x) (some y) h = ground arith
    not_lt none y h = ground arith
    not_lt (some x) none h = ground arith

    negated :
        (x : Option Fixed)
        → nan_float.lt x (nan_float.literal 0 0) ≡ true
        → nan_float.lt (nan_float.sub (nan_float.literal 0 0) x) (nan_float.literal 0 0) ≡ false
    negated none h = refl
    negated (some x) h = ground arith

    added :
        (x y : Option Fixed)
        → nan_float.lt x (nan_float.literal 0 0) ≡ false
        → nan_float.lt y (nan_float.literal 0 0) ≡ false
        → nan_float.lt (nan_float.add x y) (nan_float.literal 0 0) ≡ false
    added none y h k = refl
    added (some x) none h k = refl
    added (some x) (some y) h k = ground arith

    multiplied :
        (x y : Option Fixed)
        → nan_float.lt x (nan_float.literal 0 0) ≡ false
        → nan_float.lt y (nan_float.literal 0 0) ≡ false
        → nan_float.lt (nan_float.mul x y) (nan_float.literal 0 0) ≡ false
    multiplied none y h k = refl
    multiplied (some x) none h k = refl
    multiplied (some x) (some y) h k = ground arith

    cents :
        (x : Option Fixed)
        → nan_float.lt x (nan_float.literal 0 0) ≡ false
        → nan_float.lt (to_cents ⦃f = nan_float⦄ x) (nan_float.literal 0 0) ≡ false
    cents none h = refl
    cents (some x) h = cents_not_neg x h
