-- ===== src/Prelude/Float/Fixed.antt =====
-- Signed numbers with eight decimals, cut off towards zero.
use Prim.Native.Nat.{ℕ, zero, suc, ◌+◌, ◌-◌, ◌*◌, ◌/◌, ◌^◌}
use mathlib.Core.Bool.{Bool, true, false}
use wealth.Prelude.Tests.{if◌then◌else◌, ltb, leb, nat_beq}
use wealth.Prelude.Float.{Float64}

-- `negsuc n` is -(n + 1).
pub data Fixed : Type 0 where
  pos : ℕ → Fixed
  negsuc : ℕ → Fixed

abbrev pub pos_part : Fixed → ℕ
pos_part (pos n) = n
pos_part (negsuc n) = 0

abbrev pub neg_part : Fixed → ℕ
neg_part (pos n) = 0
neg_part (negsuc n) = suc n

abbrev pub signed : Bool → ℕ → Fixed
signed false n = pos n
signed true zero = pos 0
signed true (suc n) = negsuc n

abbrev is_negative : Fixed → Bool
is_negative (pos n) = false
is_negative (negsuc n) = true

abbrev differ : Bool → Bool → Bool
differ true b = if b then false else true
differ false b = b

abbrev size : Fixed → ℕ
size a = pos_part a + neg_part a

abbrev pub sub_ℕ : ℕ → ℕ → Fixed
sub_ℕ a b = if leb b a then pos (a - b) else negsuc (b - a - 1)

abbrev pub scale : ℕ
scale = 10 ^ 8

-- half away from zero
abbrev nearest : ℕ → ℕ
nearest n = (n + scale / 2) / scale * scale

abbrev floor_of : Fixed → Fixed
floor_of (pos n) = pos (n / scale * scale)
floor_of (negsuc n) = negsuc ((n / scale + 1) * scale - 1)

instance abbrev pub fixed_float : Float64 Fixed
fixed_float = record {
  literal = λ n k. pos (n * scale / 10 ^ k);
  add = λ a b. sub_ℕ (pos_part a + pos_part b) (neg_part a + neg_part b);
  sub = λ a b. sub_ℕ (pos_part a + neg_part b) (neg_part a + pos_part b);
  mul = λ a b. signed (differ (is_negative a) (is_negative b)) (size a * size b / scale);
  div = λ a b. signed (differ (is_negative a) (is_negative b)) (size a * scale / size b);
  lt = λ a b. ltb (pos_part a + neg_part b) (pos_part b + neg_part a);
  le = λ a b. leb (pos_part a + neg_part b) (pos_part b + neg_part a);
  eq = λ a b. nat_beq (pos_part a + neg_part b) (pos_part b + neg_part a);
  round = λ a. signed (is_negative a) (nearest (size a));
  floor = floor_of;
}
