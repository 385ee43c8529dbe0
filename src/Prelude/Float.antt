-- ===== src/Prelude/Float.antt =====
-- Go's `float64`: the operations that the program uses, as a parameter, and the laws of IEEE 754
-- that some theorems rest on. `Fixed` is an instance that runs: numbers with eight decimals.
pub mod Fixed
pub mod Order
pub mod FixedOrder
pub mod Cents
pub mod Nan
use Prim.Native.Nat.{ℕ}
use mathlib.Core.Bool.{Bool}
use wealth.Prelude.Tests.{if◌then◌else◌}

pub record Float64 (F : Type 0) : Type 0 where
  -- The literal n / 10 ^ k.
  pub literal : ℕ → ℕ → F
  pub add : F → F → F
  pub sub : F → F → F
  pub mul : F → F → F
  pub div : F → F → F
  pub lt : F → F → Bool
  pub le : F → F → Bool
  pub eq : F → F → Bool
  -- `math.Round` and `math.Floor`
  pub round : F → F
  pub floor : F → F

module _ {F : Type 0} ⦃f : Float64 F⦄ where
  infixl 65 ◌⊕◌ ◌⊖◌
  infixl 70 ◌⊗◌ ◌⊘◌
  infix 50 ◌<?◌ ◌≤?◌ ◌=?◌
  abbrev pub ◌⊕◌ : F → F → F
  ◌⊕◌ = f.add

  abbrev pub ◌⊖◌ : F → F → F
  ◌⊖◌ = f.sub

  abbrev pub ◌⊗◌ : F → F → F
  ◌⊗◌ = f.mul

  abbrev pub ◌⊘◌ : F → F → F
  ◌⊘◌ = f.div

  abbrev pub ◌<?◌ : F → F → Bool
  ◌<?◌ = f.lt

  abbrev pub ◌≤?◌ : F → F → Bool
  ◌≤?◌ = f.le

  abbrev pub ◌=?◌ : F → F → Bool
  ◌=?◌ = f.eq

  abbrev pub nought : F
  nought = f.literal 0 0

  -- `-x`
  abbrev pub negate : F → F
  negate x = nought ⊖ x

  -- `math.Abs`
  abbrev pub magnitude : F → F
  magnitude x = if x <? nought then negate x else x

  -- `math.Min` and `math.Max`, of numbers
  abbrev pub fmin : F → F → F
  fmin x y = if y <? x then y else x

  abbrev pub fmax : F → F → F
  fmax x y = if x <? y then y else x

  -- `math.Round(x*100) / 100`
  abbrev pub to_cents : F → F
  to_cents x = f.round (x ⊗ f.literal 100 0) ⊘ f.literal 100 0

  -- `math.Round(x*10) / 10`
  abbrev pub to_tenths : F → F
  to_tenths x = f.round (x ⊗ f.literal 10 0) ⊘ f.literal 10 0
