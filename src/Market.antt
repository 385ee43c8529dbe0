-- ===== src/Market.antt =====
-- internal/market/ecb.go: `LookupRateForDate`. A date is a number, and the time zone is one.
pub mod Newest
use wealth.Prelude.{
  Bool, List, Option, Text, [], if◌then◌else◌, ltb, none, not, some, ℕ, ◌&&◌, ◌==◌, ◌∷◌, text_eq,
  nat_eq,
}
use wealth.Prelude.Float.{Float64, nought}

pub record HistoricalFxRate (F : Type 0) : Type 0 where
  pub date : ℕ
  pub currency : Text
  pub rate : F

module _ {F : Type 0} where
  -- The rows that the loop does not pass over.
  abbrev pub is_quoted : Text → ℕ → HistoricalFxRate F → Bool
  is_quoted currency target r = (r.currency == currency) && not (ltb target r.date)

  -- `found`, `bestDate` and `bestRate` are one optional row.
  unfoldable pub best_rate :
      Text
      → ℕ
      → Option (HistoricalFxRate F)
      → List (HistoricalFxRate F)
      → Option (HistoricalFxRate F)
  best_rate currency target best [] = best
  best_rate currency target none (r ∷ rs) =
      best_rate currency target (if is_quoted currency target r then some r else none) rs
  best_rate currency target (some b) (r ∷ rs) =
      best_rate currency target
        (some (if is_quoted currency target r && ltb b.date r.date then r else b)) rs

  module _ ⦃f : Float64 F⦄ where
    unfoldable pub lookup_rate_for_date : List (HistoricalFxRate F) → Text → ℕ → F
    unfolding best_rate
    lookup_rate_for_date rates currency target = elim (best_rate currency target none rates) [
      | none ↦ nought
      | some r ↦ r.rate
    ]
