-- ===== src/Examples/Rebalance.antt =====
-- `computeRebalanceTrades` of internal/handler/portfolio.go, and internal/market/ecb.go
use wealth.Prelude.{
  All, List, Text, [], false, get_or, lit, refl, same, some, ℕ, ◌∷◌, ◌≡◌, ◌⊎◌, text_eq, nat_eq,
}
use wealth.Prelude.Float.{nought}
use wealth.Prelude.Float.Fixed.{Fixed, fixed_float}
use wealth.Market.{HistoricalFxRate, is_quoted, lookup_rate_for_date}
use wealth.Market.Newest.{IsBestRate, lookup_rate_for_date-newest}
use wealth.Handler.Rebalance.{RebalanceHolding, RebalanceTrade, compute_rebalance_trades}

abbrev whole : ℕ → Fixed
whole n = fixed_float.literal n 0

abbrev positions : List (Text × RebalanceHolding Fixed)
positions =
    (lit "A", record { value = whole 900; name = lit "World"; price = whole 100 })
    ∷ (lit "B", record { value = whole 100; name = lit "Bonds"; price = whole 30 })
    ∷ []

abbrev targets : List (Text × Fixed)
targets = (lit "A", whole 60) ∷ (lit "B", whole 40) ∷ []

amounts : List (RebalanceTrade Fixed) → List Fixed
amounts [] = []
amounts (t ∷ ts) = t.amount ∷ amounts ts

full_amounts :
    amounts (compute_rebalance_trades positions targets (whole 1000) (whole 0))
    ≡ whole 300 ∷ whole 300 ∷ []
unfolding amounts compute_rebalance_trades get_or same
full_amounts = refl

-- Less than one share can be bought: a trade of nothing comes out.
empty_trade :
    amounts (compute_rebalance_trades positions targets (whole 1000) (whole 20)) ≡ whole 0 ∷ []
unfolding amounts compute_rebalance_trades get_or same
empty_trade = refl

abbrev quote' : ℕ → ℕ → HistoricalFxRate Fixed
quote' date n = record { date = date; currency = lit "USD"; rate = whole n }

abbrev rates : List (HistoricalFxRate Fixed)
rates = quote' 5 1 ∷ quote' 8 2 ∷ quote' 7 3 ∷ []

sunday : lookup_rate_for_date rates (lit "USD") 7 ≡ whole 3
unfolding lookup_rate_for_date same
sunday = refl

lookup_rate_for_date-newest_example :
    ((lookup_rate_for_date rates (lit "USD") 7 ≡ nought)
      × All (λ r. is_quoted (lit "USD") 7 r ≡ false) rates)
    ⊎ ((b : HistoricalFxRate Fixed) × (lookup_rate_for_date rates (lit "USD") 7 ≡ b.rate)
        × IsBestRate (lit "USD") 7 rates (some b))
lookup_rate_for_date-newest_example = lookup_rate_for_date-newest rates (lit "USD") 7
