-- ===== src/Examples/Exposure.antt =====
-- internal/analytics/decomposition.go, currency.go and portfolio.go
use wealth.Prelude.{
  List, String, Text, [], get_or, insert, lit, lookup, refl, same, ℕ, ◌∷◌, ◌≡◌, text_eq,
}
use wealth.Prelude.Float.Fixed.{Fixed, fixed_float}
use wealth.Analytics.Exposure.{EtfWithHoldings, Weights, build_overlap_matrix, compute_overlap}
use wealth.Analytics.Exposure.Currency.{HoldingForCurrency, compute_currency_exposure}
use wealth.Analytics.Exposure.Alerts.{compute_concentration_alerts, critical, overlap}

abbrev amount : ℕ → Fixed
amount n = fixed_float.literal n 0

abbrev fund : String → Weights Fixed → EtfWithHoldings Fixed
fund name holdings = record { isin = lit name; name = lit name; holdings = holdings }

abbrev funds : List (EtfWithHoldings Fixed)
funds =
    fund "World" ((lit "AAPL", amount 60) ∷ (lit "MSFT", amount 40) ∷ [])
    ∷ fund "Tech" ((lit "MSFT", amount 30) ∷ (lit "AAPL", amount 70) ∷ [])
    ∷ []

matrix :
    build_overlap_matrix funds ≡ (amount 100 ∷ amount 90 ∷ []) ∷ (amount 90 ∷ amount 100 ∷ []) ∷ []
unfolding build_overlap_matrix lookup same
matrix = refl

-- A stand-in for `fmt.Sprintf`.
abbrev print : ℕ → Fixed → Text
print k x = lit "90%"

overlap_found :
    compute_concentration_alerts print funds [] []
    ≡ record {
      type = overlap;
      level = critical;
      message = lit "World and Tech overlap by 90%";
      value = amount 90;
    }
      ∷ []
unfolding compute_concentration_alerts lookup same compute_overlap
overlap_found = refl

abbrev held : String → ℕ → Weights Fixed → HoldingForCurrency Fixed
held currency value weights = record {
  currency = lit currency;
  market_value = amount value;
  country_weights = weights;
}

currencies :
    compute_currency_exposure (
      held "" 100 []
      ∷ held "USD" 300 ((lit "United States", amount 60) ∷ (lit "Germany", amount 20) ∷ [])
      ∷ [])
    ≡ record { currency = lit "USD"; value = amount 225; pct = fixed_float.literal 5625 2 }
      ∷ record { currency = lit "EUR"; value = amount 175; pct = fixed_float.literal 4375 2 }
      ∷ []
unfolding compute_currency_exposure get_or insert same
currencies = refl

-- Weights that sum to nothing count for the empty currency.
no_currency :
    compute_currency_exposure (held "" 100 ((lit "Germany", amount 0) ∷ []) ∷ [])
    ≡ record { currency = []; value = amount 100; pct = amount 100 } ∷ []
unfolding compute_currency_exposure get_or insert same
no_currency = refl
