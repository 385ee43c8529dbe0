-- ===== src/Examples/Performance.antt =====
-- internal/analytics/performance.go and internal/analytics/risk.go
use wealth.Prelude.{List, [], get_or, if◌then◌else◌, insert, refl, some, true, ℕ, ◌∷◌, ◌≡◌, nat_eq}
use wealth.Prelude.Float.Fixed.{Fixed, fixed_float}
use wealth.Prelude.Float.{negate, nought}
use wealth.Prelude.Float.FixedOrder.{Fixed-IsOrdered}
use wealth.Analytics.Performance.Periods.{IsChain, split_by_cashflows-IsChain}
use wealth.Analytics.Risk.Drawdown.{IsDeepest, IsFound, max_drawdown_exact}
use wealth.Analytics.Risk.Metrics.{compute_risk_metrics}
use wealth.Analytics.Risk.{daily_returns, max_drawdown, skip_ramp_up, smooth_outliers}
use wealth.Analytics.Performance.{
  CashFlow, DailyValuation, calculate_irr, calculate_twr, split_by_cashflows,
}

abbrev number : ℕ → Fixed
number n = fixed_float.literal n 0

-- A stand-in for `math.Pow`: right for the exponents 0 and 1.
abbrev power : Fixed → Fixed → Fixed
power x t = if fixed_float.eq t nought then number 1 else x

-- A thousand is paid, and eleven hundred come back after a year.
abbrev loan : List (CashFlow Fixed)
loan =
    record { date = 0; amount = negate (number 1000) }
    ∷ record { date = 365; amount = number 1100 }
    ∷ []

rate_found : calculate_irr power loan (fixed_float.literal 2 1) ≡ fixed_float.literal 10000001 8
unfolding calculate_irr
rate_found = refl

abbrev on : ℕ → ℕ → DailyValuation Fixed
on date value = record { date = date; value = number value }

abbrev week : List (DailyValuation Fixed)
week = on 2 110 ∷ on 3 220 ∷ on 4 230 ∷ on 5 242 ∷ []

-- A hundred is paid in on day 3.
abbrev paid_in : List (CashFlow Fixed)
paid_in = record { date = 3; amount = number 100 } ∷ []

-- 20 % until day 3, and 10 % from there.
twr : calculate_twr (on 1 100 ∷ week) paid_in ≡ fixed_float.literal 32 2
unfolding calculate_twr get_or insert
twr = refl

split_by_cashflows-IsChain_example :
    IsChain (number 100) (split_by_cashflows (on 1 100 ∷ week) paid_in) (number 242)
split_by_cashflows-IsChain_example =
    split_by_cashflows-IsChain (on 1 100) (on 2 110) (on 3 220 ∷ on 4 230 ∷ on 5 242 ∷ []) paid_in

-- From 220 on day 3 to 110 on day 5, a half; the day without a price is smoothed.
abbrev fall : List (DailyValuation Fixed)
fall = on 2 200 ∷ on 3 220 ∷ on 4 176 ∷ on 5 110 ∷ on 6 0 ∷ on 7 165 ∷ []

fall_smoothed :
    smooth_outliers fall ≡ on 2 200 ∷ on 3 220 ∷ on 4 176 ∷ on 5 110 ∷ on 6 110 ∷ on 7 165 ∷ []
unfolding smooth_outliers
fall_smoothed = refl

fall_found : max_drawdown (smooth_outliers fall) ≡ (some (3, 5), fixed_float.literal 5 1)
unfolding max_drawdown smooth_outliers
fall_found = refl

-- A stand-in for `math.Sqrt`.
metrics_found :
    let metrics = compute_risk_metrics (λ x. x) fall (fixed_float.literal 3 2) (number 165) in
    (metrics.max_drawdown ≡ number 50)
    × (metrics.max_drawdown_days ≡ 2)
    × (metrics.current_drawdown ≡ number 25)
unfolding compute_risk_metrics skip_ramp_up daily_returns smooth_outliers max_drawdown
metrics_found = (refl, refl, refl)

max_drawdown_exact_example :
    let found = max_drawdown (on 2 200 ∷ on 3 220 ∷ on 4 176 ∷ on 5 110 ∷ []) in
    IsFound found (number 200) 2 (on 3 220 ∷ on 4 176 ∷ on 5 110 ∷ [])
    × (fixed_float.le nought found.1 ≡ true)
    × IsDeepest found.1 (number 200) (on 3 220 ∷ on 4 176 ∷ on 5 110 ∷ [])
max_drawdown_exact_example =
    max_drawdown_exact Fixed-IsOrdered (on 2 200) (on 3 220 ∷ on 4 176 ∷ on 5 110 ∷ [])
