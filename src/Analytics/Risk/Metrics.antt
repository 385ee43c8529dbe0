-- ===== src/Analytics/Risk/Metrics.antt =====
-- internal/analytics/risk.go: `ComputeRiskMetrics` and `ComputeRollingMetrics`.
use wealth.Prelude.{
  List, Option, Text, [], drop, get_elem?, if◌then◌else◌, leb, length, lit, ltb, none, some, suc,
  take, zero, ℕ, ◌++◌, ◌+◌, ◌-◌, ◌/◌, ◌==◌, ◌||◌, ◌∷◌, text_eq, nat_eq,
}
use wealth.Prelude.Float.{Float64, nought, to_cents, to_tenths, ◌<?◌, ◌≤?◌, ◌⊕◌, ◌⊖◌, ◌⊗◌, ◌⊘◌}
use wealth.Analytics.Performance.{DailyValuation}
use wealth.Analytics.Risk.{
  RiskMetrics, compute_drawdown_series, daily_returns, max_drawdown, mean, skip_ramp_up,
  smooth_outliers, squares_from,
}

module _ (F : Type 0) where
  pub record RollingMetric : Type 0 where
    pub date : Option ℕ
    pub volatility : F
    pub sharpe : F

-- `int(ddEnd.Sub(ddStart).Hours() / 24)`, of dates in order
abbrev days_of : Option (ℕ × ℕ) → ℕ
days_of none = 0
days_of (some (start, end)) = end - start

abbrev start_date : Option (ℕ × ℕ) → Option ℕ
start_date none = none
start_date (some (start, end)) = some start

abbrev end_date : Option (ℕ × ℕ) → Option ℕ
end_date none = none
end_date (some (start, end)) = some end

module _ {F : Type 0} ⦃f : Float64 F⦄ where
  abbrev trading_days_per_year : F
  trading_days_per_year = f.literal 252 0

  -- The squares below the daily rate, and how many they are.
  unfoldable pub downside : F → List F → F × ℕ → F × ℕ
  downside rate [] s = s
  downside rate (r ∷ returns) (sum, n) =
      downside rate returns
        (if r <? rate then (sum ⊕ ((r ⊖ rate) ⊗ (r ⊖ rate)), suc n) else (sum, n))

  abbrev higher : F × Option ℕ → DailyValuation F → F × Option ℕ
  higher (ath, date) s = if ath <? s.value then (s.value, some s.date) else (ath, date)

  unfoldable pub all_time_high_of : List (DailyValuation F) → F × Option ℕ → F × Option ℕ
  all_time_high_of [] best = best
  all_time_high_of (s ∷ snapshots) best = all_time_high_of snapshots (higher best s)

  abbrev pub no_metrics : RiskMetrics F
  no_metrics = record {
    annualized_volatility = nought;
    sharpe_ratio = nought;
    sortino_ratio = nought;
    max_drawdown = nought;
    max_drawdown_start = none;
    max_drawdown_end = none;
    max_drawdown_days = 0;
    value_at_risk_95 = nought;
    current_drawdown = nought;
    all_time_high = nought;
    ath_date = none;
    drawdown_series = [];
  }

  -- `math.Round(x*10000) / 100`
  abbrev to_percent : F → F
  to_percent x = f.round (x ⊗ f.literal 10000 0) ⊘ f.literal 100 0

  module _ (sqrt : F → F) where
    unfoldable pub stddev : List F → F → F
    unfolding squares_from
    stddev values avg =
        if ltb (length values) 2
        then nought
        else sqrt (squares_from avg nought values ⊘ f.literal (length values - 1) 0)

    unfoldable pub annualized_volatility : List F → F
    unfolding stddev mean
    annualized_volatility returns = stddev returns (mean returns) ⊗ sqrt trading_days_per_year

    unfoldable pub sortino_ratio : List F → F → F → F
    unfolding downside
    sortino_ratio returns risk_free_rate annual_return =
        let (sum, n) = downside (risk_free_rate ⊘ trading_days_per_year) returns (nought, 0) in
        let deviation = sqrt (sum ⊘ f.literal (length returns) 0) ⊗ sqrt trading_days_per_year in
        if n == 0
        then nought
        else if deviation ≤? nought
        then nought
        else (annual_return ⊖ risk_free_rate) ⊘ deviation

    -- The statistics of smoothed values and their returns.
    abbrev metrics_of : List (DailyValuation F) → List F → F → F → RiskMetrics F
    metrics_of smoothed returns risk_free_rate current_value =
        let vol = annualized_volatility returns in
        let annual_return = mean returns ⊗ trading_days_per_year in
        let (dates, max_dd) = max_drawdown smoothed in
        let (ath, ath_date) = all_time_high_of smoothed (nought, none) in
        record {
          annualized_volatility = to_percent vol;
          sharpe_ratio =
              to_cents (if nought <? vol then (annual_return ⊖ risk_free_rate) ⊘ vol else nought);
          sortino_ratio = to_cents (sortino_ratio returns risk_free_rate annual_return);
          max_drawdown = to_percent max_dd;
          max_drawdown_start = start_date dates;
          max_drawdown_end = end_date dates;
          max_drawdown_days = days_of dates;
          value_at_risk_95 =
              to_cents (
                current_value
                ⊗ (mean returns ⊖ (f.literal 1645 3 ⊗ stddev returns (mean returns))));
          current_drawdown =
              to_cents
                (if nought <? ath then ((ath ⊖ current_value) ⊘ ath) ⊗ f.literal 100 0 else nought);
          all_time_high = to_cents ath;
          ath_date = ath_date;
          drawdown_series = compute_drawdown_series smoothed;
        }

    unfoldable pub compute_risk_metrics : List (DailyValuation F) → F → F → RiskMetrics F
    unfolding annualized_volatility sortino_ratio all_time_high_of
    compute_risk_metrics snapshots risk_free_rate current_value =
        let late = skip_ramp_up snapshots in
        let smoothed = smooth_outliers late in
        let returns = daily_returns smoothed in
        if ltb (length snapshots) 2 || ltb (length late) 2 || ltb (length returns) 1
        then no_metrics
        else metrics_of smoothed returns risk_free_rate current_value

    -- The point of the window that ends before index `i` of the returns.
    abbrev rolling_metric : List (DailyValuation F) → List F → F → ℕ → ℕ → RollingMetric F
    rolling_metric smoothed returns risk_free_rate window i =
        let slice = take window (drop (i - window) returns) in
        let avg = mean slice in
        let std = stddev slice avg in
        let index = if leb (length smoothed) i then length smoothed - 1 else i in
        record {
          date = elim (get_elem? smoothed index) [ none ↦ none | some s ↦ some s.date ];
          volatility = to_tenths ((std ⊗ sqrt trading_days_per_year) ⊗ f.literal 100 0);
          sharpe = to_cents (
              if nought <? std
              then ((avg ⊗ trading_days_per_year) ⊖ risk_free_rate)
                ⊘ (std ⊗ sqrt trading_days_per_year)
              else nought);
        }

    -- The loop over the windows of one length. Its index grows in every round, so that as many rounds
    -- as there are returns are enough.
    unfoldable pub rolling_from :
        ℕ → List (DailyValuation F) → List F → F → ℕ → ℕ → ℕ → List (RollingMetric F)
    unfolding stddev mean
    rolling_from zero smoothed returns risk_free_rate window step i = []
    rolling_from (suc fuel) smoothed returns risk_free_rate window step i =
        let rest = rolling_from fuel smoothed returns risk_free_rate window step (i + step) in
        if leb i (length returns)
        then rolling_metric smoothed returns risk_free_rate window i ∷ rest
        else []

    -- The series of one window, if it has a point.
    abbrev rolling_series :
        List (DailyValuation F) → List F → F → Text × ℕ → List (Text × List (RollingMetric F))
    rolling_series smoothed returns risk_free_rate (label, window) =
        if ltb (length returns) window
        then []
        else (
          label,
          rolling_from (suc (length returns)) smoothed returns risk_free_rate window
              (if ltb (window / 10) 1 then 1 else window / 10) window,
        )
          ∷ []

    -- The map from the labels of the windows, in the order of its keys; empty where the source gives nil.
    unfoldable pub compute_rolling_metrics :
        List (DailyValuation F) → F → List (Text × List (RollingMetric F))
    unfolding rolling_from
    compute_rolling_metrics snapshots risk_free_rate =
        let late = skip_ramp_up snapshots in
        let smoothed = smooth_outliers late in
        let returns = daily_returns smoothed in
        let series = rolling_series smoothed returns risk_free_rate in
        if ltb (length snapshots) 60 || ltb (length late) 60 || ltb (length returns) 60
        then []
        else series (lit "30d", 30) ++ series (lit "90d", 90) ++ series (lit "365d", 252)
