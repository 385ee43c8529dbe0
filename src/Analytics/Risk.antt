-- ===== src/Analytics/Risk.antt =====
-- internal/analytics/risk.go: risk statistics of a series of daily values. A date is the number of a
-- day, none for the zero time, and `sqrt` is `math.Sqrt`. `Analytics.Performance` has the valuations.
pub mod Drawdown
pub mod Metrics
use wealth.Prelude.{
  Bool, List, Option, [], if◌then◌else◌, length, ltb, none, not, some, suc, ℕ, ◌%◌, ◌&&◌, ◌/◌, ◌==◌,
  ◌||◌, ◌∷◌, text_eq, nat_eq,
}
use wealth.Prelude.Float.{Float64, negate, nought, to_cents, ◌<?◌, ◌⊕◌, ◌⊖◌, ◌⊗◌, ◌⊘◌}
use wealth.Analytics.Performance.{DailyValuation, is_last}

module _ (F : Type 0) where
  pub record DrawdownPoint : Type 0 where
    pub date : ℕ
    pub drawdown : F

  pub record RiskMetrics : Type 0 where
    pub annualized_volatility : F
    pub sharpe_ratio : F
    pub sortino_ratio : F
    pub max_drawdown : F
    pub max_drawdown_start : Option ℕ
    pub max_drawdown_end : Option ℕ
    pub max_drawdown_days : ℕ
    pub value_at_risk_95 : F
    pub current_drawdown : F
    pub all_time_high : F
    pub ath_date : Option ℕ
    pub drawdown_series : List DrawdownPoint

  -- The variables of `maxDrawdown`.
  pub record Descent : Type 0 where
    pub peak : F
    pub peak_date : ℕ
    pub max_dd : F
    pub dd_dates : Option (ℕ × ℕ)

module _ {F : Type 0} ⦃f : Float64 F⦄ where
  unfoldable pub highest_of : List (DailyValuation F) → F → F
  highest_of [] peak = peak
  highest_of (s ∷ snapshots) peak = highest_of snapshots (if peak <? s.value then s.value else peak)

  unfoldable pub skip_below : F → List (DailyValuation F) → List (DailyValuation F)
  skip_below threshold [] = []
  skip_below threshold (s ∷ snapshots) =
      let rest = skip_below threshold snapshots in
      if s.value <? threshold then rest else s ∷ snapshots

  -- The ramp-up is left out: what stands before a tenth of the peak.
  unfoldable pub skip_ramp_up : List (DailyValuation F) → List (DailyValuation F)
  unfolding highest_of skip_below
  skip_ramp_up snapshots = skip_below (highest_of snapshots nought ⊗ f.literal 1 1) snapshots

  -- A change of more than a half from a positive value.
  unfoldable pub is_outlier : F → F → Bool
  is_outlier prev value =
      nought <? prev
      && (let change = (value ⊖ prev) ⊘ prev in
          (f.literal 5 1 <? change || change <? negate (f.literal 5 1)))

  -- The loop of `smoothOutliers`, behind the previous value.
  unfoldable pub smooth_from : F → List (DailyValuation F) → List (DailyValuation F)
  unfolding is_outlier
  smooth_from prev [] = []
  smooth_from prev (s ∷ snapshots) =
      let value = if is_outlier prev s.value then prev else s.value in
      record s { value = value } ∷ smooth_from value snapshots

  unfoldable pub smooth_outliers : List (DailyValuation F) → List (DailyValuation F)
  unfolding smooth_from
  smooth_outliers [] = []
  smooth_outliers (s ∷ snapshots) = s ∷ smooth_from s.value snapshots

  unfoldable pub returns_from : F → List (DailyValuation F) → List F
  returns_from prev [] = []
  returns_from prev (s ∷ snapshots) =
      let rest = returns_from s.value snapshots in
      if nought <? prev then (s.value ⊖ prev) ⊘ prev ∷ rest else rest

  unfoldable pub daily_returns : List (DailyValuation F) → List F
  unfolding returns_from
  daily_returns [] = []
  daily_returns (s ∷ snapshots) = returns_from s.value snapshots

  unfoldable pub sum_from : F → List F → F
  sum_from sum [] = sum
  sum_from sum (v ∷ values) = sum_from (sum ⊕ v) values

  unfoldable pub mean : List F → F
  unfolding sum_from
  mean [] = nought
  mean (v ∷ values) = sum_from nought (v ∷ values) ⊘ f.literal (length (v ∷ values)) 0

  unfoldable pub squares_from : F → F → List F → F
  squares_from avg sum [] = sum
  squares_from avg sum (v ∷ values) = squares_from avg (sum ⊕ ((v ⊖ avg) ⊗ (v ⊖ avg))) values

  -- A round of the loop of `maxDrawdown`.
  unfoldable pub descend : DailyValuation F → Descent F → Descent F
  descend s d =
      let risen =
        if d.peak <? s.value then record d { peak = s.value; peak_date = s.date } else d in
      let drawdown = (risen.peak ⊖ s.value) ⊘ risen.peak in
      if nought <? risen.peak && risen.max_dd <? drawdown
      then record risen { max_dd = drawdown; dd_dates = some (risen.peak_date, s.date) }
      else risen

  unfoldable pub descend_all : List (DailyValuation F) → Descent F → Descent F
  unfolding descend
  descend_all [] d = d
  descend_all (s ∷ snapshots) d = descend_all snapshots (descend s d)

  -- The start and end, if there is a drawdown, and how deep it is.
  unfoldable pub max_drawdown : List (DailyValuation F) → Option (ℕ × ℕ) × F
  unfolding descend_all
  max_drawdown [] = (none, nought)
  max_drawdown (s ∷ snapshots) =
      let d =
        descend_all snapshots
          (record { peak = s.value; peak_date = s.date; max_dd = nought; dd_dates = none }) in
      (d.dd_dates, d.max_dd)

  abbrev percent_of_loss : F → F → F
  percent_of_loss peak value =
      if nought <? peak then negate ((peak ⊖ value) ⊘ peak) ⊗ f.literal 100 0 else nought

  -- The points at every `step`th index, and the last.
  unfoldable pub drawdowns_from : ℕ → ℕ → F → List (DailyValuation F) → List (DrawdownPoint F)
  drawdowns_from step i peak [] = []
  drawdowns_from step i peak (s ∷ snapshots) =
      let peak' = if peak <? s.value then s.value else peak in
      let rest = drawdowns_from step (suc i) peak' snapshots in
      if not (i % step == 0) && not (is_last snapshots)
      then rest
      else record { date = s.date; drawdown = to_cents (percent_of_loss peak' s.value) } ∷ rest

  unfoldable pub compute_drawdown_series : List (DailyValuation F) → List (DrawdownPoint F)
  unfolding drawdowns_from
  compute_drawdown_series [] = []
  compute_drawdown_series (s ∷ snapshots) =
      let n = length (s ∷ snapshots) in
      if ltb n 2
      then []
      else drawdowns_from (if ltb 365 n then n / 365 else 1) 0 s.value (s ∷ snapshots)
