-- ===== src/Analytics/Exposure/Alerts.antt =====
-- `ComputeConcentrationAlerts` of internal/analytics/portfolio.go. `print_percent` is `fmt.Sprintf` with
-- no decimal or with one, and a percent sign.
use wealth.Prelude.{List, Text, [], get_or, if◌then◌else◌, is_empty, lit, ℕ, ◌++◌, ◌∷◌, text_eq}
use wealth.Prelude.Float.{Float64, ◌=?◌, ◌≤?◌, ◌⊗◌, ◌⊘◌}
use wealth.Analytics.Exposure.{
  EtfWithHoldings, Weighted, Weights, compute_effective_exposure, compute_overlap,
}

pub data AlertType : Type 0 where
  overlap concentration : AlertType

pub data AlertLevel : Type 0 where
  warning critical : AlertLevel

module _ (F : Type 0) where
  pub record Alert : Type 0 where
    pub type : AlertType
    pub level : AlertLevel
    pub message : Text
    pub value : F

module _ {F : Type 0} ⦃f : Float64 F⦄ (print_percent : ℕ → F → Text) where
  unfoldable pub format_pct : F → Text
  format_pct v =
      let s = f.floor (v ⊗ f.literal 10 0) ⊘ f.literal 10 0 in
      if s =? f.floor s then print_percent 0 s else print_percent 1 s

  abbrev pub level_of : F → F → AlertLevel
  level_of limit value = if limit ≤? value then critical else warning

  abbrev pub overlap_alert : EtfWithHoldings F → EtfWithHoldings F → F → Alert F
  overlap_alert a b value = record {
    type = overlap;
    level = level_of (f.literal 90 0) value;
    message = a.name ++ lit " and " ++ b.name ++ lit " overlap by " ++ format_pct value;
    value = value;
  }

  -- The inner loop: a fund with those behind it.
  unfoldable pub alerts_with : EtfWithHoldings F → List (EtfWithHoldings F) → List (Alert F)
  alerts_with a [] = []
  alerts_with a (b ∷ etfs) =
      let value = compute_overlap a.holdings b.holdings in
      let rest = alerts_with a etfs in
      if f.literal 70 0 ≤? value then overlap_alert a b value ∷ rest else rest

  unfoldable pub overlap_alerts : List (EtfWithHoldings F) → List (Alert F)
  unfolding alerts_with format_pct
  overlap_alerts [] = []
  overlap_alerts (a ∷ etfs) = alerts_with a etfs ++ overlap_alerts etfs

  abbrev name_of : List (Text × Text) → Text → Text
  name_of names isin = let name = get_or isin [] names in if is_empty name then isin else name

  abbrev pub concentration_alert : List (Text × Text) → Text → F → Alert F
  concentration_alert names isin value = record {
    type = concentration;
    level = level_of (f.literal 10 0) value;
    message = name_of names isin ++ lit " represents " ++ format_pct value ++ lit " of portfolio";
    value = value;
  }

  unfoldable pub concentration_alerts : List (Text × Text) → Weights F → List (Alert F)
  unfolding format_pct
  concentration_alerts names [] = []
  concentration_alerts names ((isin, pct) ∷ exposure) =
      let value = pct ⊗ f.literal 100 0 in
      let rest = concentration_alerts names exposure in
      if f.literal 5 0 ≤? value then concentration_alert names isin value ∷ rest else rest

  unfoldable pub compute_concentration_alerts :
      List (EtfWithHoldings F) → List (Weighted F) → List (Text × Text) → List (Alert F)
  unfolding overlap_alerts concentration_alerts compute_effective_exposure
  compute_concentration_alerts etfs holdings names =
      overlap_alerts etfs ++ concentration_alerts names (compute_effective_exposure holdings)
