-- ===== src/Scheduler/Alerts.antt =====
-- `evaluateAlerts` of internal/scheduler/jobs.go, from the loaded rows on: which price alerts are
-- triggered. The text of a message is not modelled, but for the name it shows.
use wealth.Prelude.{
  Bool, List, Option, Text, [], if◌then◌else◌, insert, lit, lookup, none, same, some, value_or, ◌∷◌,
  text_eq,
}
use wealth.Prelude.Float.{Float64, nought, ◌≤?◌}

module _ (F : Type 0) where
  pub record PriceAlert : Type 0 where
    pub id : Text
    pub alert_type : Text
    pub security_isin : Option Text
    pub security_name : Option Text
    pub threshold : F

  -- A latest price; its close may be null.
  pub record LatestPrice : Type 0 where
    pub isin : Text
    pub close : Option F

  -- A notification: the alert, the name in its message, and the value.
  pub record Trigger : Type 0 where
    pub alert : PriceAlert
    pub name : Text
    pub value : F

module _ {F : Type 0} ⦃f : Float64 F⦄ where
  abbrev with_price : LatestPrice F → List (Text × F) → List (Text × F)
  with_price p prices = elim p.close [ none ↦ prices | some close ↦ insert p.isin close prices ]

  unfoldable pub price_map : List (LatestPrice F) → List (Text × F) → List (Text × F)
  price_map [] prices = prices
  price_map (p ∷ rows) prices = price_map rows (with_price p prices)

  abbrev trigger : PriceAlert F → Text → F → Bool → Option (Trigger F)
  trigger alert name value reached =
      if reached then some (record { alert = alert; name = name; value = value }) else none

  -- The price of the security of an alert, against the threshold.
  abbrev on_price :
      (F → F → Bool) → PriceAlert F → List (Text × F) → Option Text → Option (Trigger F)
  on_price reaches alert prices none = none
  on_price reaches alert prices (some isin) = elim (lookup isin prices) [
    | none ↦ none
    | some price ↦
        trigger alert (value_or isin alert.security_name) price (reaches price alert.threshold)
  ]

  unfoldable pub evaluate_alert : F → List (Text × F) → PriceAlert F → Option (Trigger F)
  evaluate_alert net_worth prices alert =
      if same alert.alert_type (lit "price_above")
      then on_price (λ price limit. limit ≤? price) alert prices alert.security_isin
      else if same alert.alert_type (lit "price_below")
      then on_price (λ price limit. price ≤? limit) alert prices alert.security_isin
      else if same alert.alert_type (lit "portfolio_milestone")
      then trigger alert [] net_worth (alert.threshold ≤? net_worth)
      else none

  -- The last snapshot of the net worth, if there is one and it has a total.
  unfoldable pub evaluate_alerts :
      List (LatestPrice F) → Option F → List (PriceAlert F) → List (Trigger F)
  unfolding price_map evaluate_alert
  evaluate_alerts rows net_worth [] = []
  evaluate_alerts rows net_worth (alert ∷ alerts) =
      let rest = evaluate_alerts rows net_worth alerts in
      elim (evaluate_alert (value_or nought net_worth) (price_map rows []) alert) [
        | none ↦ rest
        | some t ↦ t ∷ rest
      ]
