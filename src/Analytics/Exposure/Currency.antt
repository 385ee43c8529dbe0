-- ===== src/Analytics/Exposure/Currency.antt =====
-- internal/analytics/currency.go
use wealth.Prelude.{
  List, Text, [], get_or, if◌then◌else◌, insert, is_empty, length, lit, ltb, ◌∷◌, text_eq,
}
use wealth.Prelude.Float.{Float64, nought, ◌<?◌, ◌=?◌, ◌⊕◌, ◌⊗◌, ◌⊘◌}
use wealth.Analytics.Exposure.{Weights}

abbrev pub country_to_currency : List (Text × Text)
country_to_currency =
    (lit "United States", lit "USD")
    ∷ (lit "USA", lit "USD")
    ∷ (lit "US", lit "USD")
    ∷ (lit "Japan", lit "JPY")
    ∷ (lit "United Kingdom", lit "GBP")
    ∷ (lit "UK", lit "GBP")
    ∷ (lit "China", lit "CNY")
    ∷ (lit "Hong Kong", lit "HKD")
    ∷ (lit "Canada", lit "CAD")
    ∷ (lit "Switzerland", lit "CHF")
    ∷ (lit "Australia", lit "AUD")
    ∷ (lit "India", lit "INR")
    ∷ (lit "Taiwan", lit "TWD")
    ∷ (lit "South Korea", lit "KRW")
    ∷ (lit "Korea", lit "KRW")
    ∷ (lit "Brazil", lit "BRL")
    ∷ (lit "Sweden", lit "SEK")
    ∷ (lit "Denmark", lit "DKK")
    ∷ (lit "Norway", lit "NOK")
    ∷ (lit "Singapore", lit "SGD")
    ∷ (lit "South Africa", lit "ZAR")
    ∷ (lit "Mexico", lit "MXN")
    ∷ (lit "Israel", lit "ILS")
    ∷ (lit "Thailand", lit "THB")
    ∷ (lit "Indonesia", lit "IDR")
    ∷ (lit "Malaysia", lit "MYR")
    ∷ (lit "Poland", lit "PLN")
    ∷ (lit "Turkey", lit "TRY")
    ∷ (lit "Saudi Arabia", lit "SAR")
    ∷ (lit "Philippines", lit "PHP")
    ∷ (lit "New Zealand", lit "NZD")
    ∷ (lit "Chile", lit "CLP")
    ∷ (lit "Czech Republic", lit "CZK")
    ∷ (lit "Hungary", lit "HUF")
    ∷ (lit "Colombia", lit "COP")
    ∷ (lit "Peru", lit "PEN")
    ∷ (lit "Romania", lit "RON")
    ∷ (lit "Argentina", lit "ARS")
    ∷ (lit "Germany", lit "EUR")
    ∷ (lit "France", lit "EUR")
    ∷ (lit "Netherlands", lit "EUR")
    ∷ (lit "Italy", lit "EUR")
    ∷ (lit "Spain", lit "EUR")
    ∷ (lit "Belgium", lit "EUR")
    ∷ (lit "Finland", lit "EUR")
    ∷ (lit "Ireland", lit "EUR")
    ∷ (lit "Austria", lit "EUR")
    ∷ (lit "Portugal", lit "EUR")
    ∷ (lit "Greece", lit "EUR")
    ∷ (lit "Luxembourg", lit "EUR")
    ∷ (lit "Estonia", lit "EUR")
    ∷ (lit "Latvia", lit "EUR")
    ∷ (lit "Lithuania", lit "EUR")
    ∷ (lit "Slovakia", lit "EUR")
    ∷ (lit "Slovenia", lit "EUR")
    ∷ (lit "Cyprus", lit "EUR")
    ∷ (lit "Malta", lit "EUR")
    ∷ (lit "Croatia", lit "EUR")
    ∷ (lit "Eurozone", lit "EUR")
    ∷ (lit "Europe", lit "EUR")
    ∷ []

abbrev currency_or_other : Text → Text
currency_or_other country =
    let cur = get_or country [] country_to_currency in if is_empty cur then lit "OTHER" else cur

module _ (F : Type 0) where
  pub record CurrencyExposureEntry : Type 0 where
    pub currency : Text
    pub value : F
    pub pct : F

  pub record HoldingForCurrency : Type 0 where
    pub currency : Text
    pub market_value : F
    pub country_weights : Weights F

module _ {F : Type 0} ⦃f : Float64 F⦄ where
  unfoldable pub market_total : List (HoldingForCurrency F) → F → F
  market_total [] total = total
  market_total (h ∷ holdings) total = market_total holdings (total ⊕ h.market_value)

  unfoldable pub weight_sum : Weights F → F → F
  weight_sum [] sum = sum
  weight_sum ((country, pct) ∷ weights) sum = weight_sum weights (sum ⊕ pct)

  -- `exposure[cur] += value`
  abbrev add_exposure : Text → F → Weights F → Weights F
  add_exposure cur value exposure = insert cur (get_or cur nought exposure ⊕ value) exposure

  -- The value of a holding by its countries.
  unfoldable pub distribute : F → F → Weights F → Weights F → Weights F
  distribute value sum [] exposure = exposure
  distribute value sum ((country, pct) ∷ weights) exposure =
      distribute value sum weights
        (add_exposure (currency_or_other country) ((value ⊗ pct) ⊘ sum) exposure)

  -- Without countries the currency of the trade counts, and the euro without one; of weights that sum
  -- to nothing, it counts as it is.
  unfoldable pub add_holding : HoldingForCurrency F → Weights F → Weights F
  unfolding weight_sum distribute
  add_holding h exposure =
      let sum = weight_sum h.country_weights nought in
      if ltb (length h.country_weights) 1
      then add_exposure (if is_empty h.currency then lit "EUR" else h.currency) h.market_value
          exposure
      else if sum =? nought
      then add_exposure h.currency h.market_value exposure
      else distribute h.market_value sum h.country_weights exposure

  unfoldable pub add_holdings : List (HoldingForCurrency F) → Weights F → Weights F
  unfolding add_holding
  add_holdings [] exposure = exposure
  add_holdings (h ∷ holdings) exposure = add_holdings holdings (add_holding h exposure)

  -- The descending order of the values. Entries of one value stand in an order that the library of Go
  -- leaves open; here it is that of the map.
  unfoldable pub insert_entry :
      CurrencyExposureEntry F → List (CurrencyExposureEntry F) → List (CurrencyExposureEntry F)
  insert_entry e [] = e ∷ []
  insert_entry e (d ∷ entries) =
      let rest = insert_entry e entries in if d.value <? e.value then e ∷ d ∷ entries else d ∷ rest

  unfoldable pub entries_of :
      F → Weights F → List (CurrencyExposureEntry F) → List (CurrencyExposureEntry F)
  unfolding insert_entry
  entries_of total [] entries = entries
  entries_of total ((cur, value) ∷ exposure) entries = entries_of total exposure (
      insert_entry
        (record { currency = cur; value = value; pct = (value ⊘ total) ⊗ f.literal 100 0 }) entries)

  unfoldable pub compute_currency_exposure :
      List (HoldingForCurrency F) → List (CurrencyExposureEntry F)
  unfolding market_total add_holdings entries_of
  compute_currency_exposure holdings =
      let total = market_total holdings nought in
      if total =? nought then [] else entries_of total (add_holdings holdings []) []
