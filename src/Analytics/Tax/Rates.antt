-- ===== src/Analytics/Tax/Rates.antt =====
-- The constants of tax.go, `TeilfreistellungRate`, `SellTaxRate`, and `TaxTransaction`.
use wealth.Prelude.{Bool, Text, if◌then◌else◌, ℕ}
use wealth.Prelude.Float.{Float64, nought, ◌<?◌, ◌≤?◌, ◌⊕◌, ◌⊗◌}
use wealth.Transaction.{TxType}

-- `Year` counts from 0; the year 0 is before every transaction.
pub record TaxTransaction (F : Type 0) : Type 0 where
  pub year : ℕ
  pub type : TxType
  pub isin : Text
  pub name : Text
  pub quantity : F
  pub amount : F
  pub is_equity_fund : Bool

module _ {F : Type 0} ⦃f : Float64 F⦄ where
  abbrev pub abgeltungssteuer : F
  abgeltungssteuer = f.literal 25 2

  -- A product of constants, which Go computes exactly before it rounds: 0.25 * 1.055.
  abbrev pub effective_tax_rate : F
  effective_tax_rate = f.literal 26375 5

  abbrev pub sparerpauschbetrag : F
  sparerpauschbetrag = f.literal 1000 0

  abbrev pub teilfreistellung_equity : F
  teilfreistellung_equity = f.literal 30 2

  -- `1 - TeilfreistellungEquity`, a constant too
  abbrev pub taxable_share_equity : F
  taxable_share_equity = f.literal 70 2

  unfoldable pub teilfreistellung_rate : F → F
  teilfreistellung_rate equity_pct =
      if f.literal 51 2 ≤? equity_pct
      then teilfreistellung_equity
      else if f.literal 25 2 ≤? equity_pct
      then f.literal 15 2
      else nought

  -- The two clamps, one after the other.
  abbrev pub clamped_church_rate : F → F
  clamped_church_rate rate =
      let low = if rate <? nought then nought else rate in
      if f.literal 9 2 <? low then f.literal 9 2 else low

  -- `1 + Solidaritaetszuschlag` is a constant.
  unfoldable pub sell_tax_rate : F → F
  sell_tax_rate church_tax_rate =
      abgeltungssteuer ⊗ (f.literal 1055 3 ⊕ clamped_church_rate church_tax_rate)
