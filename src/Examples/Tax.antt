-- ===== src/Examples/Tax.antt =====
-- internal/analytics/tax.go
use wealth.Prelude.{
  any, contains, ◌==◌, All, List, Text, [], arith, drop, false, get_or, insert, lit, lookup, map,
  none, refl, same, true, ℕ, ◌&&◌, ◌∷◌, ◌≡◌, ◌⊎◌, text_eq, nat_eq,
}
use wealth.Prelude.Float.{nought, ◌≤?◌}
use wealth.Prelude.Float.Order.{◌≼◌}
use wealth.Prelude.Float.Fixed.{Fixed, fixed_float}
use wealth.Prelude.Float.FixedOrder.{Fixed-IsMonotone, Fixed-IsOrdered}
use wealth.Transaction.{TxType}
use wealth.Analytics.AverageCost.{add_lot, take_lot}
use wealth.Analytics.Tax.Rates.{TaxTransaction, sparerpauschbetrag}
use wealth.Analytics.Tax.Summary.{
  add_transactions, assess, compute_tax_summary, empty_ledger, raw_gain,
}
use wealth.Analytics.Tax.Summary.Allowance.{compute_tax_summary_bounds}
use wealth.Analytics.Tax.Lots.{OpenLot, TaxLot, compute_tax_lots, consume, track_lots}
use wealth.Analytics.Tax.Lots.Fifo.{AreOpen, track_lots-AreOpen}
use wealth.Analytics.Tax.LossPots.{pot_transactions, compute_loss_pots, empty_pots, pot_transaction}
use wealth.Analytics.Tax.LossPots.Carry.{
  CarriesLoss, CarriesOn, IsAscending, compute_loss_pots-years, report_years,
}
use wealth.Analytics.Tax.LossPots.Separate.{
  is_equity_sale, is_general_income, pot_transaction-separate,
}
use wealth.Analytics.Tax.Lots.Pieces.{IsCounting, WholeLot, as_lot, consume-pieces, pieces}
use wealth.Analytics.Tax.Sell.{SellRequest}
use wealth.Analytics.Tax.Vorabpauschale.{compute_vorabpauschale}
use wealth.Analytics.Tax.Vorabpauschale.Bounds.{IsBounded, compute_vorabpauschale-IsBounded}

abbrev whole : ℕ → Fixed
whole n = fixed_float.literal n 0

abbrev world : Text
world = lit "IE00B4L5Y983"

abbrev row : TxType → ℕ → ℕ → ℕ → TaxTransaction Fixed
row type year quantity amount = record {
  year = year;
  type = type;
  isin = world;
  name = lit "World";
  quantity = whole quantity;
  amount = whole amount;
  is_equity_fund = true;
}

-- Two purchases, and a sale of the first lot and half of the second.
abbrev rows : List (TaxTransaction Fixed)
rows =
    row TxType.buy 2021 10 1000
    ∷ row TxType.buy 2022 10 2000
    ∷ row TxType.sell 2023 15 9000
    ∷ row TxType.dividend 2023 0 100
    ∷ []

abbrev left : List (OpenLot Fixed)
left = record { buy_year = 2022; qty = whole 5; cost_per = whole 200 } ∷ []

first_in_first_out : track_lots rows [] ≡ (world, left) ∷ []
unfolding track_lots lookup get_or insert same
first_in_first_out = refl

-- (9000 - 15 * 150) * 0.7 + 100 * 0.4: the exempt 30 % of the dividend are taken off twice.
tax_of_2023 : (compute_tax_summary rows 2023).taxable_gain ≡ fixed_float.literal 4765 0
unfolding compute_tax_summary assess add_lot take_lot lookup get_or insert same
tax_of_2023 = refl

compute_tax_summary_bounds_example :
    let s = compute_tax_summary rows 2023 in
    (nought ≼ s.taxable_gain)
    × (nought ≼ s.freistellung_used)
    × (s.freistellung_used ≼ sparerpauschbetrag)
    × (s.freistellung_used ≼ s.taxable_gain)
    × (nought ≼ s.freistellung_remain)
    × (s.freistellung_remain ≼ sparerpauschbetrag)
    × (nought ≼ s.estimated_tax)
    × ((raw_gain (add_transactions 2023 rows empty_ledger) ≤? sparerpauschbetrag) ≡ false
        ⊎ s.estimated_tax ≡ nought)
compute_tax_summary_bounds_example = compute_tax_summary_bounds Fixed-IsOrdered rows 2023

Fixed-IsCounting : IsCounting Fixed
Fixed-IsCounting = record {
  le_whole = λ m n h k. ground arith;
  lt_whole = λ n h. ground arith;
  sub_whole = λ m n h k. ground arith;
}

abbrev held : List (WholeLot Fixed)
held =
    record { buy_year = 2019; count = 4; cost_per = whole 10 }
    ∷ record { buy_year = 2020; count = 3; cost_per = whole 20 }
    ∷ record { buy_year = 2021; count = 5; cost_per = whole 30 }
    ∷ []

consume-pieces_example :
    (rest : List (WholeLot Fixed)) × (consume (whole 6) (map as_lot held) ≡ map as_lot rest)
    × (pieces rest ≡ drop 6 (pieces held))
consume-pieces_example =
    consume-pieces Fixed-IsCounting 6 held (omega arith)
      (omega arith, (omega arith, (omega arith, tt)))

track_lots-AreOpen_example : AreOpen (track_lots rows [])
track_lots-AreOpen_example = track_lots-AreOpen Fixed-IsOrdered rows [] tt

compute_loss_pots-years_example :
    let report = compute_loss_pots rows in
    IsAscending none (report_years report)
    × ((y : ℕ) → contains (report_years report) y ≡ any (λ t. t.year == y) rows)
    × All (CarriesLoss Fixed-IsOrdered) report
    × CarriesOn Fixed-IsOrdered (pot_transactions rows empty_pots) nought nought report
compute_loss_pots-years_example = compute_loss_pots-years Fixed-IsOrdered Fixed-IsMonotone rows

pot_transaction-separate_example :
    let sale = row TxType.sell 2023 15 9000 in
    let after = pot_transaction TxType.sell sale empty_pots in
    (after.equity ≡ empty_pots.equity ⊎ is_equity_sale TxType.sell sale ≡ true)
    × (after.general ≡ empty_pots.general ⊎ is_general_income TxType.sell sale ≡ true)
    × ((is_equity_sale TxType.sell sale && is_general_income TxType.sell sale) ≡ false)
pot_transaction-separate_example =
    pot_transaction-separate TxType.sell (row TxType.sell 2023 15 9000) empty_pots

abbrev lots : List (TaxLot Fixed)
lots = compute_tax_lots ((world, whole 300) ∷ []) [] ((world, true) ∷ []) rows

abbrev request : SellRequest Fixed
request = record { isin = world; amount_eur = whole 600 }

compute_vorabpauschale-IsBounded_example :
    All
      (IsBounded Fixed-IsOrdered)
      (compute_vorabpauschale 2023 ((world, whole 1000) ∷ []) ((world, whole 1100) ∷ []) [])
compute_vorabpauschale-IsBounded_example =
    compute_vorabpauschale-IsBounded Fixed-IsOrdered 2023 ((world, whole 1000) ∷ [])
      ((world, whole 1100) ∷ []) []
