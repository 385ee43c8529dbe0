-- ===== src/Examples/Gains.antt =====
-- internal/analytics/portfolio.go
use wealth.Prelude.{
  List, Text, [], get_or, insert, lit, lookup, refl, same, ℕ, ◌∷◌, ◌≡◌, text_eq, nat_eq,
}
use wealth.Prelude.Float.{nought}
use wealth.Prelude.Float.Fixed.{Fixed, fixed_float}
use wealth.Transaction.{TxType}
use wealth.Analytics.AverageCost.{add_lot, take_lot}
use wealth.Analytics.RealizedPl.{PlTransaction, calculate_realized_pl}
use wealth.Analytics.RealizedPl.BySecurity.{calculate_realized_pl-of_security, of_security}

abbrev whole : ℕ → Fixed
whole n = fixed_float.literal n 0

abbrev world : Text
world = lit "IE00B4L5Y983"

abbrev trade : TxType → Text → ℕ → ℕ → PlTransaction Fixed
trade type isin quantity amount = record {
  type = type;
  isin = isin;
  quantity = whole quantity;
  amount = whole amount;
}

-- Ten for 1000, four of them sold for 600: 600 - 4 * 100.
abbrev trades : List (PlTransaction Fixed)
trades =
    trade TxType.buy world 10 1000
    ∷ trade TxType.buy (lit "US0378331005") 1 200
    ∷ trade TxType.sell world 4 600
    ∷ []

gain : calculate_realized_pl trades ≡ (whole 200, (world, whole 200) ∷ [])
unfolding calculate_realized_pl add_lot take_lot lookup get_or insert same
gain = refl

calculate_realized_pl-of_security_example :
    get_or world nought (calculate_realized_pl trades).1
    ≡ get_or world nought (calculate_realized_pl (of_security world trades)).1
calculate_realized_pl-of_security_example = calculate_realized_pl-of_security trades world
