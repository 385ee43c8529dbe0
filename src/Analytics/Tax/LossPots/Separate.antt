-- ===== src/Analytics/Tax/LossPots/Separate.antt =====
-- The pots are separate: losses with equity funds touch the one, all else the other.
use wealth.Prelude.{Bool, arith, false, not, true, ◌&&◌, ◌≡◌, ◌⊎◌, text_eq, nat_eq}
use wealth.Prelude.Float.{Float64}
use wealth.Transaction.{TxType}
use wealth.Analytics.Tax.Rates.{TaxTransaction}
use wealth.Analytics.Tax.LossPots.{PotState, pot_transaction}

module _ {F : Type 0} ⦃f : Float64 F⦄ where
  -- The sale of an equity fund.
  abbrev pub is_equity_sale : TxType → TaxTransaction F → Bool
  is_equity_sale TxType.sell t = t.is_equity_fund
  is_equity_sale _ t = false

  -- What the general pot takes in: other sales, dividends and interest.
  abbrev pub is_general_income : TxType → TaxTransaction F → Bool
  is_general_income TxType.sell t = not t.is_equity_fund
  is_general_income TxType.dividend t = true
  is_general_income TxType.interest t = true
  is_general_income _ t = false

  -- One transaction changes one of the pots at most: the equity pot only with the sale of an equity
  -- fund, and the general pot only with another sale, a dividend or interest. No transaction is
  -- both.
  pub pot_transaction-separate :
      (type : TxType) (t : TaxTransaction F) (s : PotState F)
      → let after = pot_transaction type t s in
        (after.equity ≡ s.equity ⊎ is_equity_sale type t ≡ true)
        × (after.general ≡ s.general ⊎ is_general_income type t ≡ true)
        × ((is_equity_sale type t && is_general_income type t) ≡ false)
  unfolding pot_transaction
  pot_transaction-separate _ t s = ground arith
