-- ===== src/Analytics/Attribution.antt =====
-- internal/analytics/classify.go: what a transaction means for a change of net worth.
use wealth.Prelude.{Bool, arith, false, if◌then◌else◌, true, ◌↔◌, ◌≡◌, ◌≢◌}
use wealth.Transaction.{TxType}

pub data Bucket : Type 0 where
  ignore contribution withdrawal dividend interest fee tax : Bucket

pub data Scope : Type 0 where
  portfolio account : Scope

abbrev in_account : Scope → Bucket → Bucket
in_account account b = b
in_account portfolio b = ignore

unfoldable pub classify_for_attribution : TxType → Bool → Scope → Bucket
classify_for_attribution TxType.deposit has_isin scope = contribution
classify_for_attribution TxType.withdrawal has_isin scope = withdrawal
classify_for_attribution TxType.cash_transfer_in has_isin scope = in_account scope contribution
classify_for_attribution TxType.cash_transfer_out has_isin scope = in_account scope withdrawal
classify_for_attribution TxType.transfer has_isin scope =
    if has_isin then contribution else withdrawal
classify_for_attribution TxType.transfer_out has_isin scope = ignore
classify_for_attribution TxType.dividend has_isin scope = dividend
classify_for_attribution TxType.interest has_isin scope = interest
classify_for_attribution TxType.fee has_isin scope = fee
classify_for_attribution TxType.tax has_isin scope = tax
classify_for_attribution _ has_isin scope = ignore

abbrev pub is_cash_transfer : TxType → Bool
is_cash_transfer TxType.cash_transfer_in = true
is_cash_transfer TxType.cash_transfer_out = true
is_cash_transfer _ = false

-- The scope matters for the two cash transfers alone, which the portfolio ignores; the ISIN
-- matters for `transfer` alone.
pub classify_for_attribution-scope :
    (type : TxType) (has_isin other_isin : Bool)
    → let at = classify_for_attribution type in
      ((at has_isin portfolio ≢ at has_isin account) ↔ (is_cash_transfer type ≡ true))
      × (is_cash_transfer type ≡ true → at has_isin portfolio ≡ ignore)
      × (type ≢ TxType.transfer → at has_isin account ≡ at other_isin account)
      × (at true account ≢ at false account → type ≡ TxType.transfer)
unfolding classify_for_attribution
classify_for_attribution-scope TxType.deposit has_isin other_isin = ground arith
classify_for_attribution-scope _ has_isin other_isin = ground arith
