-- ===== src/Cashflow/Classify.antt =====
-- `Classify` and `BucketOf`.
pub mod Laws
use wealth.Prelude.{Bool, List, Text, [], any, contains_text, if◌then◌else◌, to_upper, ◌++◌, ◌∷◌}
use wealth.Transaction.{TxType, interest, other, tax, transfer}
use wealth.Cashflow.Rules.{
  Bucket, Category, Rule, fixed, housing, income, insurance, interest, internal, investment, other,
  refund, rules, salary, subscriptions, tax, transfer, utilities, variable,
}

unfoldable pub bucket_of : Category → Bucket
bucket_of salary = income
bucket_of interest = income
bucket_of refund = income
bucket_of housing = fixed
bucket_of utilities = fixed
bucket_of insurance = fixed
bucket_of subscriptions = fixed
bucket_of investment = transfer
bucket_of internal = transfer
bucket_of _ = variable

-- The inner loop.
abbrev pub mentions : Text → List Text → Bool
mentions hay = any (contains_text hay)

-- The outer loop.
unfoldable pub first_match : Text → List Rule → Category
first_match hay [] = other
first_match hay (r ∷ rs) = if mentions hay r.keywords then r.category else first_match hay rs

abbrev pub haystack : Text → Text → Text
haystack counterparty reference = to_upper (counterparty ++ (b' ' ∷ reference))

unfoldable pub classify : TxType → Text → Text → Category
unfolding first_match
classify TxType.interest counterparty reference = interest
classify TxType.dividend counterparty reference = interest
classify TxType.tax counterparty reference = tax
classify TxType.transfer counterparty reference = internal
classify TxType.transfer_out counterparty reference = internal
classify TxType.cash_transfer_in counterparty reference = internal
classify TxType.cash_transfer_out counterparty reference = internal
classify TxType.buy counterparty reference = investment
classify TxType.sell counterparty reference = investment
classify TxType.savings_plan counterparty reference = investment
classify TxType.fee counterparty reference = investment
classify _ counterparty reference = first_match (haystack counterparty reference) rules
