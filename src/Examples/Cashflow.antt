-- ===== src/Examples/Cashflow.antt =====
-- internal/cashflow and internal/handler/cashflow.go
use wealth.Prelude.{
  List, Text, [], contains_text, has_prefix, lit, map, refl, to_upper, true, ℕ, ◌↔◌, ◌∷◌, ◌≡◌, ◌≢◌,
  text_eq, nat_eq,
}
use wealth.Transaction.{TxType}
use wealth.Cashflow.Rules.{groceries, subscriptions, transfer, utilities}
use wealth.Cashflow.Classify.{bucket_of, classify, haystack}
use wealth.Cashflow.Classify.Laws.{bucket_of-classify-transfer_iff, classify-to_upper, is_own_move}
use mathlib.Core.List.{Perm}
use wealth.Prelude.Float.Fixed.{Fixed, fixed_float}
use wealth.Prelude.Float.FixedOrder.{Fixed-IsOrdered}
use wealth.Handler.Cashflow.{MonthlyTotals, compute_medians, shallow_sort, sink}
use wealth.Handler.Cashflow.Sorted.{IsAscending, shallow_sort-IsAscending}
use wealth.Cashflow.Shadowed.{classify_shadowed}

abbrev patreon : Text
patreon = lit "Patreon Inc"

seen_as_utility : classify TxType.withdrawal patreon (lit "membership") ≡ utilities
unfolding classify contains_text has_prefix to_upper
seen_as_utility = refl

bucket_of-classify-transfer_iff_example :
    (bucket_of (classify TxType.fee patreon []) ≡ transfer) ↔ (is_own_move TxType.fee ≡ true)
bucket_of-classify-transfer_iff_example = bucket_of-classify-transfer_iff TxType.fee patreon []

classify-to_upper_example :
    classify TxType.withdrawal (to_upper patreon) (to_upper (lit "a"))
    ≡ classify TxType.withdrawal patreon (lit "a")
classify-to_upper_example = classify-to_upper TxType.withdrawal patreon (lit "a")

classify_shadowed_example :
    let hay = haystack patreon (lit "a") in
    let category = classify TxType.withdrawal patreon (lit "a") in
    (contains_text hay (lit "PATREON") ≡ true → category ≢ subscriptions)
    × (contains_text hay (lit "MARKTKAUF") ≡ true → category ≢ groceries)
classify_shadowed_example = classify_shadowed TxType.withdrawal patreon (lit "a")

abbrev euro : ℕ → Fixed
euro n = fixed_float.literal n 0

abbrev month : ℕ → ℕ → MonthlyTotals Fixed
month earned spent = record {
  month = lit "2024-01";
  income = euro earned;
  fixed = euro spent;
  variable = euro 100;
  transfer = euro 0;
  net = euro 0;
}

abbrev incomes : List Fixed
incomes = map euro (3000 ∷ 1000 ∷ 2500 ∷ 2000 ∷ [])

shallow_sort-IsAscending_example :
    IsAscending (shallow_sort incomes) × Perm (shallow_sort incomes) incomes
shallow_sort-IsAscending_example = shallow_sort-IsAscending Fixed-IsOrdered incomes

-- The month without income does not count.
medians :
    compute_medians (month 3000 900 ∷ month 0 5000 ∷ month 1000 500 ∷ month 2500 700 ∷ [])
    ≡ record {
      monthly_income = euro 2500;
      monthly_spend = euro 800;
      monthly_surplus = euro 1700;
      annual_gross_income = euro 6500;
    }
unfolding compute_medians sink
medians = refl
