-- ===== src/Handler/Cashflow.antt =====
-- `computeMedians` of internal/handler/cashflow.go: the typical income and spending of a month. The
-- months are the sums that `HandleCashflow` makes.
pub mod Sorted
use wealth.Prelude.{
  Bool, List, Text, [], get_elem?, if◌then◌else◌, keep, length, map, none, some, ℕ, ◌%◌, ◌-◌, ◌/◌,
  ◌==◌, ◌∷◌, nat_eq,
}
use mathlib.Core.List.{reverse}
use wealth.Prelude.Float.{Float64, nought, ◌<?◌, ◌⊕◌, ◌⊖◌, ◌⊘◌}

module _ (F : Type 0) where
  pub record MonthlyTotals : Type 0 where
    pub month : Text
    pub income : F
    pub fixed : F
    pub variable : F
    pub transfer : F
    pub net : F

  pub record MedianSummary : Type 0 where
    pub monthly_income : F
    pub monthly_spend : F
    pub monthly_surplus : F
    pub annual_gross_income : F

module _ {F : Type 0} ⦃f : Float64 F⦄ where
  abbrev has_income : MonthlyTotals F → Bool
  has_income m = nought <? m.income

  -- The inner loop: an element moves down the sorted part, which is listed backwards.
  unfoldable pub sink : F → List F → List F
  sink x [] = x ∷ []
  sink x (y ∷ ys) = let rest = sink x ys in if x <? y then y ∷ rest else x ∷ y ∷ ys

  -- The outer loop, with the sorted part backwards.
  unfoldable pub sort_from : List F → List F → List F
  sort_from [] done = reverse done
  sort_from (x ∷ xs) done = sort_from xs (sink x done)

  unfoldable pub shallow_sort : List F → List F
  shallow_sort xs = sort_from xs []

  -- The element at an index that lies in the list.
  abbrev at : List F → ℕ → F
  at xs i = elim (get_elem? xs i) [ none ↦ nought | some x ↦ x ]

  -- `med`, of a list that is sorted by now.
  unfoldable pub median : List F → F
  median [] = nought
  median (x ∷ xs) =
      let sorted = x ∷ xs in
      let mid = length sorted / 2 in
      if length sorted % 2 == 0
      then (at sorted (mid - 1) ⊕ at sorted mid) ⊘ f.literal 2 0
      else at sorted mid

  unfoldable pub annual_from : List F → F → F
  annual_from [] annual = annual
  annual_from (v ∷ incomes) annual = annual_from incomes (annual ⊕ v)

  -- The closure sorts the slice of the caller, so the year is summed over the sorted incomes.
  unfoldable pub compute_medians : List (MonthlyTotals F) → MedianSummary F
  unfolding shallow_sort sort_from median annual_from
  compute_medians months =
      let paid = keep has_income months in
      let incomes = shallow_sort (map (λ m. m.income) paid) in
      let spends = shallow_sort (map (λ m. m.fixed ⊕ m.variable) paid) in
      let mi = median incomes in
      let ms = median spends in
      record {
        monthly_income = mi;
        monthly_spend = ms;
        monthly_surplus = mi ⊖ ms;
        annual_gross_income = annual_from incomes nought;
      }
