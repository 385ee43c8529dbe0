-- ===== src/Analytics/AverageCost.antt =====
-- Positions at average cost. `CalculateRealizedPL`, `ComputeLossPots` and `ComputeTaxSummary` keep
-- the same map from an ISIN to a quantity and its total cost, and change it in the same two ways.
pub mod Locality
use wealth.Prelude.{
  List, Option, Text, delete, get_or, if◌then◌else◌, insert, lookup, none, some, text_eq,
}
use wealth.Prelude.Float.{Float64, nought, ◌≤?◌, ◌⊕◌, ◌⊖◌, ◌⊗◌, ◌⊘◌}

module _ (F : Type 0) where
  pub record Lot : Type 0 where
    pub quantity : F
    pub total_cost : F

abbrev pub Positions : Type 0 → Type 0
Positions F = List (Text × Lot F)

module _ {F : Type 0} ⦃f : Float64 F⦄ where
  abbrev pub empty_lot : Lot F
  empty_lot = record { quantity = nought; total_cost = nought }

  -- A purchase or a transfer in: `l.quantity += qty; l.totalCost += amt`.
  unfoldable pub add_lot : Text → F → F → Positions F → Positions F
  add_lot isin quantity amount holdings =
      let l = get_or isin empty_lot holdings in
      insert isin (record { quantity = l.quantity ⊕ quantity; total_cost = l.total_cost ⊕ amount })
        holdings

  -- What is left of a lot, and the cost basis of what is taken from it.
  abbrev pub taken : Lot F → F → Lot F × F
  taken l quantity =
      let basis = quantity ⊗ (l.total_cost ⊘ l.quantity) in
      (record { quantity = l.quantity ⊖ quantity; total_cost = l.total_cost ⊖ basis }, basis)

  -- A sale or a transfer out, with the cost basis; `none` if nothing is held, and nothing changes
  -- then. What is left at or below 0.001 is forgotten.
  unfoldable pub take_lot : Text → F → Positions F → Option (Positions F × F)
  take_lot isin quantity holdings = elim (lookup isin holdings) [
    | none ↦ none
    | some l ↦
        if l.quantity ≤? nought
        then none
        else let (rest, basis) = taken l quantity in
          some (
            (if rest.quantity ≤? f.literal 1 3
                then delete isin holdings
                else insert isin rest holdings),
            basis,
          )
  ]
