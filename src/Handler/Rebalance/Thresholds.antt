-- ===== src/Handler/Rebalance/Thresholds.antt =====
-- Which trades `computeRebalanceTrades` suggests.
use wealth.Prelude.{Among, List, Text, false, if◌then◌else◌, true, ◌≡◌, ◌⊎◌}
use wealth.Prelude.Float.{Float64, magnitude, negate, nought, ◌<?◌, ◌⊕◌, ◌⊖◌, ◌⊗◌, ◌⊘◌}
use wealth.Prelude.Float.Order.{◌≼◌}
use wealth.Handler.Rebalance.{
  Deficit, RebalanceHolding, RebalanceTrade, buy, deficits_of, holding_of, sell, whole_shares,
}

module _ {F : Type 0} ⦃f : Float64 F⦄ (holdings : List (Text × RebalanceHolding F)) where
  -- By how much a position is below its target, out of a total: negative if it is above.
  abbrev pub shortfall : F → Text × F → F
  shortfall total (isin, pct) = ((total ⊗ pct) ⊘ f.literal 100 0) ⊖ (holding_of isin holdings).value

  -- The size of a shortfall, in what whole shares cost.
  abbrev pub cost_of : F → Text × F → F
  cost_of total (isin, pct) =
      let diff = shortfall total (isin, pct) in
      (whole_shares (holding_of isin holdings).price
        (if diff <? nought then negate diff else diff)).1

  -- The target that a trade is for.
  abbrev pub target_of : RebalanceTrade F → Text × F
  target_of t = (t.isin, t.target_pct)

  module _ (targets : List (Text × F)) where
    -- A purchase for a position below its target, which gets at least one of the deposit.
    abbrev pub IsPurchase : F → F → RebalanceTrade F → Type 0
    IsPurchase total deposit t =
        let gap = shortfall (total ⊕ deposit) (target_of t) in
        let total_gap = (deficits_of holdings (total ⊕ deposit) targets nought).1 in
        Among (target_of t) targets
        × (t.action ≡ buy)
        × ((nought <? gap) ≡ true)
        × ((deposit ⊗ (gap ⊘ total_gap) <? f.literal 1 0) ≡ false)

    -- A trade of at least ten for a position at least fifty off its target, towards the target.
    abbrev pub IsWorthwhile : F → RebalanceTrade F → Type 0
    IsWorthwhile total t =
        let diff = shortfall total (target_of t) in
        Among (target_of t) targets
        × ((magnitude diff <? f.literal 50 0) ≡ false)
        × (f.literal 10 0 ≼ t.amount)
        × (t.action ≡ (if diff <? nought then sell else buy))

    -- A target is met up to fifty, or not worth ten in whole shares, or there is a trade for it.
    abbrev pub IsServed : F → List (RebalanceTrade F) → Text × F → Type 0
    IsServed total trades target =
        ((magnitude (shortfall total target) <? f.literal 50 0) ≡ true)
        ⊎ ((cost_of total target <? f.literal 10 0) ≡ true)
        ⊎ ((t : RebalanceTrade F) × Among t trades × (target_of t ≡ target))

    IsDeficit : F → Deficit F → Type 0
    IsDeficit total d =
        Among (d.isin, d.target_pct) targets
        × (d.gap ≡ shortfall total (d.isin, d.target_pct))
        × ((nought <? d.gap) ≡ true)
