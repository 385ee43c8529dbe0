-- ===== src/Analytics/RealizedPl.antt =====
-- internal/analytics/portfolio.go: `CalculateRealizedPL`, gains by the average cost method.
pub mod BySecurity
use wealth.Prelude.{
  List, Text, [], get_or, if◌then◌else◌, insert, is_empty, none, some, ◌∷◌, text_eq,
}
use wealth.Prelude.Float.{Float64, nought, ◌⊕◌, ◌⊖◌}
use wealth.Transaction.{TxType}
use wealth.Analytics.AverageCost.{Positions, add_lot, take_lot}

module _ (F : Type 0) where
  -- `TransactionForPL`
  pub record PlTransaction : Type 0 where
    pub type : TxType
    pub isin : Text
    pub quantity : F
    pub amount : F

  -- `RealizedPLResult` with the open positions
  pub record PlState : Type 0 where
    pub holdings : Positions F
    pub total_realized_pl : F
    pub by_security : List (Text × F)

module _ {F : Type 0} ⦃f : Float64 F⦄ where
  abbrev pub opened : PlTransaction F → PlState F → PlState F
  opened t s = record s { holdings = add_lot t.isin t.quantity t.amount s.holdings }

  unfoldable pub sold : PlTransaction F → PlState F → PlState F
  sold t s = elim (take_lot t.isin t.quantity s.holdings) [
    | none ↦ s
    | some (holdings, cost_basis) ↦
        let realized_pl = t.amount ⊖ cost_basis in
        record {
          holdings = holdings;
          total_realized_pl = s.total_realized_pl ⊕ realized_pl;
          by_security =
              insert t.isin (get_or t.isin nought s.by_security ⊕ realized_pl) s.by_security;
        }
  ]

  unfoldable pub moved_out : PlTransaction F → PlState F → PlState F
  moved_out t s = elim (take_lot t.isin t.quantity s.holdings) [
    | none ↦ s
    | some (holdings, _) ↦ record s { holdings = holdings }
  ]

  -- The switch on the type.
  unfoldable pub booked : TxType → PlTransaction F → PlState F → PlState F
  unfolding sold moved_out
  booked TxType.buy t s = opened t s
  booked TxType.savings_plan t s = opened t s
  booked TxType.transfer t s = opened t s
  booked TxType.sell t s = sold t s
  booked TxType.transfer_out t s = moved_out t s
  booked _ t s = s

  -- One round of the loop.
  unfoldable pub step : PlTransaction F → PlState F → PlState F
  unfolding booked
  step t s = if is_empty t.isin then s else booked t.type t s

  unfoldable pub run : List (PlTransaction F) → PlState F → PlState F
  unfolding step
  run [] s = s
  run (t ∷ ts) s = run ts (step t s)

  unfoldable pub calculate_realized_pl : List (PlTransaction F) → F × List (Text × F)
  unfolding run
  calculate_realized_pl txns =
      let end = run txns (record { holdings = []; total_realized_pl = nought; by_security = [] }) in
      (end.total_realized_pl, end.by_security)
