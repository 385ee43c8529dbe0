-- ===== src/Analytics/Tax/Lots.antt =====
-- `ComputeTaxLots`: open lots by first in, first out. A date of purchase is the first day of the year.
pub mod Fifo
pub mod Pieces
use wealth.Prelude.{
  Bool, List, Text, [], false, get_or, if◌then◌else◌, insert, is_empty, lookup, none, some, ℕ, ◌++◌,
  ◌∷◌, text_eq,
}
use wealth.Prelude.Float.{Float64, nought, to_cents, to_tenths, ◌<?◌, ◌=?◌, ◌≤?◌, ◌⊖◌, ◌⊗◌, ◌⊘◌}
use wealth.Transaction.{TxType}
use wealth.Analytics.Tax.Rates.{TaxTransaction, effective_tax_rate, taxable_share_equity}

module _ (F : Type 0) where
  pub record OpenLot : Type 0 where
    pub buy_year : ℕ
    pub qty : F
    pub cost_per : F

  pub record TaxLot : Type 0 where
    pub isin : Text
    pub name : Text
    pub buy_year : ℕ
    pub quantity : F
    pub cost_basis : F
    pub current_value : F
    pub unrealized_pl : F
    pub is_equity_fund : Bool
    pub tax_if_sold : F
    pub net_proceeds : F
    pub effective_rate : F

abbrev pub Queues : Type 0 → Type 0
Queues F = List (Text × List (OpenLot F))

module _ {F : Type 0} ⦃f : Float64 F⦄ where
  -- The loop of a sale: `for remaining > 0 && len(lots) > 0`.
  unfoldable pub consume : F → List (OpenLot F) → List (OpenLot F)
  consume remaining [] = []
  consume remaining (l ∷ ls) =
      let rest = consume (remaining ⊖ l.qty) ls in
      if nought <? remaining
      then if l.qty ≤? remaining then rest else record l { qty = l.qty ⊖ remaining } ∷ ls
      else l ∷ ls

  unfoldable pub open_lot : TaxTransaction F → Queues F → Queues F
  open_lot t lots =
      if nought <? t.quantity
      then insert t.isin
          (get_or t.isin [] lots
            ++ record { buy_year = t.year; qty = t.quantity; cost_per = t.amount ⊘ t.quantity }
              ∷ [])
          lots
      else lots

  -- A missing queue is left missing: the loop does not start.
  unfoldable pub close_lots : TaxTransaction F → Queues F → Queues F
  unfolding consume
  close_lots t lots = elim (lookup t.isin lots) [
    | none ↦ lots
    | some ls ↦ insert t.isin (consume t.quantity ls) lots
  ]

  unfoldable pub track_lot : TxType → TaxTransaction F → Queues F → Queues F
  unfolding open_lot close_lots
  track_lot TxType.buy t lots = open_lot t lots
  track_lot TxType.savings_plan t lots = open_lot t lots
  track_lot TxType.transfer t lots = open_lot t lots
  track_lot TxType.sell t lots = close_lots t lots
  track_lot TxType.transfer_out t lots = close_lots t lots
  track_lot _ t lots = lots

  unfoldable pub track_lots : List (TaxTransaction F) → Queues F → Queues F
  unfolding track_lot
  track_lots [] lots = lots
  track_lots (t ∷ ts) lots =
      track_lots ts (if is_empty t.isin then lots else track_lot t.type t lots)

  -- One entry of the result.
  unfoldable pub tax_lot : Text → Text → F → Bool → OpenLot F → TaxLot F
  tax_lot isin name price is_equity l =
      let cost_basis = l.qty ⊗ l.cost_per in
      let current_value = if price =? nought then cost_basis else l.qty ⊗ price in
      let unrealized_pl = current_value ⊖ cost_basis in
      let gained = nought <? unrealized_pl in
      let taxable = if is_equity then unrealized_pl ⊗ taxable_share_equity else unrealized_pl in
      let tax_if_sold = if gained then taxable ⊗ effective_tax_rate else nought in
      let effective_rate =
        if gained then (tax_if_sold ⊘ unrealized_pl) ⊗ f.literal 100 0 else nought in
      record {
        isin = isin;
        name = name;
        buy_year = l.buy_year;
        quantity = f.round (l.qty ⊗ f.literal 1000 0) ⊘ f.literal 1000 0;
        cost_basis = to_cents cost_basis;
        current_value = to_cents current_value;
        unrealized_pl = to_cents unrealized_pl;
        is_equity_fund = is_equity;
        tax_if_sold = to_cents tax_if_sold;
        net_proceeds = to_cents (current_value ⊖ tax_if_sold);
        effective_rate = to_tenths effective_rate;
      }

  unfoldable pub tax_lots_of : Text → Text → F → Bool → List (OpenLot F) → List (TaxLot F)
  unfolding tax_lot
  tax_lots_of isin name price is_equity [] = []
  tax_lots_of isin name price is_equity (l ∷ ls) =
      let rest = tax_lots_of isin name price is_equity ls in
      if l.qty ≤? f.literal 1 3 then rest else tax_lot isin name price is_equity l ∷ rest

  module _ (prices : List (Text × F)) (names : List (Text × Text))
      (equity : List (Text × Bool)) where
    unfoldable pub report_lots : Queues F → List (TaxLot F)
    unfolding tax_lots_of
    report_lots [] = []
    report_lots ((isin, ls) ∷ lots) =
        let name = get_or isin [] names in
        tax_lots_of isin (if is_empty name then isin else name) (get_or isin nought prices)
          (get_or isin false equity) ls
        ++ report_lots lots

    unfoldable pub compute_tax_lots : List (TaxTransaction F) → List (TaxLot F)
    unfolding report_lots track_lots
    compute_tax_lots txns = report_lots (track_lots txns [])
