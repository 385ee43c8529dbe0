-- ===== src/Analytics/Tax/Sell.antt =====
-- `SimulateSell`: the tax of selling given amounts out of open lots.
pub mod Bounds
use wealth.Prelude.{
  Bool, List, Text, [], get_or, if◌then◌else◌, insert, ℕ, ◌&&◌, ◌++◌, ◌+◌, ◌∷◌, text_eq,
}
use wealth.Prelude.Float.{Float64, fmin, nought, to_cents, ◌<?◌, ◌≤?◌, ◌⊕◌, ◌⊖◌, ◌⊗◌, ◌⊘◌}
use wealth.Analytics.Tax.Rates.{sell_tax_rate, teilfreistellung_equity}
use wealth.Analytics.Tax.Lots.{TaxLot}

module _ (F : Type 0) where
  pub record SellRequest : Type 0 where
    pub isin : Text
    pub amount_eur : F

  -- The variables of the loop over the lots.
  pub record Sale : Type 0 where
    pub remaining : F
    pub total_cost : F
    pub total_sold : F
    pub lots_used : ℕ

  pub record SellSimResult : Type 0 where
    pub isin : Text
    pub name : Text
    pub sell_amount : F
    pub cost_basis : F
    pub realized_gain : F
    pub teilfreistellung : F
    pub taxable_gain : F
    pub estimated_tax : F
    pub net_proceeds : F
    pub lots_consumed : ℕ
    pub is_equity_fund : Bool

  -- The results, the tax and the proceeds.
  pub record Simulation : Type 0 where
    pub results : List SellSimResult
    pub total_tax : F
    pub total_proceeds : F

module _ {F : Type 0} ⦃f : Float64 F⦄ where
  unfoldable pub lots_by_isin :
      List (TaxLot F) → List (Text × List (TaxLot F)) → List (Text × List (TaxLot F))
  lots_by_isin [] m = m
  lots_by_isin (l ∷ ls) m = lots_by_isin ls (insert l.isin (get_or l.isin [] m ++ l ∷ []) m)

  -- One round.
  abbrev pub sell_from : TaxLot F → Sale F → Sale F
  sell_from l s =
      let amount = fmin s.remaining l.current_value in
      record {
        remaining = s.remaining ⊖ amount;
        total_cost = s.total_cost ⊕ ((amount ⊘ l.current_value) ⊗ l.cost_basis);
        total_sold = s.total_sold ⊕ amount;
        lots_used = s.lots_used + 1;
      }

  unfoldable pub sell_lots : List (TaxLot F) → Sale F → Sale F
  sell_lots [] s = s
  sell_lots (l ∷ ls) s =
      let rest = sell_lots ls (sell_from l s) in if s.remaining ≤? nought then s else rest

  -- The tax of a gain: the exempt part, the taxable gain and the tax.
  unfoldable pub sell_tax : Bool → F → F → F × F × F
  sell_tax is_equity rate gain =
      let tf = if is_equity && (nought <? gain) then gain ⊗ teilfreistellung_equity else nought in
      let taxed = gain ⊖ tf in
      let taxable_gain = if taxed <? nought then nought else taxed in
      (tf, taxable_gain, (if gain <? nought then nought else taxable_gain ⊗ rate))

  -- What is sold of a queue with a first lot.
  unfoldable pub simulate_lots :
      F → SellRequest F → TaxLot F → List (TaxLot F) → Simulation F → Simulation F
  simulate_lots rate req first more sim =
      let s = sell_lots (first ∷ more) (record {
        remaining = req.amount_eur;
        total_cost = nought;
        total_sold = nought;
        lots_used = 0;
      }) in
      let gain = s.total_sold ⊖ s.total_cost in
      let (tf, taxable_gain, tax) = sell_tax first.is_equity_fund rate gain in
      record {
        results =
            sim.results
            ++ record {
              isin = req.isin;
              name = first.name;
              sell_amount = to_cents s.total_sold;
              cost_basis = to_cents s.total_cost;
              realized_gain = to_cents gain;
              teilfreistellung = to_cents tf;
              taxable_gain = to_cents taxable_gain;
              estimated_tax = to_cents tax;
              net_proceeds = to_cents (s.total_sold ⊖ tax);
              lots_consumed = s.lots_used;
              is_equity_fund = first.is_equity_fund;
            }
              ∷ [];
        total_tax = sim.total_tax ⊕ tax;
        total_proceeds = sim.total_proceeds ⊕ (s.total_sold ⊖ tax);
      }

  unfoldable pub simulate_request :
      F → SellRequest F → List (TaxLot F) → Simulation F → Simulation F
  simulate_request rate req [] sim = sim
  simulate_request rate req (first ∷ more) sim =
      if req.amount_eur ≤? nought then sim else simulate_lots rate req first more sim

  unfoldable pub simulate_requests :
      F → List (Text × List (TaxLot F)) → List (SellRequest F) → Simulation F → Simulation F
  unfolding simulate_request
  simulate_requests rate lots [] sim = sim
  simulate_requests rate lots (req ∷ reqs) sim =
      simulate_requests rate lots reqs (simulate_request rate req (get_or req.isin [] lots) sim)

  unfoldable pub simulate_sell :
      List (TaxLot F) → List (SellRequest F) → F → List (SellSimResult F) × F × F
  unfolding simulate_requests lots_by_isin sell_tax_rate
  simulate_sell lots requests church_tax_rate =
      let sim =
        simulate_requests (sell_tax_rate church_tax_rate) (lots_by_isin lots []) requests
          (record { results = []; total_tax = nought; total_proceeds = nought }) in
      (sim.results, to_cents sim.total_tax, to_cents sim.total_proceeds)
