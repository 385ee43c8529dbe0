-- ===== src/Analytics/Tax/Sell/Bounds.antt =====
-- Bounds of a simulated sale.
use wealth.Prelude.{
  All, All-append, Bool, Bool-cases, List, Text, [], ap, arith, false, get_or, if◌then◌else◌, inl,
  inr, length, refl, true, ◌&&◌, ◌+◌, ◌∙◌, ◌∷◌, ◌≡◌, ◌≤◌, ◌⊎◌, text_eq,
}
use wealth.Prelude.Float.{Float64, nought, to_cents, ◌<?◌, ◌≤?◌, ◌⊖◌, ◌⊗◌}
use wealth.Prelude.Float.Order.{IsIeee}
use wealth.Analytics.Tax.Rates.{clamped_church_rate, sell_tax_rate, teilfreistellung_equity}
use wealth.Analytics.Tax.Lots.{TaxLot}
use wealth.Analytics.Tax.Sell.{
  Sale, SellRequest, SellSimResult, Simulation, lots_by_isin, sell_from, sell_lots, sell_tax,
  simulate_lots, simulate_request, simulate_requests, simulate_sell,
}

module _ {F : Type 0} ⦃f : Float64 F⦄ (laws : IsIeee F) where
  open laws use {
    lt_irrefl, literal_not_neg, mul_not_neg, add_not_neg, to_cents_not_neg, to_cents_nought,
  }

  church_rate_not_neg : (rate : F) → (clamped_church_rate rate <? nought) ≡ false
  church_rate_not_neg rate = ground (arith, lt_irrefl nought, literal_not_neg 9 2)

  sell_tax_rate_not_neg : (rate : F) → (sell_tax_rate rate <? nought) ≡ false
  unfolding sell_tax_rate
  sell_tax_rate_not_neg rate =
      mul_not_neg _ _ (literal_not_neg 25 2)
        (add_not_neg _ _ (literal_not_neg 1055 3) (church_rate_not_neg rate))

  sell_lots-used :
      (ls : List (TaxLot F)) (s : Sale F) → (sell_lots ls s).lots_used ≤ s.lots_used + length ls
  unfolding sell_lots
  sell_lots-used [] s = omega arith
  sell_lots-used (l ∷ ls) s = ground (arith, sell_lots-used ls (sell_from l s))

  lots_used-bound :
      (ls : List (TaxLot F)) (s : Sale F) → s.lots_used ≡ 0 → (sell_lots ls s).lots_used ≤ length ls
  lots_used-bound ls s e = ground (arith, sell_lots-used ls s)

  sell_tax_bounds :
      (is_equity : Bool) (rate gain : F)
      → (rate <? nought) ≡ false
      → let (tf, taxable, tax) = sell_tax is_equity rate gain in
        ((taxable <? nought) ≡ false)
        × ((tax <? nought) ≡ false)
        × (is_equity ≡ false → tf ≡ nought)
  unfolding sell_tax
  sell_tax_bounds is_equity rate gain h =
      let tf = if is_equity && (nought <? gain) then gain ⊗ teilfreistellung_equity else nought in
      let taxable = if (gain ⊖ tf) <? nought then nought else (gain ⊖ tf) in
      let positive : (taxable <? nought) ≡ false = ground (arith, lt_irrefl nought) in
      (
        positive,
        ground (arith, lt_irrefl nought, mul_not_neg taxable rate positive h),
        ground arith,
      )

  -- A result names a security of the lots and consumes no more lots than that security has.
  abbrev pub IsSound : List (Text × List (TaxLot F)) → SellSimResult F → Type 0
  IsSound lots r =
      ((r.taxable_gain <? nought) ≡ false)
      × ((r.estimated_tax <? nought) ≡ false)
      × (r.lots_consumed ≤ length (get_or r.isin [] lots))
      × (r.is_equity_fund ≡ true ⊎ r.teilfreistellung ≡ nought)

  simulate_lots-IsSound :
      (rate : F) (lots : List (Text × List (TaxLot F))) (req : SellRequest F) (first : TaxLot F)
      (more : List (TaxLot F)) (sim : Simulation F)
      → (rate <? nought) ≡ false
      → get_or req.isin [] lots ≡ first ∷ more
      → All (IsSound lots) sim.results
      → All (IsSound lots) (simulate_lots rate req first more sim).results
  unfolding simulate_lots
  simulate_lots-IsSound rate lots req first more sim h e a =
      let s = sell_lots (first ∷ more) (record {
        remaining = req.amount_eur;
        total_cost = nought;
        total_sold = nought;
        lots_used = 0;
      }) in
      let bounds = sell_tax_bounds first.is_equity_fund rate (s.total_sold ⊖ s.total_cost) h in
      All-append (IsSound lots) sim.results _ a (
        (
          to_cents_not_neg _ bounds.0,
          to_cents_not_neg _ bounds.1,
          rw e (lots_used-bound (first ∷ more) _ refl),
          elim (Bool-cases first.is_equity_fund) [
            | inl k ↦ inl k
            | inr k ↦ inr (ap to_cents (bounds.2 k) ∙ to_cents_nought)
          ],
        ),
        tt,
      )

  simulate_request-IsSound :
      (rate : F) (lots : List (Text × List (TaxLot F))) (req : SellRequest F)
      (queue : List (TaxLot F)) (sim : Simulation F)
      → (rate <? nought) ≡ false
      → get_or req.isin [] lots ≡ queue
      → All (IsSound lots) sim.results
      → All (IsSound lots) (simulate_request rate req queue sim).results
  unfolding simulate_request
  simulate_request-IsSound rate lots req [] sim h e a = a
  simulate_request-IsSound rate lots req (first ∷ more) sim h e a =
      elim (Bool-cases (req.amount_eur ≤? nought)) [
        | inl none_asked ↦ rw none_asked a
        | inr asked ↦ rw asked (simulate_lots-IsSound rate lots req first more sim h e a)
      ]

  simulate_requests-IsSound :
      (rate : F) (lots : List (Text × List (TaxLot F))) (reqs : List (SellRequest F))
      (sim : Simulation F)
      → (rate <? nought) ≡ false
      → All (IsSound lots) sim.results
      → All (IsSound lots) (simulate_requests rate lots reqs sim).results
  unfolding simulate_requests
  simulate_requests-IsSound rate lots [] sim h a = a
  simulate_requests-IsSound rate lots (req ∷ reqs) sim h a =
      simulate_requests-IsSound rate lots reqs _ h
        (simulate_request-IsSound rate lots req (get_or req.isin [] lots) sim h refl a)

  -- Each simulated sale uses no more lots than its security has, and its taxable gain and its tax
  -- are never below 0, at any rate of church tax and for lots of any value (for a lot of value 0 and
  -- for a rate that is NaN they may be NaN); only an equity fund has an exempt part.
  pub simulate_sell-IsSound :
      (lots : List (TaxLot F)) (requests : List (SellRequest F)) (church_tax_rate : F)
      → All (IsSound (lots_by_isin lots [])) (simulate_sell lots requests church_tax_rate).0
  unfolding simulate_sell
  simulate_sell-IsSound lots requests church_tax_rate =
      simulate_requests-IsSound (sell_tax_rate church_tax_rate) (lots_by_isin lots []) requests _
        (sell_tax_rate_not_neg church_tax_rate) tt
