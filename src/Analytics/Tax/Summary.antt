-- ===== src/Analytics/Tax/Summary.antt =====
-- `ComputeTaxSummary`: the tax of one year from all transactions.
pub mod Allowance
use wealth.Prelude.{
  Bool, List, Text, [], if◌then◌else◌, is_empty, nat_beq, none, some, ℕ, ◌&&◌, ◌++◌, ◌∷◌, text_eq,
}
use wealth.Prelude.Float.{
  Float64, fmin, nought, to_cents, to_tenths, ◌<?◌, ◌≤?◌, ◌⊕◌, ◌⊖◌, ◌⊗◌, ◌⊘◌,
}
use wealth.Transaction.{TxType}
use wealth.Analytics.AverageCost.{Positions, add_lot, take_lot}
use wealth.Analytics.Tax.Rates.{
  TaxTransaction, effective_tax_rate, sparerpauschbetrag, teilfreistellung_equity,
}

module _ (F : Type 0) where
  pub record TaxBySecurity : Type 0 where
    pub isin : Text
    pub name : Text
    pub realized_pl : F
    pub teilfreistellung : F
    pub taxable_pl : F
    pub is_equity_fund : Bool

  -- The variables of the loop over the transactions.
  pub record Ledger : Type 0 where
    pub holdings : Positions F
    pub gains : F
    pub losses : F
    pub dividends : F
    pub equity_dividends : F
    pub by_sec : List TaxBySecurity

  -- `TaxSummary` without the hints, which are passed through
  pub record TaxSummary : Type 0 where
    pub year : ℕ
    pub realized_gains : F
    pub realized_losses : F
    pub net_gain : F
    pub teilfreistellung_amt : F
    pub taxable_gain : F
    pub freistellung_used : F
    pub freistellung_remain : F
    pub estimated_tax : F
    pub effective_rate : F
    pub dividend_income : F
    pub by_security : List TaxBySecurity

module _ {F : Type 0} ⦃f : Float64 F⦄ where
  -- A sale in the target year.
  abbrev pub counted : TaxTransaction F → F → Ledger F → Ledger F
  counted t realized_pl s =
      let entry : TaxBySecurity F = record {
        isin = t.isin;
        name = t.name;
        realized_pl = to_cents realized_pl;
        teilfreistellung = nought;
        taxable_pl = nought;
        is_equity_fund = t.is_equity_fund;
      } in
      if nought ≤? realized_pl
      then record s { gains = s.gains ⊕ realized_pl; by_sec = s.by_sec ++ entry ∷ [] }
      else record s { losses = s.losses ⊕ realized_pl; by_sec = s.by_sec ++ entry ∷ [] }

  unfoldable pub add_sale : ℕ → TaxTransaction F → Ledger F → Ledger F
  add_sale year t s = elim (take_lot t.isin t.quantity s.holdings) [
    | none ↦ s
    | some (holdings, cost_basis) ↦
        let after = record s { holdings = holdings } in
        if nat_beq t.year year then counted t (t.amount ⊖ cost_basis) after else after
  ]

  unfoldable pub add_transfer_out : TaxTransaction F → Ledger F → Ledger F
  add_transfer_out t s = elim (take_lot t.isin t.quantity s.holdings) [
    | none ↦ s
    | some (holdings, _) ↦ record s { holdings = holdings }
  ]

  unfoldable pub add_dividend : ℕ → TaxTransaction F → Ledger F → Ledger F
  add_dividend year t s =
      if nat_beq t.year year
      then record s {
        dividends = s.dividends ⊕ t.amount;
        equity_dividends =
            if t.is_equity_fund then s.equity_dividends ⊕ t.amount else s.equity_dividends;
      }
      else s

  abbrev with_isin : TaxTransaction F → Ledger F → Ledger F → Ledger F
  with_isin t s after = if is_empty t.isin then s else after

  abbrev add_purchase : TaxTransaction F → Ledger F → Ledger F
  add_purchase t s = record s { holdings = add_lot t.isin t.quantity t.amount s.holdings }

  -- The switch on the type.
  unfoldable pub add_transaction : ℕ → TxType → TaxTransaction F → Ledger F → Ledger F
  unfolding add_sale add_transfer_out add_dividend
  add_transaction year TxType.buy t s = with_isin t s (add_purchase t s)
  add_transaction year TxType.savings_plan t s = with_isin t s (add_purchase t s)
  add_transaction year TxType.transfer t s = with_isin t s (add_purchase t s)
  add_transaction year TxType.transfer_out t s = with_isin t s (add_transfer_out t s)
  add_transaction year TxType.sell t s = with_isin t s (add_sale year t s)
  add_transaction year TxType.dividend t s = add_dividend year t s
  add_transaction year _ t s = s

  unfoldable pub add_transactions : ℕ → List (TaxTransaction F) → Ledger F → Ledger F
  unfolding add_transaction
  add_transactions year [] s = s
  add_transactions year (t ∷ ts) s = add_transactions year ts (add_transaction year t.type t s)

  -- The loop over `bySec`, which fills in two fields and adds up the exemption.
  abbrev exempt : TaxBySecurity F → TaxBySecurity F × F
  exempt e =
      let tf = e.realized_pl ⊗ teilfreistellung_equity in
      if e.is_equity_fund && (nought <? e.realized_pl)
      then (
        record e { teilfreistellung = to_cents tf; taxable_pl = to_cents (e.realized_pl ⊖ tf) },
        tf,
      )
      else (record e { taxable_pl = e.realized_pl }, nought)

  unfoldable pub exempt_all : F → List (TaxBySecurity F) → List (TaxBySecurity F) × F
  exempt_all total [] = ([], total)
  exempt_all total (e ∷ es) =
      let (e', tf) = exempt e in
      let (es', end) =
        exempt_all (if e.is_equity_fund && (nought <? e.realized_pl) then total ⊕ tf else total)
          es in
      (e' ∷ es', end)

  -- The allowance and the tax on a taxable gain that may be negative: the gain, the allowance used,
  -- what remains of it, and the tax, none of them rounded.
  unfoldable pub assess : F → F × F × F × F
  assess raw_gain =
      let taxable_gain = if raw_gain <? nought then nought else raw_gain in
      let frei_used = fmin taxable_gain sparerpauschbetrag in
      let rest = taxable_gain ⊖ frei_used in
      let taxable_after_frei = if rest <? nought then nought else rest in
      (
        taxable_gain,
        frei_used,
        sparerpauschbetrag ⊖ frei_used,
        taxable_after_frei ⊗ effective_tax_rate,
      )

  -- What is taxed, before it is cut off at 0.
  abbrev pub raw_gain : Ledger F → F
  raw_gain s =
      let exempt_dividends = s.equity_dividends ⊗ teilfreistellung_equity in
      ((s.gains ⊕ s.losses) ⊖ ((exempt_all nought s.by_sec).1 ⊕ exempt_dividends))
      ⊕ (s.dividends ⊖ exempt_dividends)

  abbrev pub empty_ledger : Ledger F
  empty_ledger = record {
    holdings = [];
    gains = nought;
    losses = nought;
    dividends = nought;
    equity_dividends = nought;
    by_sec = [];
  }

  -- What stands behind the loops.
  unfoldable pub summarize : ℕ → Ledger F → TaxSummary F
  unfolding exempt_all
  summarize year s =
      let net_gain = s.gains ⊕ s.losses in
      let (by_sec, exempt_gains) = exempt_all nought s.by_sec in
      let exempt_dividends = s.equity_dividends ⊗ teilfreistellung_equity in
      let teilfreistellung_total = exempt_gains ⊕ exempt_dividends in
      let (taxable_gain, frei_used, frei_remain, estimated_tax) = assess (raw_gain s) in
      let income = net_gain ⊕ s.dividends in
      record {
        year = year;
        realized_gains = to_cents s.gains;
        realized_losses = to_cents s.losses;
        net_gain = to_cents net_gain;
        teilfreistellung_amt = to_cents teilfreistellung_total;
        taxable_gain = to_cents taxable_gain;
        freistellung_used = to_cents frei_used;
        freistellung_remain = to_cents frei_remain;
        estimated_tax = to_cents estimated_tax;
        effective_rate =
            to_tenths
              (if nought <? income then (estimated_tax ⊘ income) ⊗ f.literal 100 0 else nought);
        dividend_income = to_cents s.dividends;
        by_security = by_sec;
      }

  unfoldable pub compute_tax_summary : List (TaxTransaction F) → ℕ → TaxSummary F
  unfolding summarize add_transactions
  compute_tax_summary all_txns year = summarize year (add_transactions year all_txns empty_ledger)
