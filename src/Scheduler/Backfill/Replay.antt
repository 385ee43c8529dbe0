-- ===== src/Scheduler/Backfill/Replay.antt =====
-- The replay of `BackfillNetWorthSnapshots` of internal/scheduler/jobs.go: cash and holdings day by day, and their value.
pub mod Cash
pub mod Returns
use wealth.Prelude.{
  List, Option, Text, [], delete, get_or, if◌then◌else◌, insert, is_empty, lit, lookup, none, same,
  some, suc, zero, ℕ, ◌++◌, ◌-◌, ◌||◌, ◌∷◌, text_eq, nat_eq,
}
use wealth.Prelude.Float.{Float64, nought, ◌<?◌, ◌≤?◌, ◌⊕◌, ◌⊖◌, ◌⊗◌, ◌⊘◌}
use mathlib.Core.List.{reverse}
use wealth.Transaction.{TxType}
use wealth.Analytics.AverageCost.{Lot, Positions, add_lot}
use wealth.Scheduler.Backfill.History.{Point, get_fx_rate_at, get_price_at}
use wealth.Scheduler.Backfill.Transit.{Days, TxnEvent, apply_removals, removals_of}

module _ (F : Type 0) where
  -- `cashBalance` and `holdings`
  pub record Account : Type 0 where
    pub cash_balance : F
    pub holdings : Positions F

  -- `priceHistory`, `fxHistory` and `securityCurrency`
  pub record Quotes : Type 0 where
    pub price_history : List (Text × List (Point F))
    pub fx_history : List (Text × List (Point F))
    pub security_currency : List (Text × Text)

  -- `UpsertNetWorthSnapshotParams`, before its numbers are printed
  pub record Snapshot : Type 0 where
    pub date : ℕ
    pub total : F
    pub cash_component : F
    pub investment_component : F

module _ {F : Type 0} ⦃f : Float64 F⦄ where
  abbrev reduced : Lot F → F → Lot F
  reduced h qty = record {
    quantity = h.quantity ⊖ qty;
    total_cost = h.total_cost ⊖ ((h.total_cost ⊘ h.quantity) ⊗ qty);
  }

  -- What a sale or a transfer out takes from a holding.
  unfoldable pub release : Text → F → Positions F → Positions F
  release isin qty holdings = elim (lookup isin holdings) [
    | none ↦ holdings
    | some h ↦
        if nought <? h.quantity
        then (let rest = reduced h qty in
            if rest.quantity ≤? f.literal 1 3
            then delete isin holdings
            else insert isin rest holdings)
        else holdings
  ]

  abbrev pay_in : F → Account F → Account F
  pay_in amt s = record s { cash_balance = s.cash_balance ⊕ amt }

  abbrev pay_out : F → Account F → Account F
  pay_out amt s = record s { cash_balance = s.cash_balance ⊖ amt }

  abbrev take_in : TxnEvent F → Account F → Account F
  take_in ev s =
      if is_empty ev.isin
      then s
      else record s { holdings = add_lot ev.isin ev.qty ev.amt s.holdings }

  abbrev give_out : TxnEvent F → Account F → Account F
  give_out ev s =
      if is_empty ev.isin then s else record s { holdings = release ev.isin ev.qty s.holdings }

  -- The switch on the type.
  unfoldable pub apply_event : TxType → TxnEvent F → Account F → Account F
  unfolding release
  apply_event TxType.deposit ev s = pay_in ev.amt s
  apply_event TxType.interest ev s = pay_in ev.amt s
  apply_event TxType.cash_transfer_in ev s = pay_in ev.amt s
  apply_event TxType.withdrawal ev s = pay_out ev.amt s
  apply_event TxType.fee ev s = pay_out ev.amt s
  apply_event TxType.tax ev s = pay_out ev.amt s
  apply_event TxType.cash_transfer_out ev s = pay_out ev.amt s
  apply_event TxType.transfer ev s = if is_empty ev.isin then pay_out ev.amt s else take_in ev s
  apply_event TxType.transfer_out ev s = give_out ev s
  apply_event TxType.buy ev s = take_in ev (pay_out ev.amt s)
  apply_event TxType.savings_plan ev s = take_in ev (pay_out ev.amt s)
  apply_event TxType.sell ev s = give_out ev (pay_in ev.amt s)
  apply_event TxType.dividend ev s = pay_in ev.amt s
  apply_event (TxType.other _) ev s = s

  unfoldable pub apply_events : List (TxnEvent F) → Account F → Account F
  unfolding apply_event
  apply_events [] s = s
  apply_events (ev ∷ events) s = apply_events events (apply_event ev.typ ev s)

  -- The rate is that of the day, and without one the value stays as it is.
  unfoldable pub convert_to_eur : Quotes F → Text → ℕ → F → Option F
  unfolding get_fx_rate_at
  convert_to_eur m cur date value =
      if is_empty cur || same cur (lit "EUR")
      then some value
      else elim (get_fx_rate_at m.fx_history cur date) [
        | none ↦ none
        | some rate ↦ some (if nought <? rate then value ⊘ rate else value)
      ]

  -- The value of a holding, by its price or, without one, by its cost.
  unfoldable pub value_of : Quotes F → ℕ → Text → Lot F → Option F
  unfolding get_price_at convert_to_eur
  value_of m date isin h = elim (get_price_at m.price_history isin date) [
    | none ↦ none
    | some price ↦
        if nought <? price
        then convert_to_eur m (get_or isin [] m.security_currency) date (h.quantity ⊗ price)
        else some h.total_cost
  ]

  unfoldable pub add_value : Quotes F → ℕ → Text → Lot F → F → Option F
  unfolding value_of
  add_value m date isin h sum =
      if h.quantity ≤? nought
      then some sum
      else elim (value_of m date isin h) [ none ↦ none | some v ↦ some (sum ⊕ v) ]

  -- The loop over the holdings.
  unfoldable pub investment_value : Quotes F → ℕ → Positions F → F → Option F
  unfolding add_value
  investment_value m date [] sum = some sum
  investment_value m date ((isin, h) ∷ holdings) sum = elim (add_value m date isin h sum) [
    | none ↦ none
    | some sum' ↦ investment_value m date holdings sum'
  ]

  abbrev pub snapshot_of : ℕ → F → F → Snapshot F
  snapshot_of date cash investments = record {
    date = date;
    total = cash ⊕ investments;
    cash_component = cash;
    investment_component = investments;
  }

  -- The loop over a number of days from a date.
  unfoldable pub replay : Quotes F → Days F → ℕ → ℕ → Account F → Option (List (Snapshot F))
  unfolding apply_events investment_value
  replay m days zero date s = some []
  replay m days (suc n) date s =
      let s' = apply_events (get_or date [] days) s in
      elim (investment_value m date s'.holdings nought) [
        | none ↦ none
        | some investments ↦ elim (replay m days n (suc date) s') [
          | none ↦ none
          | some rest ↦ some (snapshot_of date s'.cash_balance investments ∷ rest)
        ]
      ]

  -- `txnsByDate`
  unfoldable pub txns_by_date : List (ℕ × TxnEvent F) → Days F → Days F
  txns_by_date [] days = days
  txns_by_date ((date, ev) ∷ txns) days =
      txns_by_date txns (insert date (get_or date [] days ++ ev ∷ []) days)

  -- The days before `today` from that of the first of the transactions.
  abbrev pub from_first : Quotes F → ℕ → Days F → List (ℕ × TxnEvent F) → Option (List (Snapshot F))
  from_first m today days [] = some []
  from_first m today days ((start, _) ∷ _) =
      replay m days (today - start) start (record { cash_balance = nought; holdings = [] })

  -- `BackfillNetWorthSnapshots`: the snapshots that are stored, for the transactions as the query
  -- gives them, the newest first. `order` and `again` are the orders of the loops over `txnsByDate`.
  unfoldable pub backfill_net_worth_snapshots :
      Quotes F
      → (Days F → Days F)
      → (Days F → Days F)
      → ℕ
      → List (ℕ × TxnEvent F)
      → Option (List (Snapshot F))
  unfolding replay txns_by_date
  backfill_net_worth_snapshots m order again today txns =
      let days = txns_by_date (reverse txns) [] in
      from_first m today (apply_removals (removals_of (order days) (again days)) days)
        (reverse txns)
