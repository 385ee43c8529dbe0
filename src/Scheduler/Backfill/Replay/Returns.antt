-- ===== src/Scheduler/Backfill/Replay/Returns.antt =====
-- The replay ends without a panic, with a snapshot of every day.
use wealth.Prelude.{
  ==_iff, Bool-cases, List, Text, [], ap, get_or, get_or-insert, if◌then◌else◌, inl, inr, insert,
  is_empty, lit, refl, same, some, suc, sym, zero, ℕ, ◌++◌, ◌-◌, ◌==◌, ◌||◌, ◌∙◌, ◌∷◌, ◌≡◌, text_eq,
  nat_eq,
}
use wealth.Prelude.Float.{Float64, nought, ◌<?◌, ◌≤?◌, ◌⊕◌, ◌⊗◌, ◌⊘◌}
use mathlib.Core.List.{reverse, append-nil, append_assoc}
use wealth.Analytics.AverageCost.{Lot, Positions}
use wealth.Scheduler.Backfill.History.Latest.{value_at-returns}
use wealth.Scheduler.Backfill.History.{get_fx_rate_at, get_price_at}
use wealth.Scheduler.Backfill.Transit.{Days, TxnEvent, apply_removals, removals_of}
use wealth.Scheduler.Backfill.Replay.Cash.{
  apply_events-cash, apply_removals-cash_after, cash_after, removals_of-Named,
}
use wealth.Scheduler.Backfill.Replay.{
  Account, Quotes, Snapshot, add_value, apply_events, backfill_net_worth_snapshots, txns_by_date,
  convert_to_eur, from_first, investment_value, replay, snapshot_of, value_of,
}

module _ {F : Type 0} ⦃f : Float64 F⦄ where
  convert_to_eur-returns :
      (m : Quotes F) (cur : Text) (date : ℕ) (value : F)
      → (x : F) × (convert_to_eur m cur date value ≡ some x)
  unfolding convert_to_eur
  convert_to_eur-returns m cur date value =
      elim (Bool-cases (is_empty cur || same cur (lit "EUR"))) [
        | inl y ↦ (value, rw (convert_to_eur, y) refl)
        | inr n ↦
            let (rate, e) = value_at-returns date (get_or cur [] m.fx_history) in
            (
              if nought <? rate then value ⊘ rate else value,
              rw (convert_to_eur, n, get_fx_rate_at, e) refl,
            )
      ]

  value_of-returns :
      (m : Quotes F) (date : ℕ) (isin : Text) (h : Lot F)
      → (x : F) × (value_of m date isin h ≡ some x)
  unfolding value_of get_price_at
  value_of-returns m date isin h =
      let (price, e) = value_at-returns date (get_or isin [] m.price_history) in
      elim (Bool-cases (nought <? price)) [
        | inl y ↦
            let (x, c) =
              convert_to_eur-returns m (get_or isin [] m.security_currency) date
                (h.quantity ⊗ price) in
            (x, rw (value_of, e, y) c)
        | inr n ↦ (h.total_cost, rw (value_of, e, n) refl)
      ]

  add_value-returns :
      (m : Quotes F) (date : ℕ) (isin : Text) (h : Lot F) (sum : F)
      → (x : F) × (add_value m date isin h sum ≡ some x)
  unfolding add_value
  add_value-returns m date isin h sum =
      let (v, e) = value_of-returns m date isin h in
      elim (Bool-cases (h.quantity ≤? nought)) [
        | inl y ↦ (sum, rw (add_value, y) refl)
        | inr n ↦ (sum ⊕ v, rw (add_value, n, e) refl)
      ]

  investment_value-returns :
      (m : Quotes F) (date : ℕ) (holdings : Positions F) (sum : F)
      → (x : F) × (investment_value m date holdings sum ≡ some x)
  unfolding investment_value
  investment_value-returns m date [] sum = (sum, refl)
  investment_value-returns m date ((isin, h) ∷ holdings) sum =
      let (sum', e) = add_value-returns m date isin h sum in
      let (x, e') = investment_value-returns m date holdings sum' in
      (x, rw (investment_value, e) e')

  -- The transactions of a day.
  abbrev pub events_on : ℕ → List (ℕ × TxnEvent F) → List (TxnEvent F)
  events_on date [] = []
  events_on date ((d, ev) ∷ txns) =
      if d == date then ev ∷ events_on date txns else events_on date txns

  get_or-txns_by_date :
      (txns : List (ℕ × TxnEvent F)) (days : Days F) (date : ℕ)
      → get_or date [] (txns_by_date txns days) ≡ get_or date [] days ++ events_on date txns
  unfolding txns_by_date
  get_or-txns_by_date [] days date = sym (append-nil (get_or date [] days))
  get_or-txns_by_date ((d, ev) ∷ txns) days date =
      get_or-txns_by_date txns (insert d (get_or d [] days ++ ev ∷ []) days) date
      ∙ elim (Bool-cases (d == date)) [
        | inl y ↦
            rw (get_or-insert d date [] (get_or d [] days ++ ev ∷ []) days, y, (==_iff d date).0 y)
              (append_assoc (get_or date [] days) (ev ∷ []) (events_on date txns))
        | inr n ↦ rw (get_or-insert d date [] (get_or d [] days ++ ev ∷ []) days, n) refl
      ]

  -- The snapshots of a number of days from a date: each has the cash of the bookings until then,
  -- and the sum of cash and investments.
  abbrev pub IsReplayed : List (ℕ × TxnEvent F) → ℕ → ℕ → F → List (Snapshot F) → Type 0
  IsReplayed txns zero date cash [] = Unit
  IsReplayed txns (suc n) date cash (s ∷ ss) =
      (s.date ≡ date)
      × (s.cash_component ≡ cash_after cash (events_on date txns))
      × (s.total ≡ s.cash_component ⊕ s.investment_component)
      × IsReplayed txns n (suc date) (cash_after cash (events_on date txns)) ss
  IsReplayed txns _ date cash _ = ⊥

  replay-IsReplayed :
      (m : Quotes F) (days : Days F) (txns : List (ℕ × TxnEvent F))
      → ((date : ℕ) (cash : F)
          → cash_after cash (get_or date [] days) ≡ cash_after cash (events_on date txns))
      → (n date : ℕ) (cash : F) (s : Account F) → s.cash_balance ≡ cash
      → (ss : List (Snapshot F)) × (replay m days n date s ≡ some ss)
        × IsReplayed txns n date cash ss
  unfolding replay
  replay-IsReplayed m days txns same_cash zero date cash s c = ([], refl, tt)
  replay-IsReplayed m days txns same_cash (suc n) date cash s c =
      let s' = apply_events (get_or date [] days) s in
      let (inv, e) = investment_value-returns m date s'.holdings nought in
      let c' : s'.cash_balance ≡ cash_after cash (events_on date txns) =
        apply_events-cash (get_or date [] days) s
        ∙ ap (λ x. cash_after x (get_or date [] days)) c
        ∙ same_cash date cash in
      let (rest, e', r) =
        replay-IsReplayed m days txns same_cash n (suc date) (cash_after cash (events_on date txns))
          s' c' in
      (snapshot_of date s'.cash_balance inv ∷ rest, rw (replay, e, e') refl, (refl, c', refl, r))

  -- The snapshots of the days before today from that of the first transaction, if there is one.
  abbrev pub IsBackfilled : ℕ → List (ℕ × TxnEvent F) → List (Snapshot F) → Type 0
  IsBackfilled today [] ss = ss ≡ []
  IsBackfilled today ((start, ev) ∷ txns) ss =
      IsReplayed ((start, ev) ∷ txns) (today - start) start nought ss

  from_first-IsBackfilled :
      (m : Quotes F) (today : ℕ) (days : Days F) (txns : List (ℕ × TxnEvent F))
      → ((date : ℕ) (cash : F)
          → cash_after cash (get_or date [] days) ≡ cash_after cash (events_on date txns))
      → (ss : List (Snapshot F)) × (from_first m today days txns ≡ some ss)
        × IsBackfilled today txns ss
  from_first-IsBackfilled m today days [] same_cash = ([], refl, refl)
  from_first-IsBackfilled m today days ((start, ev) ∷ txns) same_cash =
      replay-IsReplayed m days ((start, ev) ∷ txns) same_cash (today - start) start nought
        (record { cash_balance = nought; holdings = [] }) refl

  -- For any prices and rates, any transactions, and any orders of the loops over the days, the
  -- backfill ends without a panic and stores a snapshot of each day before today from that of the
  -- first transaction on. Its cash is what all transactions up to its day move, those of the
  -- pairs of transfers that are left out among them, and its total is cash and investments.
  pub backfill_net_worth_snapshots-IsBackfilled :
      (m : Quotes F) (order again : Days F → Days F) (today : ℕ) (txns : List (ℕ × TxnEvent F))
      → (ss : List (Snapshot F)) × (backfill_net_worth_snapshots m order again today txns ≡ some ss)
        × IsBackfilled today (reverse txns) ss
  unfolding backfill_net_worth_snapshots get_or
  backfill_net_worth_snapshots-IsBackfilled m order again today txns =
      let days = txns_by_date (reverse txns) [] in
      let rs = removals_of (order days) (again days) in
      from_first-IsBackfilled m today (apply_removals rs days) (reverse txns) (λ date cash.
        apply_removals-cash_after rs (removals_of-Named (order days) (again days)) days date cash
        ∙ ap (cash_after cash) (get_or-txns_by_date (reverse txns) [] date))
