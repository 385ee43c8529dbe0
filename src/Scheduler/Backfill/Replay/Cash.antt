-- ===== src/Scheduler/Backfill/Replay/Cash.antt =====
-- The cash of the snapshots does not depend on the pairs of transfers that are left out.
use wealth.Prelude.{
  ==_iff, All, All-append, Bool-cases, List, Option-cases, Text, [], ap, arith, false, get_or,
  get_or-insert, if◌then◌else◌, inl, inr, insert, is_empty, refl, same_iff, true, ℕ, ◌==◌, ◌∙◌, ◌∷◌,
  ◌≡◌, text_eq, nat_eq,
}
use wealth.Prelude.Float.{Float64, ◌⊕◌, ◌⊖◌}
use wealth.Transaction.{TxType}
use wealth.Scheduler.Backfill.Transit.{
  Days, Departure, Leg, Removal, TxnEvent, apply_removals, collect_outs, find_out, has_leg,
  is_arrival, is_in_transit, is_removed, pair_day, pair_days, pair_event, removals_of, remove_first,
}
use wealth.Scheduler.Backfill.Replay.{Account, apply_event, apply_events}

-- How a transaction moves cash.
pub data Direction : Type 0 where
  inflow outflow neither : Direction

abbrev pub direction : TxType → Text → Direction
direction TxType.deposit isin = inflow
direction TxType.interest isin = inflow
direction TxType.cash_transfer_in isin = inflow
direction TxType.dividend isin = inflow
direction TxType.sell isin = inflow
direction TxType.withdrawal isin = outflow
direction TxType.fee isin = outflow
direction TxType.tax isin = outflow
direction TxType.cash_transfer_out isin = outflow
direction TxType.buy isin = outflow
direction TxType.savings_plan isin = outflow
direction TxType.transfer isin = if is_empty isin then outflow else neither
direction TxType.transfer_out isin = neither
direction (TxType.other _) isin = neither

has_leg-direction :
    (leg : Leg) (typ : TxType) (isin : Text)
    → has_leg leg typ ≡ true
    → is_empty isin ≡ false
    → direction typ isin ≡ neither
has_leg-direction leg typ isin h n = ground arith

module _ {F : Type 0} ⦃f : Float64 F⦄ where
  abbrev moved : Direction → F → F → F
  moved inflow amt cash = cash ⊕ amt
  moved outflow amt cash = cash ⊖ amt
  moved neither amt cash = cash

  -- Cash after the events of a day.
  abbrev pub cash_after : F → List (TxnEvent F) → F
  cash_after cash [] = cash
  cash_after cash (ev ∷ events) = cash_after (moved (direction ev.typ ev.isin) ev.amt cash) events

  apply_event-cash :
      (typ : TxType) (ev : TxnEvent F) (s : Account F)
      → (apply_event typ ev s).cash_balance ≡ moved (direction typ ev.isin) ev.amt s.cash_balance
  unfolding apply_event
  apply_event-cash TxType.transfer ev s = ground arith
  apply_event-cash TxType.transfer_out ev s = ground arith
  apply_event-cash TxType.buy ev s = ground arith
  apply_event-cash TxType.savings_plan ev s = ground arith
  apply_event-cash TxType.sell ev s = ground arith
  apply_event-cash _ ev s = refl

  pub apply_events-cash :
      (events : List (TxnEvent F)) (s : Account F)
      → (apply_events events s).cash_balance ≡ cash_after s.cash_balance events
  unfolding apply_events
  apply_events-cash [] s = refl
  apply_events-cash (ev ∷ events) s =
      apply_events-cash events (apply_event ev.typ ev s)
      ∙ ap (λ cash. cash_after cash events) (apply_event-cash ev.typ ev s)

  removed-direction :
      (r : Removal F) (ev : TxnEvent F)
      → is_empty r.isin ≡ false
      → is_removed r ev ≡ true
      → direction ev.typ ev.isin ≡ neither
  removed-direction r ev n y =
      has_leg-direction r.typ ev.typ ev.isin (ground (arith, y))
        (ap is_empty ((same_iff ev.isin r.isin).0 (ground (arith, y))) ∙ n)

  -- An event that is left out moves no cash.
  remove_first-cash_after :
      (r : Removal F)
      → is_empty r.isin ≡ false
      → (cash : F) (events : List (TxnEvent F))
      → cash_after cash (remove_first r events) ≡ cash_after cash events
  unfolding remove_first
  remove_first-cash_after r n cash [] = refl
  remove_first-cash_after r n cash (ev ∷ events) = elim (Bool-cases (is_removed r ev)) [
    | inl y ↦ rw (remove_first, y, removed-direction r ev n y) refl
    | inr m ↦
        rw (remove_first, m)
          (remove_first-cash_after r n (moved (direction ev.typ ev.isin) ev.amt cash) events)
  ]

  -- Removals of transactions of a security.
  abbrev Named : List (Removal F) → Type 0
  Named = All (λ r. is_empty r.isin ≡ false)

  pub apply_removals-cash_after :
      (rs : List (Removal F))
      → Named rs
      → (days : Days F) (date : ℕ) (cash : F)
      → cash_after cash (get_or date [] (apply_removals rs days))
        ≡ cash_after cash (get_or date [] days)
  unfolding apply_removals
  apply_removals-cash_after [] h days date cash = refl
  apply_removals-cash_after (r ∷ rs) (h, hs) days date cash =
      apply_removals-cash_after rs hs (insert r.date (remove_first r (get_or r.date [] days)) days)
        date cash
      ∙ elim (Bool-cases (r.date == date)) [
        | inl y ↦
            rw
              (
                get_or-insert r.date date [] (remove_first r (get_or r.date [] days)) days,
                y,
                ← (==_iff r.date date).0 y,
              )
              (remove_first-cash_after r h cash (get_or r.date [] days))
        | inr n ↦
            rw (get_or-insert r.date date [] (remove_first r (get_or r.date [] days)) days, n) refl
      ]

  pair_event-Named :
      (date : ℕ) (ev : TxnEvent F) (outs : List (Departure F)) (rs : List (Removal F))
      → Named rs
      → Named (pair_event date ev (outs, rs)).1
  unfolding pair_event
  pair_event-Named date ev outs rs h = elim (Bool-cases (is_arrival ev)) [
    | inl y ↦ elim (Option-cases (find_out ev.isin ev.qty outs)) [
      | inl e ↦ rw (pair_event, y, e) h
      | inr (out, e) ↦ elim (Bool-cases (is_in_transit out.date date)) [
        | inl t ↦
            rw (pair_event, y, e, t)
              (All-append (λ r. is_empty r.isin ≡ false) rs _ h
                (ground (arith, y), (ground (arith, y), tt)))
        | inr n ↦ rw (pair_event, y, e, n) h
      ]
    ]
    | inr n ↦ rw (pair_event, n) h
  ]

  pair_day-Named :
      (date : ℕ) (events : List (TxnEvent F)) (s : List (Departure F) × List (Removal F))
      → Named s.1
      → Named (pair_day date events s).1
  unfolding pair_day
  pair_day-Named date [] s h = h
  pair_day-Named date (ev ∷ events) s h =
      pair_day-Named date events (pair_event date ev s) (pair_event-Named date ev s.0 s.1 h)

  pair_days-Named :
      (days : Days F) (s : List (Departure F) × List (Removal F))
      → Named s.1
      → Named (pair_days days s).1
  unfolding pair_days
  pair_days-Named [] s h = h
  pair_days-Named ((date, events) ∷ days) s h =
      pair_days-Named days (pair_day date events s) (pair_day-Named date events s h)

  pub removals_of-Named : (days again : Days F) → Named (removals_of days again)
  unfolding removals_of
  removals_of-Named days again = pair_days-Named again (collect_outs days [], []) tt
