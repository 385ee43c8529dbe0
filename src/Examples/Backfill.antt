-- ===== src/Examples/Backfill.antt =====
-- internal/scheduler/jobs.go: `BackfillNetWorthSnapshots`
use wealth.Prelude.{
  List, Text, [], arith, get_or, insert, lit, refl, same, some, ℕ, ◌∷◌, ◌≡◌, text_eq, nat_eq,
}
use wealth.Prelude.Float.{nought}
use wealth.Prelude.Float.Fixed.{Fixed, fixed_float}
use mathlib.Core.List.{reverse}
use wealth.Analytics.AverageCost.{add_lot}
use wealth.Transaction.{TxType}
use wealth.Scheduler.Backfill.History.Latest.{get_price_at-get_fx_rate_at-newest}
use wealth.Scheduler.Backfill.History.{Point, get_fx_rate_at, get_price_at}
use wealth.Scheduler.Backfill.Transit.{Days, TxnEvent, apply_removals, removals_of}
use wealth.Scheduler.Backfill.Replay.Returns.{
  IsBackfilled, backfill_net_worth_snapshots-IsBackfilled,
}
use wealth.Scheduler.Backfill.Replay.{Quotes, Snapshot, backfill_net_worth_snapshots, snapshot_of}

abbrev whole_number : ℕ → Fixed
whole_number n = fixed_float.literal n 0

abbrev world : Text
world = lit "IE00B4L5Y983"

abbrev at : ℕ → ℕ → Point Fixed
at date value = record { date = date; value = whole_number value }

-- Quoted at 100 dollars, and at 110 from day 13; two dollars to the euro.
abbrev quotes : Quotes Fixed
quotes = record {
  price_history = (world, at 10 100 ∷ at 13 110 ∷ at 20 120 ∷ []) ∷ [];
  fx_history = (lit "USD", at 9 2 ∷ []) ∷ [];
  security_currency = (world, lit "USD") ∷ [];
}

abbrev event : TxType → Text → ℕ → ℕ → TxnEvent Fixed
event typ isin amt qty = record {
  typ = typ;
  isin = isin;
  amt = whole_number amt;
  qty = whole_number qty;
}

-- The newest first: four shares are bought on day 11, and change the broker from day 12 to day 14.
abbrev txns : List (ℕ × TxnEvent Fixed)
txns =
    (14, event TxType.transfer world 200 4)
    ∷ (12, event TxType.transfer_out world 200 4)
    ∷ (11, event TxType.buy world 200 4)
    ∷ (11, event TxType.deposit [] 1000 0)
    ∷ []

abbrev snapshot : ℕ → ℕ → ℕ → Snapshot Fixed
snapshot date cash investments = snapshot_of date (whole_number cash) (whole_number investments)

abbrev as_is : Days Fixed → Days Fixed
as_is days = days

backfilled :
    backfill_net_worth_snapshots quotes as_is as_is 15 txns
    ≡ some
        (snapshot 11 800 200 ∷ snapshot 12 800 200 ∷ snapshot 13 800 220 ∷ snapshot 14 800 220 ∷ [])
unfolding backfill_net_worth_snapshots get_or apply_removals removals_of insert same add_lot
backfilled = refl

price_on_12 : get_price_at quotes.price_history world 12 ≡ some (whole_number 100)
unfolding get_price_at get_or same
price_on_12 = refl

price_too_early : get_price_at quotes.price_history world 8 ≡ some nought
unfolding get_price_at get_or same
price_too_early = refl

get_price_at-get_fx_rate_at-newest_example :
    (get_price_at quotes.price_history world 14 ≡ some (whole_number 110))
    × (get_fx_rate_at quotes.fx_history (lit "USD") 14 ≡ some (whole_number 2))
unfolding get_or same
get_price_at-get_fx_rate_at-newest_example =
    get_price_at-get_fx_rate_at-newest quotes.price_history quotes.fx_history world (lit "USD") 14
      ((omega arith, (omega arith, tt)), ((omega arith, tt), (tt, tt))) (tt, tt)

backfill_net_worth_snapshots-IsBackfilled_example :
    (ss : List (Snapshot Fixed)) × (backfill_net_worth_snapshots quotes as_is as_is 15 txns
      ≡ some ss)
    × IsBackfilled 15 (reverse txns) ss
backfill_net_worth_snapshots-IsBackfilled_example =
    backfill_net_worth_snapshots-IsBackfilled quotes as_is as_is 15 txns
