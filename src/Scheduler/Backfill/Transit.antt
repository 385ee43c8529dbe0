-- ===== src/Scheduler/Backfill/Transit.antt =====
-- The pairs of a transfer out and a transfer in that `BackfillNetWorthSnapshots` of
-- internal/scheduler/jobs.go leaves out. A date is the number of a day.
use wealth.Prelude.{
  Bool, List, Option, Text, [], false, get_or, if◌then◌else◌, insert, is_empty, keep, leb, ltb,
  none, not, same, some, true, ℕ, ◌&&◌, ◌++◌, ◌+◌, ◌∷◌, text_eq, nat_eq,
}
use wealth.Prelude.Float.{Float64, ◌=?◌}
use wealth.Transaction.{TxType}

module _ (F : Type 0) where
  -- `txnEvent`
  pub record TxnEvent : Type 0 where
    pub typ : TxType
    pub isin : Text
    pub amt : F
    pub qty : F

  -- A key of `transferOuts` and its date
  pub record Departure : Type 0 where
    pub isin : Text
    pub qty : F
    pub date : ℕ

-- The two types of a removal.
pub data Leg : Type 0 where
  transfer_out transfer : Leg

module _ (F : Type 0) where
  pub record Removal : Type 0 where
    pub date : ℕ
    pub isin : Text
    pub qty : F
    pub typ : Leg

-- `txnsByDate`
abbrev pub Days : Type 0 → Type 0
Days F = List (ℕ × List (TxnEvent F))

abbrev pub has_leg : Leg → TxType → Bool
has_leg Leg.transfer_out TxType.transfer_out = true
has_leg Leg.transfer TxType.transfer = true
has_leg _ _ = false

-- `diff > 0 && diff <= 7*24*time.Hour`
abbrev pub is_in_transit : ℕ → ℕ → Bool
is_in_transit out_date date = ltb out_date date && leb date (out_date + 7)

module _ {F : Type 0} ⦃f : Float64 F⦄ where
  -- Equality of the keys of `transferOuts`.
  abbrev is_key : Text → F → Departure F → Bool
  is_key isin qty d = same d.isin isin && (d.qty =? qty)

  unfoldable pub put_out : Text → F → ℕ → List (Departure F) → List (Departure F)
  put_out isin qty date [] = record { isin = isin; qty = qty; date = date } ∷ []
  put_out isin qty date (d ∷ outs) =
      let rest = put_out isin qty date outs in
      if is_key isin qty d then record d { date = date } ∷ outs else d ∷ rest

  unfoldable pub find_out : Text → F → List (Departure F) → Option (Departure F)
  find_out isin qty [] = none
  find_out isin qty (d ∷ outs) =
      let rest = find_out isin qty outs in if is_key isin qty d then some d else rest

  -- `delete(transferOuts, key)`
  abbrev drop_out : Text → F → List (Departure F) → List (Departure F)
  drop_out isin qty outs = keep (λ d. not (is_key isin qty d)) outs

  abbrev pub is_departure : TxnEvent F → Bool
  is_departure ev = has_leg Leg.transfer_out ev.typ && not (is_empty ev.isin)

  abbrev pub is_arrival : TxnEvent F → Bool
  is_arrival ev = has_leg Leg.transfer ev.typ && not (is_empty ev.isin)

  -- The first loop, over the events of a day and over the days.
  unfoldable pub collect_day : ℕ → List (TxnEvent F) → List (Departure F) → List (Departure F)
  unfolding put_out
  collect_day date [] outs = outs
  collect_day date (ev ∷ events) outs =
      collect_day date events (if is_departure ev then put_out ev.isin ev.qty date outs else outs)

  unfoldable pub collect_outs : Days F → List (Departure F) → List (Departure F)
  unfolding collect_day
  collect_outs [] outs = outs
  collect_outs ((date, events) ∷ days) outs = collect_outs days (collect_day date events outs)

  -- An event of the second loop, with the map and the removals.
  unfoldable pub pair_event :
      ℕ → TxnEvent F → List (Departure F) × List (Removal F) → List (Departure F) × List (Removal F)
  unfolding find_out
  pair_event date ev (outs, removals) =
      if is_arrival ev
      then elim (find_out ev.isin ev.qty outs) [
        | none ↦ (outs, removals)
        | some out ↦
            if is_in_transit out.date date
            then (
              drop_out ev.isin ev.qty outs,
              removals
                  ++ record {
                    date = out.date;
                    isin = ev.isin;
                    qty = ev.qty;
                    typ = Leg.transfer_out;
                  }
                    ∷ record { date = date; isin = ev.isin; qty = ev.qty; typ = Leg.transfer }
                    ∷ [],
            )
            else (outs, removals)
      ]
      else (outs, removals)

  unfoldable pub pair_day :
      ℕ
      → List (TxnEvent F)
      → List (Departure F) × List (Removal F)
      → List (Departure F) × List (Removal F)
  unfolding pair_event
  pair_day date [] s = s
  pair_day date (ev ∷ events) s = pair_day date events (pair_event date ev s)

  unfoldable pub pair_days :
      Days F → List (Departure F) × List (Removal F) → List (Departure F) × List (Removal F)
  unfolding pair_day
  pair_days [] s = s
  pair_days ((date, events) ∷ days) s = pair_days days (pair_day date events s)

  -- `removals`, where the loops range over the map in these two orders.
  unfoldable pub removals_of : Days F → Days F → List (Removal F)
  unfolding collect_outs pair_days
  removals_of days again = (pair_days again (collect_outs days [], [])).1

  abbrev pub is_removed : Removal F → TxnEvent F → Bool
  is_removed r ev = has_leg r.typ ev.typ && same ev.isin r.isin && (ev.qty =? r.qty)

  -- The first event that a removal is about is left out.
  unfoldable pub remove_first : Removal F → List (TxnEvent F) → List (TxnEvent F)
  remove_first r [] = []
  remove_first r (ev ∷ events) =
      let rest = remove_first r events in if is_removed r ev then events else ev ∷ rest

  unfoldable pub apply_removals : List (Removal F) → Days F → Days F
  unfolding remove_first
  apply_removals [] days = days
  apply_removals (r ∷ rs) days =
      apply_removals rs (insert r.date (remove_first r (get_or r.date [] days)) days)
