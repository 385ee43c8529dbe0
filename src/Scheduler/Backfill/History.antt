-- ===== src/Scheduler/Backfill/History.antt =====
-- The histories of prices and rates of `BackfillNetWorthSnapshots` of internal/scheduler/jobs.go, in
-- the order of their dates, and the binary search of `getPriceAt` and `getFXRateAt`. A date is the
-- number of a day.
pub mod Split
pub mod Latest
use wealth.Prelude.{
  List, Option, Text, [], get_elem?, get_or, if◌then◌else◌, is_empty, leb, length, lit, ltb, none,
  same, some, suc, zero, ℕ, ◌+◌, ◌-◌, ◌/◌, ◌||◌, text_eq,
}
use wealth.Prelude.Float.{Float64, nought}

module _ (F : Type 0) where
  -- `pricePoint` and `ratePoint`
  pub record Point : Type 0 where
    pub date : ℕ
    pub value : F

-- The variables of the loop: `top` is `hi + 1`, since `hi` may become -1, and `result` is none
-- for -1.
pub record Search : Type 0 where
  pub lo : ℕ
  pub top : ℕ
  pub result : Option ℕ

-- `mid`, of `lo <= hi`
abbrev pub middle : Search → ℕ
middle s = (s.lo + (s.top - 1)) / 2

module _ {F : Type 0} where
  -- The variables before the loop.
  abbrev pub whole : List (Point F) → Search
  whole pts = record { lo = 0; top = length pts; result = none }

  -- One round: none if `mid` is out of range.
  unfoldable pub narrow : List (Point F) → ℕ → Search → Option Search
  narrow pts date s = elim (get_elem? pts (middle s)) [
    | none ↦ none
    | some p ↦
        if leb p.date date
        then some (record s { lo = middle s + 1; result = some (middle s) })
        else some (record s { top = middle s })
  ]

  -- The loop. It is none if a round is out of range, or if the fuel does not last.
  unfoldable pub search : ℕ → List (Point F) → ℕ → Search → Option (Option ℕ)
  unfolding narrow
  search zero pts date s = if ltb s.lo s.top then none else some s.result
  search (suc fuel) pts date s =
      if ltb s.lo s.top
      then elim (narrow pts date s) [ none ↦ none | some s' ↦ search fuel pts date s' ]
      else some s.result

  module _ ⦃f : Float64 F⦄ where
    -- What is found: 0 of no index.
    abbrev pub read : List (Point F) → Option (Option ℕ) → Option F
    read pts none = none
    read pts (some none) = some nought
    read pts (some (some i)) = elim (get_elem? pts i) [ none ↦ none | some p ↦ some p.value ]

    -- As many rounds as there are points are enough.
    unfoldable pub value_at : List (Point F) → ℕ → Option F
    unfolding search
    value_at pts date = read pts (search (length pts) pts date (whole pts))

    -- `getPriceAt`
    unfoldable pub get_price_at : List (Text × List (Point F)) → Text → ℕ → Option F
    unfolding value_at
    get_price_at price_history isin date = value_at (get_or isin [] price_history) date

    -- `getFXRateAt`
    unfoldable pub get_fx_rate_at : List (Text × List (Point F)) → Text → ℕ → Option F
    unfolding value_at
    get_fx_rate_at fx_history currency date =
        if is_empty currency || same currency (lit "EUR")
        then some (f.literal 1 0)
        else value_at (get_or currency [] fx_history) date
