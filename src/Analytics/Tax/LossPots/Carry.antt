-- ===== src/Analytics/Tax/LossPots/Carry.antt =====
-- The years of the report, and what they carry forward.
use wealth.Prelude.{
  All, List, Option, [], any, ap, arith, contains, get_or, map, none, refl, some, ℕ, ◌<◌, ◌||◌,
  ◌==◌, ◌∷◌, ◌≡◌, text_eq, nat_eq,
}
use wealth.Prelude.Float.{Float64, nought, to_cents, ◌⊕◌}
use wealth.Prelude.Float.Order.{IsMonotone, IsOrdered, ◌≼◌}
use wealth.Transaction.{TxType}
use wealth.Analytics.Tax.Rates.{TaxTransaction}
use wealth.Analytics.Tax.LossPots.{
  LossPotYear, Pot, PotState, add_year, carried, compute_loss_pots, empty_pots, pot_transaction,
  pot_transactions, pot_years,
}

-- The list rises strictly from above `below`, if that is there.
abbrev pub IsAscending : Option ℕ → List ℕ → Type 0
IsAscending below [] = Unit
IsAscending none (y ∷ ys) = IsAscending (some y) ys
IsAscending (some z) (y ∷ ys) = (z < y) × IsAscending (some y) ys

IsAscending-none : (z : ℕ) (ys : List ℕ) → IsAscending (some z) ys → IsAscending none ys
IsAscending-none z [] h = tt
IsAscending-none z (y ∷ ys) h = h.1

add_year-IsAscending-some :
    (z y : ℕ) (ys : List ℕ) → z < y → IsAscending (some z) ys → IsAscending (some z) (add_year y ys)
unfolding add_year
add_year-IsAscending-some z y [] h a = (h, tt)
add_year-IsAscending-some z y (x ∷ xs) h a = ground (arith, add_year-IsAscending-some x y xs)

add_year-IsAscending :
    (y : ℕ) (ys : List ℕ) → IsAscending none ys → IsAscending none (add_year y ys)
unfolding add_year
add_year-IsAscending y [] a = tt
add_year-IsAscending y (x ∷ xs) a = ground (arith, add_year-IsAscending-some x y xs)

contains-add_year :
    (y : ℕ) (ys : List ℕ) (z : ℕ) → contains (add_year y ys) z ≡ ((y == z) || contains ys z)
unfolding add_year
contains-add_year y [] z = ground arith
contains-add_year y (x ∷ xs) z = ground (arith, contains-add_year y xs z)

module _ {F : Type 0} ⦃f : Float64 F⦄ where
  pot_transaction-years :
      (type : TxType) (t : TaxTransaction F) (s : PotState F)
      → (pot_transaction type t s).years ≡ s.years
  unfolding pot_transaction
  pot_transaction-years TxType.buy t s = ground arith
  pot_transaction-years _ t s = ground arith

  pot_transactions-IsAscending :
      (ts : List (TaxTransaction F)) (s : PotState F)
      → IsAscending none s.years
      → IsAscending none (pot_transactions ts s).years
  unfolding pot_transactions
  pot_transactions-IsAscending [] s a = a
  pot_transactions-IsAscending (t ∷ ts) s a = pot_transactions-IsAscending ts _ (
      rw (pot_transaction-years t.type t (record s { years = add_year t.year s.years }))
        (add_year-IsAscending t.year s.years a))

  -- The years of the result are those of the start and those of the transactions.
  pot_transactions-contains :
      (ts : List (TaxTransaction F)) (s : PotState F) (z : ℕ)
      → contains (pot_transactions ts s).years z ≡ (contains s.years z || any (λ t. t.year == z) ts)
  unfolding pot_transactions
  pot_transactions-contains [] s z = ground arith
  pot_transactions-contains (t ∷ ts) s z =
      let next = record s { years = add_year t.year s.years } in
      rw
        (
          pot_transactions-contains ts (pot_transaction t.type t next) z,
          pot_transaction-years t.type t next,
          contains-add_year t.year s.years z,
        )
        (ground arith)

  -- The result of a year in a pot.
  abbrev pub net : ℕ → Pot F → F
  net year p = get_or year nought p.gains ⊕ get_or year nought p.losses

  abbrev pub report_years : List (LossPotYear F) → List ℕ
  report_years = map (λ e. e.year)

  pot_years-years :
      (s : PotState F) (years : List ℕ) (carry_equity carry_general : F)
      → report_years (pot_years s carry_equity carry_general years) ≡ years
  unfolding pot_years
  pot_years-years s [] carry_equity carry_general = refl
  pot_years-years s (y ∷ ys) carry_equity carry_general = ap (◌∷◌ y) (pot_years-years s ys _ _)

  module _ (laws : IsOrdered F) where
    open laws use {le_refl, lt-eq-not-le, to_cents_mono, to_cents_whole, le_total, le_trans}

    carried_le : (net : F) → to_cents (carried net) ≼ nought
    carried_le net = rw (to_cents_whole 0 (omega arith)) at (
        to_cents_mono (carried net) nought
          (ground (arith, le_refl nought, lt-eq-not-le net nought, le_total net nought)))

    abbrev pub CarriesLoss : LossPotYear F → Type 0
    CarriesLoss e = (e.carry_forward_equity ≼ nought) × (e.carry_forward_general ≼ nought)

    pot_years-CarriesLoss :
        (s : PotState F) (years : List ℕ) (carry_equity carry_general : F)
        → All CarriesLoss (pot_years s carry_equity carry_general years)
    unfolding pot_years
    pot_years-CarriesLoss s [] carry_equity carry_general = tt
    pot_years-CarriesLoss s (y ∷ ys) carry_equity carry_general =
        ((carried_le _, carried_le _), pot_years-CarriesLoss s ys _ _)

    -- How a year with a net result moves what a pot carries: a loss never makes it better, a gain
    -- never makes it worse.
    abbrev pub Moves : F → F → F → Type 0
    Moves result before after =
        (result ≼ nought → after ≼ before) × (nought ≼ result → before ≼ after)

    -- The entries carry on one from the other, and the first from what is carried before it.
    abbrev pub CarriesOn : PotState F → F → F → List (LossPotYear F) → Type 0
    CarriesOn s equity general [] = Unit
    CarriesOn s equity general (e ∷ es) =
        Moves (net e.year s.equity) equity e.carry_forward_equity
        × Moves (net e.year s.general) general e.carry_forward_general
        × CarriesOn s e.carry_forward_equity e.carry_forward_general es

    module _ (sums : IsMonotone F) where
      open sums use {add_le, le_add}

      moved :
          (result before : F)
          → before ≼ nought
          → Moves result (to_cents before) (to_cents (carried (result ⊕ before)))
      moved result before h = (
        λ k. to_cents_mono _ _ (
            ground (
              arith,
              add_le result before k,
              le_trans nought (result ⊕ before) before,
              le_total nought (result ⊕ before),
              lt-eq-not-le (result ⊕ before) nought,
            )),
        λ k. to_cents_mono _ _ (ground (arith, le_add result before k, h)),
      )

      carried_nonpos : (x : F) → carried x ≼ nought
      carried_nonpos x = ground (arith, le_refl nought, lt-eq-not-le x nought, le_total x nought)

      pot_years-CarriesOn :
          (s : PotState F) (years : List ℕ) (equity general : F)
          → equity ≼ nought
          → general ≼ nought
          → CarriesOn s (to_cents equity) (to_cents general) (pot_years s equity general years)
      unfolding pot_years
      pot_years-CarriesOn s [] equity general h k = tt
      pot_years-CarriesOn s (y ∷ ys) equity general h k = (
        moved (net y s.equity) equity h,
        moved (net y s.general) general k,
        pot_years-CarriesOn s ys _ _ (carried_nonpos _) (carried_nonpos _),
      )

      -- The report rises strictly and has the years in which there are transactions, and no others.
      -- What a year carries forward in either pot is no gain; compared with what the year before
      -- carried, it is no better after a year without a net gain, and no worse after one without a
      -- net loss. Results are summed in the pots by year; numbers are ordered, none of them NaN.
      pub compute_loss_pots-years :
          (txns : List (TaxTransaction F))
          → let report = compute_loss_pots txns in
            IsAscending none (report_years report)
            × ((y : ℕ) → contains (report_years report) y ≡ any (λ t. t.year == y) txns)
            × All CarriesLoss report
            × CarriesOn (pot_transactions txns empty_pots) nought nought report
      unfolding compute_loss_pots
      compute_loss_pots-years txns =
          let s = pot_transactions txns empty_pots in
          let start =
            pot_years-CarriesOn s s.years nought nought (le_refl nought) (le_refl nought) in
          (
            rw (pot_years-years s s.years nought nought)
                (pot_transactions-IsAscending txns empty_pots tt),
            λ y.
                rw (pot_years-years s s.years nought nought)
                  (pot_transactions-contains txns empty_pots y),
            pot_years-CarriesLoss s s.years nought nought,
            rw (to_cents_whole 0 (omega arith)) at start,
          )
