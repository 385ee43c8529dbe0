-- ===== src/Scheduler/Backfill/History/Latest.antt =====
-- The binary searches find the newest point on or before the date.
use wealth.Prelude.{
  Bool-cases, List, Option, Text, [], arith, false, get_elem?, get_or, if◌then◌else◌, inl, inr,
  is_empty, keep, leb, length, lit, none, refl, same, some, suc, true, zero, ℕ, ◌||◌, ◌∙◌, ◌∷◌, ◌≡◌,
  text_eq,
}
use wealth.Prelude.Float.{Float64, nought}
use wealth.Scheduler.Backfill.History.{
  Point, get_fx_rate_at, get_price_at, read, search, value_at, whole,
}
use wealth.Scheduler.Backfill.History.Split.{
  IsSorted, IsSplit, get_elem?-before, is_before, is_before-sorted, search-IsSplit-whole,
}

module _ {F : Type 0} where
  -- The last of a list.
  abbrev pub last : Option (Point F) → List (Point F) → Option (Point F)
  last found [] = found
  last found (p ∷ ps) = last (some p) ps

  -- The points on or before a date.
  abbrev pub until : ℕ → List (Point F) → List (Point F)
  until date = keep (λ p. leb p.date date)

  last-until_none :
      (date : ℕ) (found : Option (Point F)) (ps : List (Point F))
      → IsSorted ps
      → is_before date ps 0 ≡ false
      → last found (until date ps) ≡ found
  last-until_none date found [] sorted n = refl
  last-until_none date found (p ∷ ps) sorted n = rw n (
      last-until_none date found ps sorted.1
        (is_before-sorted date (p ∷ ps) sorted 0 1 (omega arith) n))

  last-until :
      (date : ℕ) (found : Option (Point F)) (ps : List (Point F)) (i : ℕ) (p : Point F)
      → IsSorted ps
      → is_before date ps i ≡ true
      → is_before date ps (suc i) ≡ false
      → get_elem? ps i ≡ some p
      → last found (until date ps) ≡ some p
  last-until date found [] i p sorted y n e = absurd (ground (arith, e))
  last-until date found (q ∷ ps) zero p sorted y n e =
      rw y (last-until_none date (some q) ps sorted.1 n ∙ e)
  last-until date found (q ∷ ps) (suc i) p sorted y n e = elim (Bool-cases (leb q.date date)) [
    | inl b ↦ rw b (last-until date (some q) ps i p sorted.1 y n e)
    | inr b ↦
        absurd (ground (arith, y, is_before-sorted date (q ∷ ps) sorted 0 (suc i) (omega arith) b))
  ]

  module _ ⦃f : Float64 F⦄ where
    abbrev pub worth : Option (Point F) → F
    worth none = nought
    worth (some p) = p.value

    value_at-split :
        (date : ℕ) (pts : List (Point F)) (r : Option ℕ)
        → search (length pts) pts date (whole pts) ≡ some r
        → IsSplit date pts r
        → IsSorted pts
        → value_at pts date ≡ some (worth (last none (until date pts)))
    unfolding value_at
    value_at-split date pts none e n sorted =
        rw (value_at, e, last-until_none date none pts sorted n) refl
    value_at-split date pts (some i) e (y, n) sorted =
        let (p, at) = get_elem?-before date pts i y in
        rw (value_at, e, read, at, last-until date none pts i p sorted y n at) refl

    pub value_at-newest :
        (date : ℕ) (pts : List (Point F))
        → IsSorted pts
        → value_at pts date ≡ some (worth (last none (until date pts)))
    value_at-newest date pts sorted =
        let (r, e, split) = search-IsSplit-whole date pts in
        value_at-split date pts r e split sorted

    value_at-split_returns :
        (date : ℕ) (pts : List (Point F)) (r : Option ℕ)
        → search (length pts) pts date (whole pts) ≡ some r
        → IsSplit date pts r
        → (x : F) × (value_at pts date ≡ some x)
    unfolding value_at
    value_at-split_returns date pts none e n = (nought, rw (value_at, e) refl)
    value_at-split_returns date pts (some i) e (y, n) =
        let (p, at) = get_elem?-before date pts i y in (p.value, rw (value_at, e, read, at) refl)

    -- In any order of the dates, the search ends without a panic.
    pub value_at-returns :
        (date : ℕ) (pts : List (Point F)) → (x : F) × (value_at pts date ≡ some x)
    value_at-returns date pts =
        let (r, e, split) = search-IsSplit-whole date pts in
        value_at-split_returns date pts r e split

    -- In histories sorted by date, the price at a date is that of the last point on or before it, and
    -- 0 if there is none; so is the rate of a currency, which is 1 for the euro and for no currency.
    -- Both searches end without a panic.
    pub get_price_at-get_fx_rate_at-newest :
        (prices rates : List (Text × List (Point F))) (isin currency : Text) (date : ℕ)
        → IsSorted (get_or isin [] prices)
        → IsSorted (get_or currency [] rates)
        → (get_price_at prices isin date
            ≡ some (worth (last none (until date (get_or isin [] prices)))))
          × (get_fx_rate_at rates currency date
              ≡ some (
                  if is_empty currency || same currency (lit "EUR")
                  then f.literal 1 0
                  else worth (last none (until date (get_or currency [] rates)))))
    unfolding get_price_at get_fx_rate_at
    get_price_at-get_fx_rate_at-newest prices rates isin currency date sorted sorted' = (
      value_at-newest date (get_or isin [] prices) sorted,
      ground (arith, value_at-newest date (get_or currency [] rates) sorted'),
    )
