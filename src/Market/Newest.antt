-- ===== src/Market/Newest.antt =====
-- The newest rate on or before a date.
use wealth.Prelude.{
  All, Among, Bool-cases, List, Option, Option-cases, Text, [], ap, arith, false, inl, inr, ltb,
  none, refl, some, true, ℕ, ◌&&◌, ◌∙◌, ◌∷◌, ◌≡◌, ◌≤◌, ◌⊎◌, text_eq, nat_eq,
}
use wealth.Prelude.Float.{Float64, nought}
use wealth.Market.{HistoricalFxRate, best_rate, is_quoted, lookup_rate_for_date}

module _ {F : Type 0} (currency : Text) (target : ℕ) where
  -- The row is quoted, and none of the list that is quoted is newer.
  abbrev IsNewest : HistoricalFxRate F → List (HistoricalFxRate F) → Type 0
  IsNewest b = All (λ r. (is_quoted currency target r ≡ false) ⊎ (r.date ≤ b.date))

  IsNewest-le :
      (a b : HistoricalFxRate F) (rs : List (HistoricalFxRate F))
      → a.date ≤ b.date
      → IsNewest a rs
      → IsNewest b rs
  IsNewest-le a b [] le h = tt
  IsNewest-le a b (r ∷ rs) le (inl e, hs) = (inl e, IsNewest-le a b rs le hs)
  IsNewest-le a b (r ∷ rs) le (inr l, hs) = (inr (omega arith), IsNewest-le a b rs le hs)

  -- What the loop makes of a row that it has: that row or one of the list, not older, and newest.
  abbrev Kept : HistoricalFxRate F → List (HistoricalFxRate F) → Type 0
  Kept b rs =
      (r : HistoricalFxRate F) × (best_rate currency target (some b) rs ≡ some r)
      × ((r ≡ b) ⊎ ((is_quoted currency target r ≡ true) × Among r rs))
      × (b.date ≤ r.date)
      × IsNewest r rs

  kept : (b : HistoricalFxRate F) (rs : List (HistoricalFxRate F)) → Kept b rs
  unfolding best_rate
  kept b [] = (b, refl, inl refl, omega arith, tt)
  kept b (r ∷ rs) = elim (Bool-cases (is_quoted currency target r && ltb b.date r.date)) [
    | inl e ↦
        let (s, found, from, le, newest) = kept r rs in
        let from' : (is_quoted currency target s ≡ true) × Among s (r ∷ rs) = elim from [
          | inl own ↦ rw own (ground (arith, e), inl refl)
          | inr (q, among) ↦ (q, inr among)
        ] in
        (s, rw e found, inr from', ground (arith, le), (inr le, newest))
    | inr n ↦
        let (s, found, from, le, newest) = kept b rs in
        let from' : (s ≡ b) ⊎ ((is_quoted currency target s ≡ true) × Among s (r ∷ rs)) =
          elim from [ inl own ↦ inl own | inr (q, among) ↦ inr (q, inr among) ] in
        (s, rw n found, from', le, (ground (arith, le), newest))
  ]

  -- What the loop over all rates makes of nothing.
  abbrev pub IsBestRate : List (HistoricalFxRate F) → Option (HistoricalFxRate F) → Type 0
  IsBestRate rs none = All (λ r. is_quoted currency target r ≡ false) rs
  IsBestRate rs (some b) = (is_quoted currency target b ≡ true) × Among b rs × IsNewest b rs

  IsBestRate-later :
      (r : HistoricalFxRate F) (rs : List (HistoricalFxRate F)) (o : Option (HistoricalFxRate F))
      → is_quoted currency target r ≡ false
      → IsBestRate rs o
      → IsBestRate (r ∷ rs) o
  IsBestRate-later r rs none n h = (n, h)
  IsBestRate-later r rs (some b) n (q, among, newest) = (q, inr among, (inl n, newest))

  IsBestRate-from :
      (r s : HistoricalFxRate F) (rs : List (HistoricalFxRate F))
      → is_quoted currency target r ≡ true
      → (s ≡ r) ⊎ ((is_quoted currency target s ≡ true) × Among s rs)
      → r.date ≤ s.date
      → IsNewest s rs
      → IsBestRate (r ∷ rs) (some s)
  IsBestRate-from r s rs e (inl own) le newest =
      (ap (is_quoted currency target) own ∙ e, inl own, (inr le, newest))
  IsBestRate-from r s rs e (inr (q, among)) le newest = (q, inr among, (inr le, newest))

  best_rate-IsBestRate :
      (rs : List (HistoricalFxRate F)) → IsBestRate rs (best_rate currency target none rs)
  unfolding best_rate
  best_rate-IsBestRate [] = tt
  best_rate-IsBestRate (r ∷ rs) = elim (Bool-cases (is_quoted currency target r)) [
    | inl e ↦
        let (s, found, from, le, newest) = kept r rs in
        rw (e, found) (IsBestRate-from r s rs e from le newest)
    | inr n ↦
        rw n (IsBestRate-later r rs (best_rate currency target none rs) n (best_rate-IsBestRate rs))
  ]

module _ {F : Type 0} ⦃f : Float64 F⦄ where
  -- For any list of rates, in any order, the rate found for a currency and a date is that of a row
  -- of the currency on or before the date, and no other such row is newer; it is 0 if there is no
  -- such row.
  pub lookup_rate_for_date-newest :
      (rates : List (HistoricalFxRate F)) (currency : Text) (target : ℕ)
      → ((lookup_rate_for_date rates currency target ≡ nought)
          × All (λ r. is_quoted currency target r ≡ false) rates)
        ⊎ ((b : HistoricalFxRate F) × (lookup_rate_for_date rates currency target ≡ b.rate)
            × IsBestRate currency target rates (some b))
  unfolding lookup_rate_for_date
  lookup_rate_for_date-newest rates currency target =
      let best = best_rate-IsBestRate currency target rates in
      elim (Option-cases (best_rate currency target none rates)) [
        | inl e ↦ inl (rw (lookup_rate_for_date, e) refl, rw e at best)
        | inr (b, e) ↦ inr (b, rw (lookup_rate_for_date, e) refl, rw e at best)
      ]
