-- ===== src/Analytics/Risk/Drawdown.antt =====
-- The maximum drawdown is the deepest one.
use wealth.Prelude.{
  List, Option, [], arith, false, if◌then◌else◌, inl, inr, none, refl, some, ℕ, ◌∙◌, ◌∷◌, ◌≡◌, ◌⊎◌,
  text_eq, nat_eq,
}
use wealth.Prelude.Float.{Float64, nought, ◌<?◌, ◌⊖◌, ◌⊘◌}
use mathlib.Core.Path.{subst, subst₂}
use wealth.Prelude.Float.Order.{IsOrdered, ◌≼◌}
use wealth.Analytics.Performance.{DailyValuation}
use wealth.Analytics.Risk.{Descent, descend, descend_all, max_drawdown}

module _ {F : Type 0} ⦃f : Float64 F⦄ where
  -- The loss of a value since a peak, as a share of the peak.
  abbrev pub loss : F → F → F
  loss peak value = (peak ⊖ value) ⊘ peak

  abbrev pub higher_of : F → F → F
  higher_of peak value = if peak <? value then value else peak

  -- No value lost more than `m` since the highest value so far, where that is positive.
  abbrev pub IsDeepest : F → F → List (DailyValuation F) → Type 0
  IsDeepest m peak [] = Unit
  IsDeepest m peak (s ∷ snapshots) =
      let peak' = higher_of peak s.value in
      (((nought <? peak') ≡ false) ⊎ (loss peak' s.value ≼ m)) × IsDeepest m peak' snapshots

  -- Some value, on the second date, lost `m` since the highest value until then, which stood on the first date.
  abbrev pub IsReached : F → ℕ × ℕ → F → ℕ → List (DailyValuation F) → Type 0
  IsReached m dates peak date [] = ⊥
  IsReached m dates peak date (s ∷ snapshots) =
      let peak' = higher_of peak s.value in
      let date' = if peak <? s.value then s.date else date in
      ((dates ≡ (date', s.date)) × (m ≡ loss peak' s.value))
      ⊎ IsReached m dates peak' date' snapshots

  -- The drawdown that is found: nothing lost, or a loss that is reached, with its dates.
  abbrev pub IsFound : Option (ℕ × ℕ) × F → F → ℕ → List (DailyValuation F) → Type 0
  IsFound (none, m) peak date snapshots = m ≡ nought
  IsFound (some dates, m) peak date snapshots = IsReached m dates peak date snapshots

  module _ (laws : IsOrdered F) where
    descend-deeper :
        (s : DailyValuation F) (d : Descent F)
        → (d.max_dd ≼ (descend s d).max_dd)
          × (((nought <? higher_of d.peak s.value) ≡ false)
              ⊎ (loss (higher_of d.peak s.value) s.value ≼ (descend s d).max_dd))
          × ((descend s d).peak ≡ higher_of d.peak s.value)
    unfolding descend
    descend-deeper s d =
        let peak = higher_of d.peak s.value in
        let x = loss peak s.value in
        ground (
          arith,
          laws.lt-eq-not-le d.max_dd x,
          laws.le_refl d.max_dd,
          laws.le_refl x,
          laws.le_total d.max_dd x,
        )

    IsDeepest-same :
        (m : F) (snapshots : List (DailyValuation F)) {p q : F}
        → p ≡ q
        → IsDeepest m p snapshots
        → IsDeepest m q snapshots
    IsDeepest-same m snapshots = subst (λ p. IsDeepest m p snapshots)

    descend_all-IsDeepest :
        (snapshots : List (DailyValuation F)) (d : Descent F)
        → (d.max_dd ≼ (descend_all snapshots d).max_dd)
          × IsDeepest (descend_all snapshots d).max_dd d.peak snapshots
    unfolding descend_all
    descend_all-IsDeepest [] d = (laws.le_refl d.max_dd, tt)
    descend_all-IsDeepest (s ∷ snapshots) d =
        let (grows, loses, peak) = descend-deeper s d in
        let (more, deepest) = descend_all-IsDeepest snapshots (descend s d) in
        let m = (descend_all snapshots (descend s d)).max_dd in
        let lost : ((nought <? higher_of d.peak s.value) ≡ false)
            ⊎ (loss (higher_of d.peak s.value) s.value ≼ m) =
          elim loses [
            | inl n ↦ inl n
            | inr le ↦ inr (
                laws.le_trans (loss (higher_of d.peak s.value) s.value) (descend s d).max_dd m le
                  more)
          ] in
        (
          laws.le_trans d.max_dd (descend s d).max_dd m grows more,
          (lost, IsDeepest-same m snapshots peak deepest),
        )

  -- What a round does to the deepest loss: nothing, or it is that of the round.
  descend-cases :
      (s : DailyValuation F) (d : Descent F)
      → let s' = descend s d in
        let peak = higher_of d.peak s.value in
        let date = if d.peak <? s.value then s.date else d.peak_date in
        (s'.peak ≡ peak)
        × (s'.peak_date ≡ date)
        × (((s'.max_dd ≡ d.max_dd) × (s'.dd_dates ≡ d.dd_dates))
            ⊎ ((s'.max_dd ≡ loss peak s.value) × (s'.dd_dates ≡ some (date, s.date))))
  unfolding descend
  descend-cases s d = ground arith

  -- The dates of the loop are those before it, or those of a loss that is reached.
  abbrev IsTracked : Descent F → Descent F → List (DailyValuation F) → Type 0
  IsTracked d end snapshots =
      ((end.max_dd ≡ d.max_dd) × (end.dd_dates ≡ d.dd_dates))
      ⊎ ((dates : ℕ × ℕ) × (end.dd_dates ≡ some dates)
          × IsReached end.max_dd dates d.peak d.peak_date snapshots)

  IsReached-same :
      (m : F) (dates : ℕ × ℕ) (snapshots : List (DailyValuation F)) {p q : F} {a b : ℕ}
      → p ≡ q
      → a ≡ b
      → IsReached m dates p a snapshots
      → IsReached m dates q b snapshots
  IsReached-same m dates snapshots e e' = subst₂ (λ p a. IsReached m dates p a snapshots) e e'

  descend_all-IsTracked :
      (snapshots : List (DailyValuation F)) (d : Descent F)
      → IsTracked d (descend_all snapshots d) snapshots
  unfolding descend_all
  descend_all-IsTracked [] d = inl (refl, refl)
  descend_all-IsTracked (s ∷ snapshots) d =
      let (peak, date, step) = descend-cases s d in
      elim (descend_all-IsTracked snapshots (descend s d)) [
        | inr (dates, e, reached) ↦ inr (
          dates,
          e,
          inr (
              IsReached-same (descend_all snapshots (descend s d)).max_dd dates snapshots peak date
                reached),
        )
        | inl (same_max, same_dates) ↦ elim step [
          | inl (kept_max, kept_dates) ↦ inl (same_max ∙ kept_max, same_dates ∙ kept_dates)
          | inr (new_max, new_dates) ↦
              inr (_, same_dates ∙ new_dates, inl (refl, same_max ∙ new_max))
        ]
      ]

  IsFound-tracked :
      (end d : Descent F) (snapshots : List (DailyValuation F))
      → d.max_dd ≡ nought
      → d.dd_dates ≡ none
      → IsTracked d end snapshots
      → IsFound (end.dd_dates, end.max_dd) d.peak d.peak_date snapshots
  IsFound-tracked end d snapshots zero_dd no_dates (inl (m, e)) = rw (e, no_dates) (m ∙ zero_dd)
  IsFound-tracked end d snapshots zero_dd no_dates (inr (dates, e, reached)) = rw e reached

  -- The drawdown of a series is nothing, or it is reached between the dates that are given with it, from
  -- the highest value until then; and no value of the series lost more since the highest before it.
  pub max_drawdown_exact :
      (laws : IsOrdered F) (s : DailyValuation F) (snapshots : List (DailyValuation F))
      → let found = max_drawdown (s ∷ snapshots) in
        IsFound found s.value s.date snapshots
        × (nought ≼ found.1)
        × IsDeepest found.1 s.value snapshots
  unfolding max_drawdown
  max_drawdown_exact laws s snapshots =
      let start : Descent F = record {
        peak = s.value;
        peak_date = s.date;
        max_dd = nought;
        dd_dates = none;
      } in
      let (rises, deepest) = descend_all-IsDeepest laws snapshots start in
      (
        IsFound-tracked (descend_all snapshots start) start snapshots refl refl
            (descend_all-IsTracked snapshots start),
        rises,
        deepest,
      )
