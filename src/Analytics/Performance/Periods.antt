-- ===== src/Analytics/Performance/Periods.antt =====
-- The periods of the time-weighted return.
use wealth.Prelude.{
  Bool-cases, List, [], ap, get_or, inl, inr, not, refl, true, ℕ, ◌∷◌, ◌≡◌, nat_eq,
}
use wealth.Prelude.Float.{Float64, nought, ◌=?◌}
use wealth.Analytics.Performance.{
  CashFlow, DailyValuation, Period, flows_by_date, split_by_cashflows, split_from,
}

module _ {F : Type 0} ⦃f : Float64 F⦄ where
  -- The last valuation.
  abbrev pub final : DailyValuation F → List (DailyValuation F) → F
  final v [] = v.value
  final v (w ∷ valuations) = final w valuations

  -- Periods without a gap from one value to another, each but the last of which ends with a flow.
  abbrev pub IsChain : F → List (Period F) → F → Type 0
  IsChain from [] to = ⊥
  IsChain from (p ∷ []) to = (p.start_value ≡ from) × (p.end_value ≡ to)
  IsChain from (p ∷ q ∷ periods) to =
      (p.start_value ≡ from)
      × (not (p.net_flow =? nought) ≡ true)
      × IsChain p.end_value (q ∷ periods) to

  IsChain-from :
      (p : Period F) (periods : List (Period F)) (to : F)
      → not (p.net_flow =? nought) ≡ true
      → IsChain p.end_value periods to
      → IsChain p.start_value (p ∷ periods) to
  IsChain-from p [] to n c = absurd c
  IsChain-from p (q ∷ periods) to n c = (refl, n, c)

  pub split_from-IsChain :
      (flows : List (ℕ × F)) (v : DailyValuation F) (valuations : List (DailyValuation F))
      (start : F)
      → IsChain start (split_from flows (v ∷ valuations) start) (final v valuations)
  unfolding split_from
  split_from-IsChain flows v [] start = elim (Bool-cases (get_or v.date nought flows =? nought)) [
    | inl y ↦ rw y (refl, refl)
    | inr n ↦ rw n (refl, refl)
  ]
  split_from-IsChain flows v (w ∷ valuations) start =
      let p : Period F = record {
        start_value = start;
        end_value = v.value;
        net_flow = get_or v.date nought flows;
      } in
      elim (Bool-cases (get_or v.date nought flows =? nought)) [
        | inl y ↦ rw y (split_from-IsChain flows w valuations start)
        | inr n ↦ rw n (
            IsChain-from p (split_from flows (w ∷ valuations) v.value) (final w valuations)
              (ap not n) (split_from-IsChain flows w valuations v.value))
      ]

  -- Two valuations or more are split into periods that leave no gap from the first of them to the
  -- last, whatever the cash flows, and each period but the last ends on a day with a flow.
  pub split_by_cashflows-IsChain :
      (v w : DailyValuation F) (valuations : List (DailyValuation F))
      (cashflows : List (CashFlow F))
      → IsChain v.value (split_by_cashflows (v ∷ w ∷ valuations) cashflows) (final w valuations)
  unfolding split_by_cashflows
  split_by_cashflows-IsChain v w valuations cashflows =
      split_from-IsChain (flows_by_date cashflows []) w valuations v.value
