-- ===== src/Analytics/Tax/Summary/Allowance.antt =====
-- The allowance: bounds of what `ComputeTaxSummary` reports.
use wealth.Prelude.{Bool-cases, List, ap, arith, false, if◌then◌else◌, inl, inr, ℕ, ◌∙◌, ◌≡◌, ◌⊎◌}
use wealth.Prelude.Float.{Float64, fmin, nought, to_cents, ◌<?◌, ◌≤?◌, ◌⊖◌}
use wealth.Prelude.Float.Cents.{cents_nonneg}
use wealth.Prelude.Float.Order.{IsOrdered, ◌≼◌}
use wealth.Analytics.Tax.Rates.{TaxTransaction, effective_tax_rate, sparerpauschbetrag}
use wealth.Analytics.Tax.Summary.{
  add_transactions, assess, compute_tax_summary, empty_ledger, raw_gain,
}

module _ {F : Type 0} ⦃f : Float64 F⦄ (laws : IsOrdered F) where
  open laws use {
    le_refl, le_trans, le_total, lt-eq-not-le, literal_nonneg, sub_nonneg, sub_le, sub_self,
    mul_nonneg, zero_mul, to_cents_mono, to_cents_whole,
  }

  clamp_nonneg : (x : F) → nought ≼ (if x <? nought then nought else x)
  clamp_nonneg x = ground (arith, le_refl nought, lt-eq-not-le x nought)

  fmin_bounds : (x y : F) → (fmin x y ≼ x) × (fmin x y ≼ y)
  fmin_bounds x y = ground (arith, le_refl x, le_refl y, lt-eq-not-le y x, le_total x y)

  fmin_nonneg : (x y : F) → nought ≼ x → nought ≼ y → nought ≼ fmin x y
  fmin_nonneg x y h k = ground arith

  -- What `assess` returns for any gain.
  assess_bounds :
      (gain : F)
      → let (taxable, used, remain, tax) = assess gain in
        (nought ≼ taxable)
        × (nought ≼ used)
        × (used ≼ taxable)
        × (used ≼ sparerpauschbetrag)
        × (nought ≼ remain)
        × (remain ≼ sparerpauschbetrag)
        × (nought ≼ tax)
  unfolding assess
  assess_bounds gain =
      let taxable = if gain <? nought then nought else gain in
      let used = fmin taxable sparerpauschbetrag in
      let (le_taxable, le_allowance) = fmin_bounds taxable sparerpauschbetrag in
      let used_nonneg =
        fmin_nonneg taxable sparerpauschbetrag (clamp_nonneg gain) (literal_nonneg 1000 0) in
      (
        clamp_nonneg gain,
        used_nonneg,
        le_taxable,
        le_allowance,
        sub_nonneg sparerpauschbetrag used le_allowance,
        sub_le sparerpauschbetrag used used_nonneg,
        mul_nonneg _ effective_tax_rate (clamp_nonneg (taxable ⊖ used)) (literal_nonneg 26375 5),
      )

  cents_le_allowance : (x : F) → x ≼ sparerpauschbetrag → to_cents x ≼ sparerpauschbetrag
  cents_le_allowance x h =
      rw (to_cents_whole 1000 (omega arith)) at (to_cents_mono x sparerpauschbetrag h)

  assess_within_allowance : (gain : F) → gain ≼ sparerpauschbetrag → (assess gain).3 ≡ nought
  unfolding assess
  assess_within_allowance gain h = ground (
    arith,
    lt-eq-not-le gain nought,
    lt-eq-not-le sparerpauschbetrag gain,
    lt-eq-not-le sparerpauschbetrag nought,
    lt-eq-not-le nought nought,
    le_refl nought,
    literal_nonneg 1000 0,
    sub_self gain,
    sub_self nought,
    zero_mul effective_tax_rate (literal_nonneg 26375 5),
  )

  -- Whatever was traded, the reported taxable gain, the allowance used, the allowance remaining and
  -- the estimated tax are not negative, neither part of the allowance exceeds 1000, and there is no
  -- tax on a gain, after exemptions, of at most 1000. The
  -- arithmetic may round as `float64` does, if no operation overflows.
  pub compute_tax_summary_bounds :
      (txns : List (TaxTransaction F)) (year : ℕ)
      → let s = compute_tax_summary txns year in
        (nought ≼ s.taxable_gain)
        × (nought ≼ s.freistellung_used)
        × (s.freistellung_used ≼ sparerpauschbetrag)
        × (s.freistellung_used ≼ s.taxable_gain)
        × (nought ≼ s.freistellung_remain)
        × (s.freistellung_remain ≼ sparerpauschbetrag)
        × (nought ≼ s.estimated_tax)
        × ((raw_gain (add_transactions year txns empty_ledger) ≤? sparerpauschbetrag) ≡ false
            ⊎ s.estimated_tax ≡ nought)
  unfolding compute_tax_summary
  compute_tax_summary_bounds txns year =
      let gain = raw_gain (add_transactions year txns empty_ledger) in
      let b = assess_bounds gain in
      (
        cents_nonneg laws _ b.0,
        cents_nonneg laws _ b.1,
        cents_le_allowance _ b.3,
        to_cents_mono _ _ b.2,
        cents_nonneg laws _ b.4,
        cents_le_allowance _ b.5,
        cents_nonneg laws _ b.6,
        elim (Bool-cases (gain ≤? sparerpauschbetrag)) [
          | inl h ↦
              inr (ap to_cents (assess_within_allowance gain h) ∙ to_cents_whole 0 (omega arith))
          | inr n ↦ inl n
        ],
      )
