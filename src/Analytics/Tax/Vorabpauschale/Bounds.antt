-- ===== src/Analytics/Tax/Vorabpauschale/Bounds.antt =====
-- Bounds of the advance lump sum.
use wealth.Prelude.{
  All, Bool-cases, List, Option, Text, [], arith, false, get_or, inl, inr, lookup, none, some, ℕ,
  ◌∷◌, ◌≡◌, text_eq, nat_eq,
}
use wealth.Prelude.Float.{Float64, nought, ◌≤?◌, ◌⊖◌, ◌⊗◌, ◌⊘◌}
use wealth.Prelude.Float.Cents.{cents_nonneg}
use wealth.Prelude.Float.Order.{IsOrdered, ◌≼◌}
use wealth.Analytics.Tax.Vorabpauschale.{
  VorabpauschaleEntry, basiszins_by_year, compute_vorabpauschale, entries_at, lump_sum,
  vorabpauschale_entries, vorabpauschale_entry,
}

module _ {F : Type 0} ⦃f : Float64 F⦄ (laws : IsOrdered F) where
  open laws use {
    le_refl, lt-eq-not-le, literal_nonneg, mul_nonneg, to_cents_mono, to_cents_whole, le_total,
  }

  lump_sum_bounds :
      (basisertrag price_gain : F)
      → (basisertrag ≤? nought) ≡ false
      → (nought ≼ lump_sum basisertrag price_gain) × (lump_sum basisertrag price_gain ≼ basisertrag)
  unfolding lump_sum
  lump_sum_bounds basisertrag price_gain h = ground (
    arith,
    le_refl nought,
    le_refl basisertrag,
    le_total basisertrag nought,
    lt-eq-not-le price_gain basisertrag,
    lt-eq-not-le price_gain nought,
    le_total price_gain basisertrag,
  )

  -- The lump sum is not negative and not above the base yield, and its tax is not negative.
  abbrev pub IsBounded : VorabpauschaleEntry F → Type 0
  IsBounded e =
      (nought ≼ e.vorabpauschale) × (e.vorabpauschale ≼ e.basisertrag) × (nought ≼ e.tax_on_vp)

  entry_bounds :
      (basiszins : F) (isin : Text) (jan1_val year_end_val : F) (name : Text)
      → (((jan1_val ⊗ basiszins) ⊘ f.literal 100 0) ⊗ f.literal 7 1 ≤? nought) ≡ false
      → IsBounded (vorabpauschale_entry basiszins isin jan1_val year_end_val name)
  entry_bounds basiszins isin jan1_val year_end_val name h =
      let bounds = lump_sum_bounds _ (year_end_val ⊖ jan1_val) h in
      (
        cents_nonneg laws _ bounds.0,
        to_cents_mono _ _ bounds.1,
        cents_nonneg laws _ (
            mul_nonneg _ _ (mul_nonneg _ _ bounds.0 (literal_nonneg 70 2))
              (literal_nonneg 26375 5)),
      )

  vorabpauschale_entries-IsBounded :
      (basiszins : F) (jan1 year_end : List (Text × F)) (names : List (Text × Text))
      → All IsBounded (vorabpauschale_entries basiszins jan1 year_end names)
  unfolding vorabpauschale_entries
  vorabpauschale_entries-IsBounded basiszins [] year_end names = tt
  vorabpauschale_entries-IsBounded basiszins ((isin, jan1_val) ∷ jan1) year_end names =
      let rest = vorabpauschale_entries-IsBounded basiszins jan1 year_end names in
      elim (Bool-cases (jan1_val ≤? nought)) [
        | inl e ↦ rw e rest
        | inr e ↦
            rw e
              elim (Bool-cases
                (((jan1_val ⊗ basiszins) ⊘ f.literal 100 0) ⊗ f.literal 7 1 ≤? nought)) [
                  | inl e' ↦ rw e' rest
                  | inr e' ↦
                      rw e' (entry_bounds basiszins isin jan1_val _ (get_or isin [] names) e', rest)
                ]
      ]

  entries_at-IsBounded :
      (basiszins : Option F) (jan1 year_end : List (Text × F)) (names : List (Text × Text))
      → All IsBounded (entries_at basiszins jan1 year_end names)
  unfolding entries_at
  entries_at-IsBounded none jan1 year_end names = tt
  entries_at-IsBounded (some basiszins) jan1 year_end names =
      elim (Bool-cases (basiszins ≤? nought)) [
        | inl e ↦ rw e tt
        | inr e ↦ rw e (vorabpauschale_entries-IsBounded basiszins jan1 year_end names)
      ]

  -- In every entry, the lump sum is not negative and not above the base yield, and its tax is not
  -- negative.
  pub compute_vorabpauschale-IsBounded :
      (year : ℕ) (jan1 year_end : List (Text × F)) (names : List (Text × Text))
      → All IsBounded (compute_vorabpauschale year jan1 year_end names)
  unfolding compute_vorabpauschale
  compute_vorabpauschale-IsBounded year jan1 year_end names =
      entries_at-IsBounded (lookup year basiszins_by_year) jan1 year_end names
