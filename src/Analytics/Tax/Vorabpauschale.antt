-- ===== src/Analytics/Tax/Vorabpauschale.antt =====
-- `ComputeVorabpauschale`: the advance lump sum of accumulating funds.
pub mod Bounds
use wealth.Prelude.{
  List, Option, Text, [], get_or, if◌then◌else◌, lookup, none, some, ℕ, ◌∷◌, text_eq, nat_eq,
}
use wealth.Prelude.Float.{Float64, fmax, negate, nought, to_cents, ◌<?◌, ◌≤?◌, ◌⊖◌, ◌⊗◌, ◌⊘◌}
use wealth.Analytics.Tax.Rates.{effective_tax_rate, taxable_share_equity}

pub record VorabpauschaleEntry (F : Type 0) : Type 0 where
  pub isin : Text
  pub name : Text
  pub jan1_value : F
  pub year_end_value : F
  pub basiszins : F
  pub basisertrag : F
  pub vorabpauschale : F
  pub tax_on_vp : F

module _ {F : Type 0} ⦃f : Float64 F⦄ where
  unfoldable pub basiszins_by_year : List (ℕ × F)
  basiszins_by_year =
      (2022, negate (f.literal 5 2))
      ∷ (2023, f.literal 255 2)
      ∷ (2024, f.literal 229 2)
      ∷ (2025, f.literal 253 2)
      ∷ (2026, f.literal 253 2)
      ∷ []

  unfoldable pub lump_sum : F → F → F
  lump_sum basisertrag price_gain =
      if price_gain <? basisertrag then fmax price_gain nought else basisertrag

  -- The entry of a fund, without its two guards.
  abbrev pub vorabpauschale_entry : F → Text → F → F → Text → VorabpauschaleEntry F
  vorabpauschale_entry basiszins isin jan1_val year_end_val name =
      let basisertrag = ((jan1_val ⊗ basiszins) ⊘ f.literal 100 0) ⊗ f.literal 7 1 in
      let vp = lump_sum basisertrag (year_end_val ⊖ jan1_val) in
      record {
        isin = isin;
        name = name;
        jan1_value = to_cents jan1_val;
        year_end_value = to_cents year_end_val;
        basiszins = basiszins;
        basisertrag = to_cents basisertrag;
        vorabpauschale = to_cents vp;
        tax_on_vp = to_cents ((vp ⊗ taxable_share_equity) ⊗ effective_tax_rate);
      }

  unfoldable pub vorabpauschale_entries :
      F → List (Text × F) → List (Text × F) → List (Text × Text) → List (VorabpauschaleEntry F)
  vorabpauschale_entries basiszins [] year_end names = []
  vorabpauschale_entries basiszins ((isin, jan1_val) ∷ jan1) year_end names =
      let rest = vorabpauschale_entries basiszins jan1 year_end names in
      let basisertrag = ((jan1_val ⊗ basiszins) ⊘ f.literal 100 0) ⊗ f.literal 7 1 in
      if jan1_val ≤? nought
      then rest
      else if basisertrag ≤? nought
      then rest
      else vorabpauschale_entry basiszins isin jan1_val (get_or isin nought year_end)
          (get_or isin [] names)
        ∷ rest

  -- The loop at the rate that the table has for the year.
  unfoldable pub entries_at :
      Option F
      → List (Text × F)
      → List (Text × F)
      → List (Text × Text)
      → List (VorabpauschaleEntry F)
  entries_at none jan1_holdings year_end_holdings names = []
  entries_at (some basiszins) jan1_holdings year_end_holdings names =
      if basiszins ≤? nought
      then []
      else vorabpauschale_entries basiszins jan1_holdings year_end_holdings names

  unfoldable pub compute_vorabpauschale :
      ℕ → List (Text × F) → List (Text × F) → List (Text × Text) → List (VorabpauschaleEntry F)
  unfolding basiszins_by_year vorabpauschale_entries entries_at
  compute_vorabpauschale year = entries_at (lookup year basiszins_by_year)
