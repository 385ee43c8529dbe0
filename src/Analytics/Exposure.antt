-- ===== src/Analytics/Exposure.antt =====
-- internal/analytics/decomposition.go, currency.go and the exposures and alerts of portfolio.go. A map of
-- weights is a list in the order in which a loop ranges over it.
pub mod Currency
pub mod Alerts
use wealth.Prelude.{
  List, Option, Text, [], get_elem?, get_or, if◌then◌else◌, insert, length, lookup, ltb, map, none,
  some, suc, zero, ℕ, ◌==◌, ◌∷◌, text_eq, nat_eq,
}
use wealth.Prelude.Float.{Float64, fmin, nought, ◌=?◌, ◌≤?◌, ◌⊕◌, ◌⊗◌, ◌⊘◌}

abbrev pub Weights : Type 0 → Type 0
Weights F = List (Text × F)

module _ (F : Type 0) where
  -- `Holding`, `HoldingWithETF` and `HoldingValue`, by one of their weights
  pub record Weighted : Type 0 where
    pub market_value : F
    pub weights : Weights F

  pub record EtfWithHoldings : Type 0 where
    pub isin : Text
    pub name : Text
    pub holdings : Weights F

  -- A stock of the treemap.
  pub record TreemapLeaf : Type 0 where
    pub name : Text
    pub value : F

  pub record TreemapSector : Type 0 where
    pub name : Text
    pub value : F
    pub children : List TreemapLeaf

  -- A fund: with its value, or with the sectors that it is broken down to.
  pub data TreemapNode : Type 0 where
    leaf : Text → F → TreemapNode
    branch : Text → List TreemapSector → TreemapNode

  pub record EtfForTreemap : Type 0 where
    pub name : Text
    pub market_value : F
    pub holdings_by_sector : List (Text × List TreemapLeaf)

abbrev indices : ℕ → ℕ → List ℕ
indices zero i = []
indices (suc n) i = i ∷ indices n (suc i)

module _ {F : Type 0} ⦃f : Float64 F⦄ where
  unfoldable pub total_from : List (Weighted F) → F → F
  total_from [] total = total
  total_from (h ∷ holdings) total = total_from holdings (total ⊕ h.market_value)

  -- A share of each weight of a holding is added.
  unfoldable pub spread : (F → F) → Weights F → Weights F → Weights F
  spread share [] exposure = exposure
  spread share ((key, pct) ∷ weights) exposure =
      spread share weights (insert key (get_or key nought exposure ⊕ share pct) exposure)

  unfoldable pub spread_all : (F → F → F) → F → List (Weighted F) → Weights F → Weights F
  unfolding spread
  spread_all share total [] exposure = exposure
  spread_all share total (h ∷ holdings) exposure =
      spread_all share total holdings (spread (share (h.market_value ⊘ total)) h.weights exposure)

  -- The exposures, empty where the source gives nil.
  abbrev exposure_by : (F → F → F) → List (Weighted F) → Weights F
  exposure_by share holdings =
      let total = total_from holdings nought in
      if total =? nought then [] else spread_all share total holdings []

  abbrev percent : F → F → F
  percent weight pct = (weight ⊗ pct) ⊘ f.literal 100 0

  unfoldable pub compute_sector_exposure : List (Weighted F) → Weights F
  unfolding total_from spread_all
  compute_sector_exposure = exposure_by percent

  unfoldable pub compute_country_exposure : List (Weighted F) → Weights F
  unfolding total_from spread_all
  compute_country_exposure = exposure_by percent

  unfoldable pub compute_effective_exposure : List (Weighted F) → Weights F
  unfolding total_from spread_all
  compute_effective_exposure = exposure_by percent

  unfoldable pub compute_sector_allocation : List (Weighted F) → Weights F
  unfolding total_from spread_all
  compute_sector_allocation = exposure_by (λ weight pct. weight ⊗ pct)

  unfoldable pub overlap_from : Weights F → Weights F → F → F
  overlap_from [] b overlap = overlap
  overlap_from ((isin, weight) ∷ a) b overlap = elim (lookup isin b) [
    | none ↦ overlap_from a b overlap
    | some other ↦ overlap_from a b (overlap ⊕ fmin weight other)
  ]

  unfoldable pub compute_overlap : Weights F → Weights F → F
  unfolding overlap_from
  compute_overlap a b = overlap_from a b nought

  -- A cell of the matrix: the pair is compared in the order of its indices.
  unfoldable pub matrix_cell : List (EtfWithHoldings F) → ℕ → ℕ → F
  unfolding compute_overlap
  matrix_cell etfs i j =
      let overlap_of : Option (EtfWithHoldings F) → Option (EtfWithHoldings F) → F = λ a b. elim a [
        | none ↦ nought
        | some x ↦ elim b [ none ↦ nought | some y ↦ compute_overlap x.holdings y.holdings ]
      ] in
      if i == j
      then f.literal 100 0
      else if ltb i j
      then overlap_of (get_elem? etfs i) (get_elem? etfs j)
      else overlap_of (get_elem? etfs j) (get_elem? etfs i)

  unfoldable pub build_overlap_matrix : List (EtfWithHoldings F) → List (List F)
  unfolding matrix_cell
  build_overlap_matrix etfs =
      let all = indices (length etfs) 0 in map (λ i. map (λ j. matrix_cell etfs i j) all) all

  abbrev sum_values : List (TreemapLeaf F) → F → F
  sum_values [] sum = sum
  sum_values (h ∷ holdings) sum = sum_values holdings (sum ⊕ h.value)

  unfoldable pub sector_nodes : List (Text × List (TreemapLeaf F)) → List (TreemapSector F)
  sector_nodes [] = []
  sector_nodes ((sector, holdings) ∷ sectors) =
      let value = sum_values holdings nought in
      let rest = sector_nodes sectors in
      if value ≤? nought
      then rest
      else record { name = sector; value = value; children = holdings } ∷ rest

  abbrev etf_node : EtfForTreemap F → List (TreemapSector F) → TreemapNode F
  etf_node etf [] = leaf etf.name etf.market_value
  etf_node etf (s ∷ sectors) = branch etf.name (s ∷ sectors)

  unfoldable pub build_allocation_treemap : List (EtfForTreemap F) → List (TreemapNode F)
  unfolding sector_nodes
  build_allocation_treemap [] = []
  build_allocation_treemap (etf ∷ etfs) =
      let rest = build_allocation_treemap etfs in
      if etf.market_value ≤? nought
      then rest
      else etf_node etf (sector_nodes etf.holdings_by_sector) ∷ rest
