-- ===== src/Analytics/Tax/LossPots.antt =====
-- `ComputeLossPots`: the two German loss pots, year by year.
pub mod Carry
pub mod Separate
use wealth.Prelude.{
  List, [], get_or, if◌then◌else◌, insert, is_empty, ltb, none, some, ℕ, ◌∷◌, text_eq, nat_eq,
}
use wealth.Prelude.Float.{Float64, nought, to_cents, ◌<?◌, ◌⊕◌, ◌⊖◌, ◌⊗◌}
use wealth.Transaction.{TxType}
use wealth.Analytics.AverageCost.{Positions, add_lot, take_lot}
use wealth.Analytics.Tax.Rates.{TaxTransaction, taxable_share_equity}

module _ (F : Type 0) where
  -- Sums by year: losses are negative.
  pub record Pot : Type 0 where
    pub losses : List (ℕ × F)
    pub gains : List (ℕ × F)

  -- The variables of the loop over the transactions.
  pub record PotState : Type 0 where
    pub holdings : Positions F
    pub equity : Pot
    pub general : Pot
    pub years : List ℕ

  pub record LossPotYear : Type 0 where
    pub year : ℕ
    pub equity_losses : F
    pub equity_gains : F
    pub equity_balance : F
    pub general_losses : F
    pub general_gains : F
    pub general_balance : F
    pub carry_forward_equity : F
    pub carry_forward_general : F

-- `years[y] = true`, kept in the order of `sort.Ints`
unfoldable pub add_year : ℕ → List ℕ → List ℕ
add_year y [] = y ∷ []
add_year y (z ∷ zs) =
    let rest = add_year y zs in if ltb y z then y ∷ z ∷ zs else if ltb z y then z ∷ rest else z ∷ zs

module _ {F : Type 0} ⦃f : Float64 F⦄ where
  -- `m[year] += x`
  abbrev pub add_to_year : ℕ → F → List (ℕ × F) → List (ℕ × F)
  add_to_year year x m = insert year (get_or year nought m ⊕ x) m

  -- `if pl < 0 { losses[year] += pl } else { gains[year] += pl }`
  unfoldable pub add_to_pot : ℕ → F → Pot F → Pot F
  add_to_pot year pl p =
      if pl <? nought
      then record p { losses = add_to_year year pl p.losses }
      else record p { gains = add_to_year year pl p.gains }

  unfoldable pub pot_sale : TaxTransaction F → PotState F → PotState F
  pot_sale t s = elim (take_lot t.isin t.quantity s.holdings) [
    | none ↦ s
    | some (holdings, cost_basis) ↦
        let pl = t.amount ⊖ cost_basis in
        if t.is_equity_fund
        then record s {
          holdings = holdings;
          equity = add_to_pot t.year (pl ⊗ taxable_share_equity) s.equity;
        }
        else record s { holdings = holdings; general = add_to_pot t.year pl s.general }
  ]

  unfoldable pub pot_transfer_out : TaxTransaction F → PotState F → PotState F
  pot_transfer_out t s = elim (take_lot t.isin t.quantity s.holdings) [
    | none ↦ s
    | some (holdings, _) ↦ record s { holdings = holdings }
  ]

  abbrev add_income : TaxTransaction F → F → PotState F → PotState F
  add_income t x s = record s {
    general = record { losses = s.general.losses; gains = add_to_year t.year x s.general.gains };
  }

  abbrev pot_purchase : TaxTransaction F → PotState F → PotState F
  pot_purchase t s = record s { holdings = add_lot t.isin t.quantity t.amount s.holdings }

  abbrev with_isin : TaxTransaction F → PotState F → PotState F → PotState F
  with_isin t s after = if is_empty t.isin then s else after

  -- The switch on the type.
  unfoldable pub pot_transaction : TxType → TaxTransaction F → PotState F → PotState F
  unfolding pot_sale pot_transfer_out
  pot_transaction TxType.buy t s = with_isin t s (pot_purchase t s)
  pot_transaction TxType.savings_plan t s = with_isin t s (pot_purchase t s)
  pot_transaction TxType.transfer t s = with_isin t s (pot_purchase t s)
  pot_transaction TxType.transfer_out t s = with_isin t s (pot_transfer_out t s)
  pot_transaction TxType.sell t s = with_isin t s (pot_sale t s)
  pot_transaction TxType.dividend t s =
      add_income t (if t.is_equity_fund then t.amount ⊗ taxable_share_equity else t.amount) s
  pot_transaction TxType.interest t s = add_income t t.amount s
  pot_transaction _ t s = s

  unfoldable pub pot_transactions : List (TaxTransaction F) → PotState F → PotState F
  unfolding pot_transaction add_year
  pot_transactions [] s = s
  pot_transactions (t ∷ ts) s =
      pot_transactions ts (pot_transaction t.type t (record s { years = add_year t.year s.years }))

  -- What a pot carries to the next year: a net loss.
  abbrev pub carried : F → F
  carried net = if net <? nought then net else nought

  -- The loop over the sorted years, with what the years before carry forward.
  unfoldable pub pot_years : PotState F → F → F → List ℕ → List (LossPotYear F)
  pot_years s carry_equity carry_general [] = []
  pot_years s carry_equity carry_general (year ∷ years) =
      let eq_loss = get_or year nought s.equity.losses in
      let eq_gain = get_or year nought s.equity.gains in
      let gen_loss = get_or year nought s.general.losses in
      let gen_gain = get_or year nought s.general.gains in
      let new_equity = carried ((eq_gain ⊕ eq_loss) ⊕ carry_equity) in
      let new_general = carried ((gen_gain ⊕ gen_loss) ⊕ carry_general) in
      record {
        year = year;
        equity_losses = to_cents eq_loss;
        equity_gains = to_cents eq_gain;
        equity_balance = to_cents (eq_loss ⊕ eq_gain);
        general_losses = to_cents gen_loss;
        general_gains = to_cents gen_gain;
        general_balance = to_cents (gen_loss ⊕ gen_gain);
        carry_forward_equity = to_cents new_equity;
        carry_forward_general = to_cents new_general;
      }
      ∷ pot_years s new_equity new_general years

  abbrev pub empty_pot : Pot F
  empty_pot = record { losses = []; gains = [] }

  abbrev pub empty_pots : PotState F
  empty_pots = record { holdings = []; equity = empty_pot; general = empty_pot; years = [] }

  unfoldable pub compute_loss_pots : List (TaxTransaction F) → List (LossPotYear F)
  unfolding pot_transactions pot_years
  compute_loss_pots txns =
      let s = pot_transactions txns empty_pots in pot_years s nought nought s.years
