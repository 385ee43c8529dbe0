-- ===== src/Handler/Rebalance.antt =====
-- `computeRebalanceTrades` of internal/handler/portfolio.go.
pub mod Thresholds
use wealth.Prelude.{List, Text, [], get_or, if◌then◌else◌, ◌∷◌, text_eq}
use wealth.Prelude.Float.{
  Float64, magnitude, negate, nought, to_cents, to_tenths, ◌<?◌, ◌≤?◌, ◌⊕◌, ◌⊖◌, ◌⊗◌, ◌⊘◌,
}

pub data Action : Type 0 where
  buy sell : Action

pub record RebalanceHolding (F : Type 0) : Type 0 where
  pub value : F
  pub name : Text
  pub price : F

pub record RebalanceTrade (F : Type 0) : Type 0 where
  pub isin : Text
  pub name : Text
  pub action : Action
  pub amount : F
  pub shares : F
  pub current_pct : F
  pub target_pct : F

-- A position below its target. What is looked up of its holding again is kept with it.
pub record Deficit (F : Type 0) : Type 0 where
  pub isin : Text
  pub name : Text
  pub price : F
  pub gap : F
  pub current_value : F
  pub target_pct : F

module _ {F : Type 0} ⦃f : Float64 F⦄ where
  -- The defaults of a target without a holding.
  abbrev pub holding_of : Text → List (Text × RebalanceHolding F) → RebalanceHolding F
  holding_of isin holdings =
      get_or isin (record { value = nought; name = isin; price = nought }) holdings

  -- The first loop of a deposit: the deficits and the sum of their gaps.
  unfoldable pub deficits_of :
      List (Text × RebalanceHolding F) → F → List (Text × F) → F → List (Deficit F) × F
  deficits_of holdings total [] total_gap = ([], total_gap)
  deficits_of holdings total ((isin, target_pct) ∷ targets) total_gap =
      let h = holding_of isin holdings in
      let gap = ((total ⊗ target_pct) ⊘ f.literal 100 0) ⊖ h.value in
      let counts = nought <? gap in
      let (deficits, end) =
        deficits_of holdings total targets (if counts then total_gap ⊕ gap else total_gap) in
      let d : Deficit F = record {
        isin = isin;
        name = h.name;
        price = h.price;
        gap = gap;
        current_value = h.value;
        target_pct = target_pct;
      } in
      (if counts then d ∷ deficits else deficits, end)

  -- Whole shares for an amount, if there is a price: the shares and what they cost.
  abbrev pub whole_shares : F → F → F × F
  whole_shares price amount =
      let shares = f.floor (amount ⊘ price) in
      if nought <? price then (shares, shares ⊗ price) else (nought, amount)

  abbrev pub percent_of : F → F → F
  percent_of value total = if nought <? total then (value ⊘ total) ⊗ f.literal 100 0 else nought

  -- The trade for a deficit.
  unfoldable pub deposit_trade : F → F → Deficit F → F → RebalanceTrade F
  deposit_trade total_value deposit d allocation =
      let (shares, cost) = whole_shares d.price allocation in
      record {
        isin = d.isin;
        name = d.name;
        action = buy;
        amount = to_cents cost;
        shares = shares;
        current_pct = to_tenths (percent_of d.current_value total_value);
        target_pct = d.target_pct;
      }

  unfoldable pub deposit_trades : F → F → F → List (Deficit F) → List (RebalanceTrade F)
  unfolding deposit_trade
  deposit_trades total_value deposit total_gap [] = []
  deposit_trades total_value deposit total_gap (d ∷ ds) =
      let rest = deposit_trades total_value deposit total_gap ds in
      let allocation = deposit ⊗ (d.gap ⊘ total_gap) in
      if (total_gap ≤? nought)
      then rest
      else if allocation <? f.literal 1 0
      then rest
      else deposit_trade total_value deposit d allocation ∷ rest

  -- The trade for a target in a full rebalancing.
  abbrev pub full_trade : List (Text × RebalanceHolding F) → F → Text × F → RebalanceTrade F
  full_trade holdings total_value (isin, target_pct) =
      let h = holding_of isin holdings in
      let diff = ((total_value ⊗ target_pct) ⊘ f.literal 100 0) ⊖ h.value in
      let sells = diff <? nought in
      let (shares, cost) = whole_shares h.price (if sells then negate diff else diff) in
      record {
        isin = isin;
        name = h.name;
        action = if sells then sell else buy;
        amount = to_cents cost;
        shares = shares;
        current_pct = to_tenths (percent_of h.value total_value);
        target_pct = target_pct;
      }

  -- The loop of a full rebalancing.
  unfoldable pub full_trades :
      List (Text × RebalanceHolding F) → F → List (Text × F) → List (RebalanceTrade F)
  full_trades holdings total_value [] = []
  full_trades holdings total_value ((isin, target_pct) ∷ targets) =
      let rest = full_trades holdings total_value targets in
      let h = holding_of isin holdings in
      let diff = ((total_value ⊗ target_pct) ⊘ f.literal 100 0) ⊖ h.value in
      let sells = diff <? nought in
      let cost = (whole_shares h.price (if sells then negate diff else diff)).1 in
      if magnitude diff <? f.literal 50 0
      then rest
      else if cost <? f.literal 10 0
      then rest
      else full_trade holdings total_value (isin, target_pct) ∷ rest

  unfoldable pub compute_rebalance_trades :
      List (Text × RebalanceHolding F) → List (Text × F) → F → F → List (RebalanceTrade F)
  unfolding deficits_of deposit_trades full_trades
  compute_rebalance_trades holdings targets total_value deposit =
      let (deficits, total_gap) = deficits_of holdings (total_value ⊕ deposit) targets nought in
      if nought <? deposit
      then deposit_trades total_value deposit total_gap deficits
      else full_trades holdings total_value targets
