-- ===== src/Parser/Scalable/Closeouts.antt =====
-- `mergeCloseouts` of internal/parser/scalable.go: a row of securities that is no trade and a dividend of
-- the same day and security are one sale. `day` prints a date by the layout 2006-01-02.
use wealth.Prelude.{
  Bool, List, Option, Text, [], any, get_elem?, if◌then◌else◌, is_empty, lit, none, not, same, some,
  suc, zero, ℕ, ◌&&◌, ◌++◌, ◌==◌, ◌∷◌, text_eq, nat_eq,
}
use wealth.Prelude.Float.{Float64, nought, ◌<?◌, ◌⊘◌}
use wealth.Parser.Rows.{Transaction}

-- A candidate of the map `payouts`: its key and its index. The candidates of a key stand in order.
pub record Payout : Type 0 where
  pub day : Text
  pub isin : Text
  pub index : ℕ

-- What is merged: the row that is left out, and the row of the sale.
pub record Closeout : Type 0 where
  pub dropped_at : ℕ
  pub payout_at : ℕ

-- `cands[0]`, and the map without it
unfoldable pub take_payout : Text → Text → List Payout → Option (ℕ × List Payout)
take_payout day isin [] = none
take_payout day isin (p ∷ payouts) =
    if same p.day day && same p.isin isin
    then some (p.index, payouts)
    else elim (take_payout day isin payouts) [
      | none ↦ none
      | some (index, rest) ↦ some (index, p ∷ rest)
    ]

abbrev pub is_dropped : List Closeout → ℕ → Bool
is_dropped closeouts i = any (λ c. c.dropped_at == i) closeouts

module _ (F D : Type 0) where
  -- The state of the loop.
  pub record Merging : Type 0 where
    pub txns : List (Transaction F D)
    pub payouts : List Payout
    pub closeouts : List Closeout

module _ {F D : Type 0} ⦃f : Float64 F⦄ (day : D → Text) where
  abbrev pub is_payout : Transaction F D → Bool
  is_payout t =
      same t.type (lit "dividend") && not (is_empty t.security_isin) && (nought <? t.amount)

  unfoldable pub payouts_from : ℕ → List (Transaction F D) → List Payout
  payouts_from j [] = []
  payouts_from j (t ∷ txns) =
      let rest = payouts_from (suc j) txns in
      if is_payout t
      then record { day = day t.date; isin = t.security_isin; index = j } ∷ rest
      else rest

  -- The payout as a sale of a quantity.
  abbrev pub sale_of : F → Transaction F D → Transaction F D
  sale_of quantity t = record t {
    type = lit "sell";
    quantity = quantity;
    price = t.amount ⊘ quantity;
  }

  -- `txns[j]` changed
  unfoldable pub change_at :
      ℕ → (Transaction F D → Transaction F D) → List (Transaction F D) → List (Transaction F D)
  change_at j change [] = []
  change_at zero change (t ∷ txns) = change t ∷ txns
  change_at (suc j) change (t ∷ txns) = t ∷ change_at j change txns

  -- The row at an index, if it may be a close-out.
  abbrev pub is_closing : Bool → Transaction F D → Bool
  is_closing non_trade t = non_trade && not (is_empty t.security_isin) && (nought <? t.quantity)

  -- The row at an index with its candidate.
  abbrev pub close_out : ℕ → Transaction F D → Option (ℕ × List Payout) → Merging F D → Merging F D
  close_out i t none s = s
  close_out i t (some (j, payouts)) s = record {
    txns = change_at j (sale_of t.quantity) s.txns;
    payouts = payouts;
    closeouts = s.closeouts ++ record { dropped_at = i; payout_at = j } ∷ [];
  }

  abbrev pub merge_row : ℕ → Bool → Option (Transaction F D) → Merging F D → Merging F D
  merge_row i non_trade none s = s
  merge_row i non_trade (some t) s =
      if is_closing non_trade t
      then close_out i t (take_payout (day t.date) t.security_isin s.payouts) s
      else s

  -- The loop over the rows, which reads what it has changed.
  unfoldable pub merge_from : ℕ → List Bool → Merging F D → Merging F D
  unfolding take_payout change_at
  merge_from i [] s = s
  merge_from i (non_trade ∷ rest) s =
      merge_from (suc i) rest (merge_row i non_trade (get_elem? s.txns i) s)

  unfoldable pub drop_rows : List Closeout → ℕ → List (Transaction F D) → List (Transaction F D)
  drop_rows closeouts i [] = []
  drop_rows closeouts i (t ∷ txns) =
      let rest = drop_rows closeouts (suc i) txns in
      if is_dropped closeouts i then rest else t ∷ rest

  -- The rows, and the close-outs that the warnings name.
  unfoldable pub merge_closeouts :
      List (Transaction F D) → List Bool → List (Transaction F D) × List Closeout
  unfolding payouts_from merge_from drop_rows
  merge_closeouts txns non_trade =
      let end =
        merge_from 0 non_trade
          (record { txns = txns; payouts = payouts_from 0 txns; closeouts = [] }) in
      (drop_rows end.closeouts 0 end.txns, end.closeouts)
