-- ===== src/Parser/Scalable/Cancelled.antt =====
-- What a cancelled row does to the cash.
use wealth.Prelude.{
  All, Bool, Bool-cases, List, Text, [], arith, contains, false, if◌then◌else◌, inl, inr, is_empty,
  lit, refl, same, true, ◌||◌, ◌∷◌, ◌≡◌, ◌⊎◌, text_eq,
}
use wealth.Transaction.{TxType}
use wealth.Scheduler.Backfill.Replay.Cash.{Direction, direction, inflow, neither, outflow}
use wealth.Parser.Scalable.Types.{
  cash_cases, classify_non_trade, classify_scalable_type, classify_side, classify_trade,
  reverse_txn_type, side_cases, switch_on,
}

-- The tag of a type, as the database stores it.
abbrev pub tag : Text → TxType
tag t =
    if same t (lit "buy")
    then TxType.buy
    else if same t (lit "sell")
    then TxType.sell
    else if same t (lit "dividend")
    then TxType.dividend
    else if same t (lit "interest")
    then TxType.interest
    else if same t (lit "deposit")
    then TxType.deposit
    else if same t (lit "withdrawal")
    then TxType.withdrawal
    else if same t (lit "fee")
    then TxType.fee
    else if same t (lit "tax")
    then TxType.tax
    else if same t (lit "transfer")
    then TxType.transfer
    else if same t (lit "savings_plan")
    then TxType.savings_plan
    else if same t (lit "transfer_out")
    then TxType.transfer_out
    else if same t (lit "cash_transfer_in")
    then TxType.cash_transfer_in
    else if same t (lit "cash_transfer_out")
    then TxType.cash_transfer_out
    else TxType.other t

abbrev pub opposite : Direction → Direction
opposite inflow = outflow
opposite outflow = inflow
opposite neither = neither

module _ (isin : Text) where
  abbrev pub IsCancelled : Text → Type 0
  IsCancelled t = direction (tag (reverse_txn_type t)) isin ≡ opposite (direction (tag t) isin)

  switch_on-IsCancelled :
      (cases : List (List Text × Text)) (default s : Text)
      → All (λ c. IsCancelled c.1) cases
      → IsCancelled default
      → IsCancelled (switch_on cases default s)
  unfolding switch_on
  switch_on-IsCancelled [] default s h d = d
  switch_on-IsCancelled ((names, type) ∷ cases) default s (h, hs) d =
      elim (Bool-cases (contains names s)) [
        | inl y ↦ rw (switch_on, y) h
        | inr n ↦ rw (switch_on, n) (switch_on-IsCancelled cases default s hs d)
      ]

  if-IsCancelled :
      (b : Bool) (t u : Text) → IsCancelled t → IsCancelled u → IsCancelled (if b then t else u)
  if-IsCancelled true t u h k = h
  if-IsCancelled false t u h k = k

  if-IsCancelled_when :
      (b : Bool) (t u : Text)
      → (b ≡ true → IsCancelled t)
      → IsCancelled u
      → IsCancelled (if b then t else u)
  if-IsCancelled_when true t u h k = h refl
  if-IsCancelled_when false t u h k = k

  side_cases-IsCancelled : All (λ c. IsCancelled c.1) side_cases
  unfolding reverse_txn_type same
  side_cases-IsCancelled = (refl, (refl, (refl, (refl, (refl, (refl, (refl, (refl, tt))))))))

  cash_cases-IsCancelled : All (λ c. IsCancelled c.1) cash_cases
  unfolding reverse_txn_type same
  cash_cases-IsCancelled = (refl, (refl, (refl, (refl, (refl, (refl, (refl, tt)))))))

  trades-IsCancelled :
      IsCancelled (lit "buy")
      × IsCancelled (lit "sell")
      × IsCancelled (lit "savings_plan")
      × IsCancelled (lit "deposit")
  unfolding reverse_txn_type same
  trades-IsCancelled = (refl, refl, refl, refl)

  transfers-IsCancelled :
      is_empty isin ≡ false → IsCancelled (lit "transfer_out") × IsCancelled (lit "transfer")
  unfolding reverse_txn_type same
  transfers-IsCancelled is_security = rw is_security (refl, refl)

  classify_side-IsCancelled : (side : Text) → IsCancelled (classify_side side)
  unfolding classify_side
  classify_side-IsCancelled side =
      let (b, s, p, d) = trades-IsCancelled in
      switch_on-IsCancelled side_cases (if is_empty side then lit "deposit" else lit "buy") side
        side_cases-IsCancelled (if-IsCancelled (is_empty side) (lit "deposit") (lit "buy") d b)

  classify_trade-IsCancelled : (sub_type side : Text) → IsCancelled (classify_trade sub_type side)
  unfolding classify_trade
  classify_trade-IsCancelled sub_type side =
      let (b, s, p, d) = trades-IsCancelled in
      if-IsCancelled (same sub_type (lit "savings_plan") || same sub_type (lit "sparplan"))
        (lit "savings_plan") (if same side (lit "sell") then lit "sell" else lit "buy") p
        (if-IsCancelled (same side (lit "sell")) (lit "sell") (lit "buy") s b)

  classify_non_trade-IsCancelled :
      is_empty isin ≡ false → (sub_type : Text) → IsCancelled (classify_non_trade sub_type)
  unfolding classify_non_trade
  classify_non_trade-IsCancelled is_security sub_type =
      let (o, i) = transfers-IsCancelled is_security in
      if-IsCancelled (same sub_type (lit "transfer_out")) (lit "transfer_out") (lit "transfer") o i

  -- A row of a security transaction that is no trade.
  abbrev pub is_non_trade : Text → Bool
  is_non_trade txn_type = same txn_type (lit "non_trade_security_transaction")

  -- The type of the cancellation of a row moves cash the other way than the type of the row, so that
  -- both net to zero, whatever the fields of the row; only a transfer of securities must name one.
  pub classify_scalable_type-IsCancelled :
      (txn_type sub_type side : Text)
      → (is_empty isin ≡ false) ⊎ (is_non_trade txn_type ≡ false)
      → IsCancelled (classify_scalable_type txn_type sub_type side)
  unfolding classify_scalable_type
  classify_scalable_type-IsCancelled txn_type sub_type side named =
      let (b, s, p, d) = trades-IsCancelled in
      if-IsCancelled _ (classify_side side) _ (classify_side-IsCancelled side) (
        if-IsCancelled _ (classify_trade sub_type side) _ (classify_trade-IsCancelled sub_type side)
          (if-IsCancelled _ (switch_on cash_cases (lit "deposit") sub_type) _
            (switch_on-IsCancelled cash_cases (lit "deposit") sub_type cash_cases-IsCancelled d)
            (if-IsCancelled_when _ (classify_non_trade sub_type) _
              (λ y. elim named [
                | inl is_security ↦ classify_non_trade-IsCancelled is_security sub_type
                | inr n ↦ absurd (ground (arith, y, n))
              ])
              d)))
