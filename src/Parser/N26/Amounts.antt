-- ===== src/Parser/N26/Amounts.antt =====
-- The sign of what an N26 file gives.
use wealth.Prelude.{
  Bool-cases, List, Option, Option-cases, Text, [], arith, contains_text, false, inl, inr, is_empty,
  lit, refl, same, to_lower, true, ℕ, ◌||◌, ◌∷◌, ◌≡◌, ◌⊎◌, text_eq, nat_eq,
}
use wealth.Prelude.Float.{Float64, nought, ◌<?◌}
use wealth.Prelude.Float.Order.{IsIeee}
use wealth.Parser.Fields.{
  Dates, Decimals, Record, find_column, get_field, header_index, is_missing, parse_standard_decimal,
}
use wealth.Parser.Rows.{Transaction}
use wealth.Parser.Rows.Laws.{ParsedHave, RowHas, parse_rows-ParsedHave}
use wealth.Parser.N26.{
  classify_n26_transaction, n26_date, n26_row, n26_transaction, parse_n26, payee_names,
  reference_names, type_names, unsigned_amount,
}

module _ {F : Type 0} ⦃f : Float64 F⦄ where
  classify_n26_transaction-cases :
      (amount : F) (type : Text)
      → let result = classify_n26_transaction amount type in
        (result ≡ lit "interest")
        ⊎ ((result ≡ lit "deposit") × ((nought <? amount) ≡ true))
        ⊎ ((result ≡ lit "withdrawal") × ((nought <? amount) ≡ false))
  unfolding classify_n26_transaction
  classify_n26_transaction-cases amount type =
      elim (Bool-cases (contains_text (to_lower type) (lit "interest"))) [
        | inl e ↦ rw e (inl refl)
        | inr n ↦ elim (Bool-cases (contains_text (to_lower type) (lit "zinsen"))) [
          | inl e ↦ rw (n, e) (inl refl)
          | inr m ↦ elim (Bool-cases (nought <? amount)) [
            | inl more ↦ rw (n, m, more) (inr (inl (refl, refl)))
            | inr less ↦ rw (n, m, less) (inr (inr (refl, refl)))
          ]
        ]
      ]

module _ {F : Type 0} ⦃f : Float64 F⦄ (laws : IsIeee F) where
  -- A withdrawal is stored without its sign.
  unsigned_amount-withdrawal :
      (amount : F) → (unsigned_amount amount (lit "withdrawal") <? nought) ≡ false
  unfolding unsigned_amount same
  unsigned_amount-withdrawal amount = elim (Bool-cases (amount <? nought)) [
    | inl less ↦ rw less (laws.negate_not_neg amount less)
    | inr n ↦ rw n n
  ]

  unsigned_amount-deposit : (amount : F) → unsigned_amount amount (lit "deposit") ≡ amount
  unfolding unsigned_amount same
  unsigned_amount-deposit amount = ground arith

module _ {F D : Type 0} ⦃f : Float64 F⦄ where
  -- A deposit of more than nothing, a withdrawal that is not below nothing, or interest.
  abbrev pub IsDirected : Transaction F D → Type 0
  IsDirected t =
      ((t.type ≡ lit "deposit") × ((nought <? t.amount) ≡ true))
      ⊎ ((t.type ≡ lit "withdrawal") × ((t.amount <? nought) ≡ false))
      ⊎ (t.type ≡ lit "interest")

module _ {F : Type 0} (D : Type 0) ⦃f : Float64 F⦄ ⦃decimals : Decimals F⦄ ⦃dates : Dates D⦄
    (laws : IsIeee F) where
  n26_transaction-IsDirected :
      (account_id : Text) (date : D) (amount : F) (payee type reference : Text)
      → IsDirected (n26_transaction account_id date amount payee type reference)
  n26_transaction-IsDirected account_id date amount payee type reference =
      elim (classify_n26_transaction-cases amount type) [
        | inl e ↦ inr (inr e)
        | inr (inl (e, more)) ↦ rw e (inl (refl, rw (unsigned_amount-deposit laws amount) more))
        | inr (inr (e, less)) ↦ rw e (inr (inl (refl, unsigned_amount-withdrawal laws amount)))
      ]

  n26_row-IsDirected :
      (account_id : Text) (idx : List (Text × ℕ)) (date_col amount_col : Option ℕ) (n : ℕ)
      (r : Record)
      → RowHas {F = F} {D = D} IsDirected (n26_row {D = D} account_id idx date_col amount_col n r)
  unfolding n26_row
  n26_row-IsDirected account_id idx date_col amount_col n r =
      let date_str = get_field r date_col in
      elim (Bool-cases (is_empty date_str)) [
        | inl e ↦ rw e tt
        | inr filled ↦ elim (Option-cases (n26_date {D = D} date_str)) [
          | inl e ↦ rw (filled, e) tt
          | inr (date, e) ↦
              elim (Option-cases (parse_standard_decimal {F = F} (get_field r amount_col))) [
                | inl e' ↦ rw (filled, e, e') tt
                | inr (amount, e') ↦
                    rw (filled, e, e')
                      (n26_transaction-IsDirected account_id date amount
                        (get_field r (find_column idx payee_names))
                        (get_field r (find_column idx type_names))
                        (get_field r (find_column idx reference_names)))
              ]
        ]
      ]

  -- Whatever an N26 file holds, the word NaN as an amount included, each transaction read from it is
  -- a deposit of a positive amount, a withdrawal whose amount is not below 0 (it may be NaN), or
  -- interest.
  pub parse_n26-IsDirected :
      (account_id : Text) (records : List Record)
      → ParsedHave {F = F} {D = D} IsDirected (parse_n26 account_id records)
  unfolding parse_n26
  parse_n26-IsDirected account_id [] = tt
  parse_n26-IsDirected account_id (header ∷ []) = tt
  parse_n26-IsDirected account_id (header ∷ first ∷ rows) =
      let idx = header_index header in
      let date_col = find_column idx (lit "date" ∷ lit "datum" ∷ []) in
      let amount_col =
        find_column idx (lit "amount (eur)" ∷ lit "betrag (eur)" ∷ lit "amount" ∷ []) in
      elim (Bool-cases (is_missing date_col || is_missing amount_col)) [
        | inl e ↦ rw e tt
        | inr n ↦ rw n (
            parse_rows-ParsedHave IsDirected (n26_row account_id idx date_col amount_col)
              (n26_row-IsDirected account_id idx date_col amount_col) 2 (first ∷ rows))
      ]
