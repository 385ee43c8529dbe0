-- ===== src/Parser/Sparkasse/Amounts.antt =====
-- The sign of what a Sparkasse file gives.
use wealth.Prelude.{
  Bool, Bool-cases, List, Option, Option-cases, Text, [], arith, contains_text, false, inl, inr,
  is_empty, lit, lookup, refl, same, to_lower, true, ℕ, ◌||◌, ◌∷◌, ◌≡◌, ◌⊎◌, text_eq, nat_eq,
}
use wealth.Prelude.Float.{Float64, nought, ◌<?◌}
use wealth.Prelude.Float.Order.{IsIeee}
use wealth.Parser.Fields.{
  Dates, Decimals, Record, find_column, get_field, header_index, is_missing, parse_german_date,
  parse_german_decimal,
}
use wealth.Parser.Rows.{Transaction}
use wealth.Parser.Rows.Laws.{ParsedHave, RowHas, parse_rows-ParsedHave}
use wealth.Parser.Sparkasse.{
  booked_amount, classify_sparkasse_transaction, counterparty_names, currency_column,
  parse_sparkasse, sparkasse_row, sparkasse_transaction,
}

-- The types that keep the sign of the file.
abbrev pub IsSigned : Text → Type 0
IsSigned type = (type ≡ lit "interest") ⊎ (type ≡ lit "fee") ⊎ (type ≡ lit "transfer")

module _ {F : Type 0} ⦃f : Float64 F⦄ where
  classify_sparkasse_transaction-cases :
      (amount : F) (buchungstext : Text)
      → let result = classify_sparkasse_transaction amount buchungstext in
        IsSigned result
        ⊎ ((result ≡ lit "deposit") × ((nought <? amount) ≡ true))
        ⊎ ((result ≡ lit "withdrawal") × ((nought <? amount) ≡ false))
  unfolding classify_sparkasse_transaction
  classify_sparkasse_transaction-cases amount buchungstext =
      let has : Text → Bool = contains_text (to_lower buchungstext) in
      elim (Bool-cases (has (lit "zinsen"))) [
        | inl e ↦ rw e (inl (inl refl))
        | inr a ↦
            elim (Bool-cases (has (lit "gebühr") || has (lit "gebuehr") || has (lit "entgelt"))) [
              | inl e ↦ rw (a, e) (inl (inr (inl refl)))
              | inr b ↦
                  elim (Bool-cases
                    (has (lit "umbuchung") || has (lit "übertrag") || has (lit "uebertrag"))) [
                      | inl e ↦ rw (a, b, e) (inl (inr (inr refl)))
                      | inr c ↦ elim (Bool-cases (nought <? amount)) [
                        | inl more ↦ rw (a, b, c, more) (inr (inl (refl, refl)))
                        | inr less ↦ rw (a, b, c, less) (inr (inr (refl, refl)))
                      ]
                    ]
            ]
      ]

module _ {F : Type 0} ⦃f : Float64 F⦄ (laws : IsIeee F) where
  booked_amount-withdrawal :
      (amount : F) → (booked_amount amount (lit "withdrawal") <? nought) ≡ false
  unfolding booked_amount same
  booked_amount-withdrawal amount = elim (Bool-cases (amount <? nought)) [
    | inl less ↦ rw less (laws.negate_not_neg amount less)
    | inr n ↦ rw n n
  ]

  booked_amount-deposit : (amount : F) → booked_amount amount (lit "deposit") ≡ amount
  unfolding booked_amount same
  booked_amount-deposit amount = ground arith

module _ {F D : Type 0} ⦃f : Float64 F⦄ where
  -- A deposit of more than nothing, a withdrawal that is not below nothing, or a type that keeps the sign.
  abbrev pub IsBooked : Transaction F D → Type 0
  IsBooked t =
      IsSigned t.type
      ⊎ ((t.type ≡ lit "deposit") × ((nought <? t.amount) ≡ true))
      ⊎ ((t.type ≡ lit "withdrawal") × ((t.amount <? nought) ≡ false))

module _ {F : Type 0} (D : Type 0) ⦃f : Float64 F⦄ ⦃decimals : Decimals F⦄ ⦃dates : Dates D⦄
    (laws : IsIeee F) where
  sparkasse_transaction-IsBooked :
      (account_id : Text) (date : D) (amount : F)
      (currency counterparty reference buchungstext : Text)
      → IsBooked (
          sparkasse_transaction account_id date amount currency counterparty reference buchungstext)
  sparkasse_transaction-IsBooked account_id date amount currency counterparty reference
        buchungstext =
      elim (classify_sparkasse_transaction-cases amount buchungstext) [
        | inl e ↦ inl e
        | inr (inl (e, more)) ↦ rw e (inr (inl (refl, rw (booked_amount-deposit laws amount) more)))
        | inr (inr (e, less)) ↦ rw e (inr (inr (refl, booked_amount-withdrawal laws amount)))
      ]

  sparkasse_row-IsBooked :
      (account_id : Text) (idx : List (Text × ℕ)) (date_col amount_col : Option ℕ) (n : ℕ)
      (r : Record)
      → RowHas {F = F} {D = D} IsBooked (sparkasse_row account_id idx date_col amount_col n r)
  unfolding sparkasse_row
  sparkasse_row-IsBooked account_id idx date_col amount_col n r =
      let date_str = get_field r date_col in
      elim (Bool-cases (is_empty date_str)) [
        | inl e ↦ rw e tt
        | inr filled ↦ elim (Option-cases (parse_german_date {D = D} date_str)) [
          | inl e ↦ rw (filled, e) tt
          | inr (date, e) ↦
              elim (Option-cases (parse_german_decimal {F = F} (get_field r amount_col))) [
                | inl e' ↦ rw (filled, e, e') tt
                | inr (amount, e') ↦
                    rw (filled, e, e')
                      (sparkasse_transaction-IsBooked account_id date amount
                        (get_field r (currency_column idx))
                        (get_field r (find_column idx counterparty_names))
                        (get_field r (find_column idx (lit "verwendungszweck" ∷ [])))
                        (get_field r (find_column idx (lit "buchungstext" ∷ []))))
              ]
        ]
      ]

  -- Whatever a Sparkasse file holds, the word NaN as an amount included, each transaction read from
  -- it is a deposit of a positive amount, a withdrawal whose amount is not below 0 (it may be NaN),
  -- or of a type that keeps its sign.
  pub parse_sparkasse-IsBooked :
      (account_id : Text) (records : List Record)
      → ParsedHave {F = F} {D = D} IsBooked (parse_sparkasse account_id records)
  unfolding parse_sparkasse
  parse_sparkasse-IsBooked account_id [] = tt
  parse_sparkasse-IsBooked account_id (header ∷ []) = tt
  parse_sparkasse-IsBooked account_id (header ∷ first ∷ rows) =
      let idx = header_index header in
      let date_col = lookup (lit "buchungstag") idx in
      let amount_col = lookup (lit "betrag") idx in
      elim (Bool-cases (is_missing date_col || is_missing amount_col)) [
        | inl e ↦ rw e tt
        | inr n ↦ rw n (
            parse_rows-ParsedHave IsBooked (sparkasse_row account_id idx date_col amount_col)
              (sparkasse_row-IsBooked account_id idx date_col amount_col) 2 (first ∷ rows))
      ]
