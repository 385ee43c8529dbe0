-- ===== src/Parser/N26.antt =====
-- internal/parser/n26.go
pub mod Amounts
use wealth.Prelude.{
  Bool, List, Option, Text, [], any, contains, contains_text, if◌then◌else◌, is_empty, lit, none,
  same, some, to_lower, ℕ, ◌&&◌, ◌||◌, ◌∷◌, text_eq, nat_eq,
}
use wealth.Prelude.Float.{Float64, negate, nought, ◌<?◌}
use wealth.Parser.Fields.{
  Dates, Decimals, Record, find_column, get_field, header_index, is_missing, normalize_header,
  parse_german_date, parse_iso_date, parse_standard_decimal,
}
use wealth.Parser.Rows.{
  Parsed, Row, Transaction, bad, bad_amount, bad_date, failed, missing_columns, new_transaction,
  no_data_rows, parse_rows, row, skip,
}

abbrev pub payee_names : List Text
payee_names = lit "payee" ∷ lit "empfänger" ∷ lit "empfaenger" ∷ []

abbrev pub type_names : List Text
type_names = lit "transaction type" ∷ lit "transaktionstyp" ∷ []

abbrev pub reference_names : List Text
reference_names = lit "payment reference" ∷ lit "verwendungszweck" ∷ lit "zahlungsreferenz" ∷ []

unfoldable pub detect_n26 : Record → Bool
unfolding normalize_header
detect_n26 header = any (λ h. contains payee_names h) (normalize_header header)

module _ {D : Type 0} ⦃dates : Dates D⦄ where
  -- An ISO date, or else a German one.
  unfoldable pub n26_date : Text → Option D
  n26_date s = elim (parse_iso_date s) [ none ↦ parse_german_date s | some date ↦ some date ]

module _ {F : Type 0} ⦃f : Float64 F⦄ where
  unfoldable pub classify_n26_transaction : F → Text → Text
  classify_n26_transaction amount txn_type =
      let tt' = to_lower txn_type in
      if contains_text tt' (lit "interest")
      then lit "interest"
      else if contains_text tt' (lit "zinsen")
      then lit "interest"
      else if nought <? amount
      then lit "deposit"
      else lit "withdrawal"

  -- The amount that is stored: a withdrawal loses its sign.
  unfoldable pub unsigned_amount : F → Text → F
  unsigned_amount amount type =
      if (amount <? nought) && same type (lit "withdrawal") then negate amount else amount

module _ {F D : Type 0} ⦃f : Float64 F⦄ ⦃decimals : Decimals F⦄ ⦃dates : Dates D⦄ where
  abbrev pub n26_transaction : Text → D → F → Text → Text → Text → Transaction F D
  n26_transaction account_id date amount payee type reference =
      let normalized = classify_n26_transaction amount type in
      record (new_transaction account_id date normalized (unsigned_amount amount normalized)) {
        counterparty = payee;
        reference = reference;
      }

  -- One row: its date and its amount, or an error.
  unfoldable pub n26_row : Text → List (Text × ℕ) → Option ℕ → Option ℕ → ℕ → Record → Row F D
  n26_row account_id idx date_col amount_col n r =
      let date_str = get_field r date_col in
      let amount_str = get_field r amount_col in
      if is_empty date_str then skip else elim (n26_date date_str) [
        | none ↦ bad (bad_date n date_str)
        | some date ↦ elim (parse_standard_decimal amount_str) [
          | none ↦ bad (bad_amount n amount_str)
          | some amount ↦ row (
              n26_transaction account_id date amount (get_field r (find_column idx payee_names))
                (get_field r (find_column idx type_names))
                (get_field r (find_column idx reference_names)))
        ]
      ]

  unfoldable pub parse_n26 : Text → List Record → Parsed (List (Transaction F D))
  unfolding header_index find_column n26_row parse_rows
  parse_n26 account_id [] = failed no_data_rows
  parse_n26 account_id (header ∷ []) = failed no_data_rows
  parse_n26 account_id (header ∷ rows) =
      let idx = header_index header in
      let date_col = find_column idx (lit "date" ∷ lit "datum" ∷ []) in
      let amount_col =
        find_column idx (lit "amount (eur)" ∷ lit "betrag (eur)" ∷ lit "amount" ∷ []) in
      if is_missing date_col || is_missing amount_col
      then failed missing_columns
      else parse_rows (n26_row account_id idx date_col amount_col) 2 rows
