-- ===== src/Parser/Sparkasse.antt =====
-- internal/parser/sparkasse.go
pub mod Amounts
use wealth.Prelude.{
  Bool, List, Option, Text, [], any, contains_text, get_or, if◌then◌else◌, is_empty, lit, lookup,
  none, same, some, to_lower, ℕ, ◌&&◌, ◌||◌, ◌∷◌, text_eq, nat_eq,
}
use wealth.Prelude.Float.{Float64, negate, nought, ◌<?◌}
use wealth.Parser.Fields.{
  Dates, Decimals, Record, find_column, get_field, header_index, is_missing, normalize_header,
  parse_german_date, parse_german_decimal,
}
use wealth.Parser.Rows.{
  Parsed, Row, Transaction, bad, bad_amount, bad_date, failed, missing_columns, new_transaction,
  no_data_rows, parse_rows, row, skip,
}

unfoldable pub detect_sparkasse : Record → Bool
unfolding normalize_header
detect_sparkasse header =
    any (λ h. contains_text h (lit "auftragskonto")) (normalize_header header)
    && any (λ h. contains_text h (lit "buchungstag")) (normalize_header header)

unfoldable pub categorize_by_buchungstext : Text → Text
categorize_by_buchungstext buchungstext =
    let has = contains_text (to_lower buchungstext) in
    if has (lit "gehalt") || has (lit "lohn")
    then lit "income"
    else if has (lit "miete")
    then lit "rent"
    else if has (lit "versicherung")
    then lit "insurance"
    else if has (lit "strom") || has (lit "gas") || has (lit "wasser")
    then lit "utilities"
    else []

abbrev pub counterparty_names : List Text
counterparty_names =
    lit "begünstigter/zahlungspflichtiger"
    ∷ lit "beguenstigter/zahlungspflichtiger"
    ∷ lit "begünstigter"
    ∷ lit "beguenstigter"
    ∷ []

-- `idx["währung"]`, a read of a Go map: 0 where the column is missing.
unfoldable pub currency_column : List (Text × ℕ) → Option ℕ
currency_column idx = some (get_or (lit "währung") 0 idx)

module _ {F : Type 0} ⦃f : Float64 F⦄ where
  unfoldable pub classify_sparkasse_transaction : F → Text → Text
  classify_sparkasse_transaction amount buchungstext =
      let has = contains_text (to_lower buchungstext) in
      if has (lit "zinsen")
      then lit "interest"
      else if has (lit "gebühr") || has (lit "gebuehr") || has (lit "entgelt")
      then lit "fee"
      else if has (lit "umbuchung") || has (lit "übertrag") || has (lit "uebertrag")
      then lit "transfer"
      else if nought <? amount
      then lit "deposit"
      else lit "withdrawal"

  -- The amount that is stored. The second assignment of the code writes what is there.
  unfoldable pub booked_amount : F → Text → F
  booked_amount amount type =
      if (amount <? nought) && same type (lit "withdrawal") then negate amount else amount

module _ {F D : Type 0} ⦃f : Float64 F⦄ ⦃decimals : Decimals F⦄ ⦃dates : Dates D⦄ where
  abbrev pub sparkasse_transaction : Text → D → F → Text → Text → Text → Text → Transaction F D
  sparkasse_transaction account_id date amount currency counterparty reference buchungstext =
      let type = classify_sparkasse_transaction amount buchungstext in
      record (new_transaction account_id date type (booked_amount amount type)) {
        currency = if is_empty currency then lit "EUR" else currency;
        counterparty = counterparty;
        reference = reference;
        category = categorize_by_buchungstext buchungstext;
      }

  unfoldable pub sparkasse_row : Text → List (Text × ℕ) → Option ℕ → Option ℕ → ℕ → Record → Row F D
  sparkasse_row account_id idx date_col amount_col n r =
      let date_str = get_field r date_col in
      let amount_str = get_field r amount_col in
      if is_empty date_str then skip else elim (parse_german_date date_str) [
        | none ↦ bad (bad_date n date_str)
        | some date ↦ elim (parse_german_decimal amount_str) [
          | none ↦ bad (bad_amount n amount_str)
          | some amount ↦ row (
              sparkasse_transaction account_id date amount (get_field r (currency_column idx))
                (get_field r (find_column idx counterparty_names))
                (get_field r (find_column idx (lit "verwendungszweck" ∷ [])))
                (get_field r (find_column idx (lit "buchungstext" ∷ []))))
        ]
      ]

  unfoldable pub parse_sparkasse : Text → List Record → Parsed (List (Transaction F D))
  unfolding header_index sparkasse_row parse_rows currency_column
  parse_sparkasse account_id [] = failed no_data_rows
  parse_sparkasse account_id (header ∷ []) = failed no_data_rows
  parse_sparkasse account_id (header ∷ rows) =
      let idx = header_index header in
      let date_col = lookup (lit "buchungstag") idx in
      let amount_col = lookup (lit "betrag") idx in
      if is_missing date_col || is_missing amount_col
      then failed missing_columns
      else parse_rows (sparkasse_row account_id idx date_col amount_col) 2 rows
