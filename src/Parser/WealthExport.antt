-- ===== src/Parser/WealthExport.antt =====
-- internal/parser/wealth_export.go
pub mod Records
pub mod RoundTrip
use wealth.Prelude.{
  Bool, List, Text, [], contains, if◌then◌else◌, is_empty, lit, none, some, trim_space, ℕ, ◌&&◌,
  ◌||◌, ◌∷◌, text_eq, nat_eq,
}
use wealth.Prelude.Float.{Float64, nought}
use wealth.Parser.Fields.{
  Dates, Decimals, Record, find_column, get_field, header_index, is_missing, normalize_header,
}
use wealth.Parser.Rows.{
  Parsed, Row, Transaction, bad, bad_date, failed, missing_columns, no_data_rows, parse_rows, row,
  skip,
}

unfoldable pub detect_wealth_export : Record → Bool
unfolding normalize_header
detect_wealth_export header =
    let norm = normalize_header header in
    contains norm (lit "date")
    && contains norm (lit "type")
    && contains norm (lit "amount")
    && contains norm (lit "security_isin")

module _ {F : Type 0} ⦃f : Float64 F⦄ ⦃decimals : Decimals F⦄ where
  -- `parseAmount`: what is no number counts as 0.
  unfoldable pub parse_amount : Text → F
  parse_amount text =
      let s = trim_space text in
      if is_empty s then nought else elim (decimals.parse_float s) [ none ↦ nought | some v ↦ v ]

module _ {F D : Type 0} ⦃f : Float64 F⦄ ⦃decimals : Decimals F⦄ ⦃dates : Dates D⦄ where
  unfoldable pub export_transaction : Text → List (Text × ℕ) → D → Record → Transaction F D
  export_transaction account_id idx date r =
      let field : Text → Text = λ name. get_field r (find_column idx (name ∷ [])) in
      let currency = trim_space (field (lit "currency")) in
      record {
        account_id = account_id;
        date = date;
        type = trim_space (field (lit "type"));
        security_isin = trim_space (field (lit "security_isin"));
        quantity = parse_amount (field (lit "quantity"));
        price = parse_amount (field (lit "price"));
        amount = parse_amount (field (lit "amount"));
        fee = parse_amount (field (lit "fee"));
        tax = parse_amount (field (lit "tax"));
        currency = if is_empty currency then lit "EUR" else currency;
        counterparty = trim_space (field (lit "counterparty"));
        reference = trim_space (field (lit "reference"));
        category = [];
      }

  unfoldable pub export_row : Text → List (Text × ℕ) → ℕ → Record → Row F D
  export_row account_id idx n r =
      let date_str = get_field r (find_column idx (lit "date" ∷ [])) in
      if is_empty date_str then skip else elim (dates.parse_time (lit "2006-01-02") date_str) [
        | none ↦ bad (bad_date n date_str)
        | some date ↦ row (export_transaction account_id idx date r)
      ]

  unfoldable pub parse_wealth_export : Text → List Record → Parsed (List (Transaction F D))
  unfolding header_index find_column export_row export_transaction parse_rows
  parse_wealth_export account_id [] = failed no_data_rows
  parse_wealth_export account_id (header ∷ []) = failed no_data_rows
  parse_wealth_export account_id (header ∷ rows) =
      let idx = header_index header in
      let absent : Text → Bool = λ name. is_missing (find_column idx (name ∷ [])) in
      if absent (lit "date") || absent (lit "type") || absent (lit "amount")
      then failed missing_columns
      else parse_rows (export_row account_id idx) 2 rows
