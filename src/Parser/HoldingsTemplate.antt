-- ===== src/Parser/HoldingsTemplate.antt =====
-- internal/parser/holdings_template.go
use wealth.Prelude.{
  Bool, List, Text, [], contains, if◌then◌else◌, is_empty, lit, none, some, trim_space, ℕ, ◌&&◌,
  ◌||◌, ◌∷◌, text_eq, nat_eq,
}
use wealth.Prelude.Float.{Float64, nought, ◌<?◌, ◌⊘◌}
use wealth.Parser.Fields.{
  Dates, Decimals, Record, find_column, get_field, header_index, is_missing, normalize_header,
  parse_german_date, parse_iso_date, parse_standard_decimal,
}
use wealth.Parser.Rows.{
  Parsed, Row, Transaction, bad, bad_amount, bad_quantity, failed, missing_columns, no_data_rows,
  parse_rows, row, skip,
}

unfoldable pub detect_holdings_template : Record → Bool
unfolding normalize_header
detect_holdings_template header =
    let norm = normalize_header header in
    contains norm (lit "isin")
    && contains norm (lit "quantity")
    && contains norm (lit "market_value")

module _ {D : Type 0} ⦃dates : Dates D⦄ where
  -- The date of a position: `today` where the column has no date.
  unfoldable pub holding_date : D → Text → D
  holding_date today date_str =
      if is_empty date_str then today else elim (parse_iso_date date_str) [
        | some d ↦ d
        | none ↦ elim (parse_german_date date_str) [ some d ↦ d | none ↦ today ]
      ]

module _ {F D : Type 0} ⦃f : Float64 F⦄ ⦃decimals : Decimals F⦄ ⦃dates : Dates D⦄ where
  -- The purchase that stands for a position.
  abbrev pub holding_transaction : Text → D → Text → Text → Text → F → F → Transaction F D
  holding_transaction account_id date isin name currency quantity market_value = record {
    account_id = account_id;
    date = date;
    type = lit "buy";
    security_isin = isin;
    quantity = quantity;
    price = if nought <? quantity then market_value ⊘ quantity else nought;
    amount = market_value;
    fee = nought;
    tax = nought;
    currency = if is_empty currency then lit "EUR" else currency;
    counterparty = name;
    reference = lit "holdings template import";
    category = [];
  }

  unfoldable pub holding_row : D → Text → List (Text × ℕ) → ℕ → Record → Row F D
  holding_row today account_id idx n r =
      let field : Text → Text = λ name. get_field r (find_column idx (name ∷ [])) in
      let isin = trim_space (field (lit "isin")) in
      let quantity_str = field (lit "quantity") in
      let market_value_str = field (lit "market_value") in
      if is_empty isin then skip else elim (parse_standard_decimal quantity_str) [
        | none ↦ bad (bad_quantity n quantity_str)
        | some quantity ↦ elim (parse_standard_decimal market_value_str) [
          | none ↦ bad (bad_amount n market_value_str)
          | some market_value ↦ row (
              holding_transaction account_id (holding_date today (field (lit "date"))) isin
                (field (lit "name")) (field (lit "currency")) quantity market_value)
        ]
      ]

  unfoldable pub parse_holdings_template : D → Text → List Record → Parsed (List (Transaction F D))
  unfolding header_index find_column holding_row parse_rows
  parse_holdings_template today account_id [] = failed no_data_rows
  parse_holdings_template today account_id (header ∷ []) = failed no_data_rows
  parse_holdings_template today account_id (header ∷ rows) =
      let idx = header_index header in
      let absent : Text → Bool = λ name. is_missing (find_column idx (name ∷ [])) in
      if absent (lit "isin") || absent (lit "quantity") || absent (lit "market_value")
      then failed missing_columns
      else parse_rows (holding_row today account_id idx) 2 rows
