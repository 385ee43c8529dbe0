-- ===== src/Parser/Ing.antt =====
-- internal/parser/ing.go: the orders and the holdings of ING. `today` is what `defaultDate` returns.
use wealth.Prelude.{
  Bool, List, Option, Text, [], contains, contains_text, has_prefix, if◌then◌else◌, is_empty, lit,
  lookup, none, not, same, some, to_lower, trim_space, ℕ, ◌&&◌, ◌+◌, ◌||◌, ◌∷◌, text_eq, nat_eq,
}
use wealth.Prelude.Float.{Float64, nought, ◌=?◌, ◌⊗◌}
use wealth.Parser.Fields.{
  Dates, Decimals, Record, find_column, get_field, header_index, is_blank, is_missing,
  normalize_header, parse_german_date, parse_german_decimal,
}
use wealth.Parser.Rows.{
  Parsed, Transaction, failed, missing_columns, new_transaction, no_data_rows, parsed,
}

unfoldable pub detect_ing : Record → Bool
unfolding normalize_header
detect_ing header =
    let has : Text → Bool = λ name. contains (normalize_header header) name in
    (has (lit "orderart") && has (lit "ausführungsdatum") && has (lit "isin"))
    || (has (lit "isin") && has (lit "einstandskurs") && has (lit "bewertungskurs"))

unfoldable pub classify_ing_order : Text → Text
classify_ing_order orderart =
    let o = to_lower (trim_space orderart) in
    if has_prefix o (lit "kauf") || contains_text o (lit "buy")
    then lit "buy"
    else if has_prefix o (lit "verkauf") || has_prefix o (lit "sell")
    then lit "sell"
    else lit "buy"

-- The warnings, with the number of the row, and the status, the date or the security.
pub data IngWarning : Type 0 where
  skipped_status invalid_date no_cost_basis bad_holding_quantity bad_cost_price :
      ℕ → Text → IngWarning
  bad_order_quantity bad_order_price : ℕ → IngWarning

pub data IngRow (F D : Type 0) : Type 0 where
  blank : IngRow F D
  warned : IngWarning → IngRow F D
  taken : Transaction F D → IngRow F D

abbrev or_eur : Text → Text
or_eur currency = if is_empty currency then lit "EUR" else currency

module _ {F : Type 0} ⦃f : Float64 F⦄ where
  -- A number that is read and is not 0.
  abbrev nonzero : Option F → Option F
  nonzero none = none
  nonzero (some x) = if x =? nought then none else some x

module _ {F D : Type 0} ⦃f : Float64 F⦄ where
  -- An order of a security.
  abbrev ing_order : Text → List (Text × ℕ) → Record → D → F → F → Transaction F D
  ing_order account_id idx r date quantity price =
      let field : List Text → Text = λ names. get_field r (find_column idx names) in
      let type = classify_ing_order (field (lit "orderart" ∷ [])) in
      record (new_transaction account_id date type (quantity ⊗ price)) {
        security_isin = field (lit "isin" ∷ []);
        quantity = quantity;
        price = price;
        currency = or_eur (field (lit "währung" ∷ lit "waehrung" ∷ []));
        counterparty = field (lit "wertpapiername" ∷ []);
        reference = field (lit "ordernummer" ∷ []);
      }

  -- A holding as a purchase at its cost; the columns stand at fixed places.
  abbrev ing_holding : Text → Record → D → F → F → F → Transaction F D
  ing_holding account_id r date quantity price amount =
      record (new_transaction account_id date (lit "buy") amount) {
        security_isin = get_field r (some 0);
        quantity = quantity;
        price = price;
        currency = or_eur (get_field r (some 5));
        counterparty = get_field r (some 1);
        reference = lit "ING Depotübersicht";
      }

abbrev quantity_names : List Text
quantity_names = lit "stück/nominale" ∷ lit "stueck/nominale" ∷ lit "stück" ∷ lit "stueck" ∷ []

abbrev price_names : List Text
price_names = lit "ausführungskurs" ∷ lit "ausfuehrungskurs" ∷ []

module _ {F : Type 0} ⦃f : Float64 F⦄ ⦃decimals : Decimals F⦄ where
  -- The value of the holding, or else the product of quantity and price.
  abbrev cost_value : F → F → Text → F
  cost_value quantity price s = elim (nonzero {F = F} (parse_german_decimal s)) [
    | none ↦ quantity ⊗ price
    | some amount ↦ amount
  ]

module _ {D : Type 0} ⦃dates : Dates D⦄ where
  abbrev snapshot_date : D → Text → D
  snapshot_date today s = elim (parse_german_date s) [ none ↦ today | some date ↦ date ]

module _ {F D : Type 0} ⦃f : Float64 F⦄ ⦃decimals : Decimals F⦄ ⦃dates : Dates D⦄ where
  -- What stands behind the date of an order.
  abbrev ing_order_amounts : Text → List (Text × ℕ) → ℕ → Record → D → IngRow F D
  ing_order_amounts account_id idx n r date =
      let field : List Text → Text = λ names. get_field r (find_column idx names) in
      elim (parse_german_decimal (field quantity_names)) [
        | none ↦ warned (bad_order_quantity n)
        | some quantity ↦ elim (parse_german_decimal (field price_names)) [
          | none ↦ warned (bad_order_price n)
          | some price ↦ taken (ing_order account_id idx r date quantity price)
        ]
      ]

  unfoldable pub ing_order_row : Text → List (Text × ℕ) → ℕ → Record → IngRow F D
  unfolding classify_ing_order
  ing_order_row account_id idx n r =
      let field : List Text → Text = λ names. get_field r (find_column idx names) in
      let status = to_lower (field (lit "status" ∷ [])) in
      let date_str = field (lit "ausführungsdatum" ∷ []) in
      if is_blank r || is_empty (field (lit "isin" ∷ []))
      then blank
      else if not (is_empty status)
          && not (same status (lit "ausgeführt"))
          && not (same status (lit "ausgefuehrt"))
      then warned (skipped_status n status)
      else elim (parse_german_date date_str) [
        | none ↦ warned (invalid_date n date_str)
        | some date ↦ ing_order_amounts account_id idx n r date
      ]

  unfoldable pub ing_holding_row : D → Text → ℕ → Record → IngRow F D
  ing_holding_row today account_id n r =
      let isin = get_field r (some 0) in
      let cost_price = get_field r (some 4) in
      if is_blank r || is_empty isin
      then blank
      else if same (to_lower cost_price) (lit "n.a.") || is_empty cost_price
      then warned (no_cost_basis n isin)
      else elim (nonzero {F = F} (parse_german_decimal (get_field r (some 2)))) [
        | none ↦ warned (bad_holding_quantity n isin)
        | some quantity ↦ elim (parse_german_decimal cost_price) [
          | none ↦ warned (bad_cost_price n isin)
          | some price ↦ taken (
              ing_holding account_id r (snapshot_date today (get_field r (some 10))) quantity price
                (cost_value quantity price (get_field r (some 6))))
        ]
      ]

  abbrev with_ing :
      IngRow F D
      → List (Transaction F D) × List IngWarning
      → List (Transaction F D) × List IngWarning
  with_ing blank rest = rest
  with_ing (warned w) (txns, warnings) = (txns, w ∷ warnings)
  with_ing (taken t) (txns, warnings) = (t ∷ txns, warnings)

  -- The loop over the rows, by either reader of a row.
  unfoldable pub ing_rows :
      (ℕ → Record → IngRow F D) → ℕ → List Record → List (Transaction F D) × List IngWarning
  ing_rows read_row n [] = ([], [])
  ing_rows read_row n (r ∷ rows) = with_ing (read_row n r) (ing_rows read_row (n + 1) rows)

  unfoldable pub parse_orders :
      Text → List (Text × ℕ) → List Record → Parsed (List (Transaction F D) × List IngWarning)
  unfolding find_column ing_order_row ing_rows
  parse_orders account_id idx rows =
      let lacks : List Text → Bool = λ names. is_missing (find_column idx names) in
      if lacks (lit "ausführungsdatum" ∷ [])
        || lacks (lit "isin" ∷ [])
        || lacks quantity_names
        || lacks price_names
      then failed missing_columns
      else parsed (ing_rows (ing_order_row account_id idx) 2 rows)

  unfoldable pub parse_ing :
      D → Text → List Record → Parsed (List (Transaction F D) × List IngWarning)
  unfolding header_index parse_orders ing_holding_row
  parse_ing today account_id [] = failed no_data_rows
  parse_ing today account_id (header ∷ []) = failed no_data_rows
  parse_ing today account_id (header ∷ rows) =
      let idx = header_index header in
      elim (lookup (lit "orderart") idx) [
        | some _ ↦ parse_orders account_id idx rows
        | none ↦ parsed (ing_rows (ing_holding_row today account_id) 2 rows)
      ]
