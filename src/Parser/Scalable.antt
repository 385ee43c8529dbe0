-- ===== src/Parser/Scalable.antt =====
-- internal/parser/scalable.go: the types of its rows, and the reader. `day` is the date as it is
-- printed by the layout 2006-01-02.
pub mod Types
pub mod Closeouts
pub mod Cancelled
pub mod Merged
use wealth.Prelude.{
  Bool, List, Option, Text, [], contains, if◌then◌else◌, is_empty, lit, none, not, same, some,
  to_lower, to_upper, trim_space, ℕ, ◌&&◌, ◌+◌, ◌||◌, ◌∷◌, text_eq, nat_eq,
}
use wealth.Prelude.Float.{Float64, magnitude, nought, ◌=?◌, ◌⊘◌}
use wealth.Parser.Fields.{
  Dates, Decimals, Record, find_column, get_field, header_index, is_blank, is_missing,
  normalize_header, parse_standard_decimal,
}
use wealth.Parser.Rows.{Parsed, Transaction, failed, missing_columns, no_data_rows, parsed}
use wealth.Parser.Scalable.Closeouts.{Closeout, merge_closeouts}
use wealth.Parser.N26.{n26_date}
use wealth.Parser.Scalable.Types.{classify_scalable_type, reverse_txn_type}

unfoldable pub detect_scalable : Record → Bool
unfolding normalize_header
detect_scalable header =
    let has : Text → Bool = λ name. contains (normalize_header header) name in
    (has (lit "isin") && has (lit "sub_type") && has (lit "is_cancellation"))
    || (has (lit "isin")
        && (has (lit "shares") || has (lit "stück") || has (lit "stueck"))
        && not (has (lit "sub_type")))

-- The account type that the first row names, if it names one.
unfoldable pub detect_account_type : Option ℕ → Record → Option Text
unfolding get_field
detect_account_type account_col r =
    let value = to_lower (trim_space (get_field r account_col)) in
    if is_missing account_col
    then none
    else if same value (lit "broker")
    then some (lit "brokerage")
    else if same value (lit "savings")
    then some (lit "savings")
    else none

-- The warnings, with the number of the row.
pub data ScalableWarning : Type 0 where
  skipped_status invalid_date : ℕ → Text → ScalableWarning
  empty_date : ℕ → ScalableWarning

-- What is made of a row: the transaction, and whether it may close a position.
pub data ScalableRow (F D : Type 0) : Type 0 where
  blank : ScalableRow F D
  warned : ScalableWarning → ScalableRow F D
  taken : Transaction F D → Bool → ScalableRow F D

module _ {F : Type 0} ⦃f : Float64 F⦄ ⦃decimals : Decimals F⦄ where
  -- A number that counts as 0 when it cannot be read.
  abbrev number_of : Text → F
  number_of s = elim (parse_standard_decimal s) [ none ↦ nought | some x ↦ x ]

abbrev scalable_non_trade : List (Text × ℕ) → Record → Bool
scalable_non_trade idx r =
    let field : List Text → Text = λ names. get_field r (find_column idx names) in
    same (to_lower (field (lit "type" ∷ lit "typ" ∷ []))) (lit "non_trade_security_transaction")
    && not (same (to_lower (field (lit "is_cancellation" ∷ []))) (lit "true"))

-- What the loop has: the transactions, which of them may close a position, and the warnings.
pub record ScalableRows (F D : Type 0) : Type 0 where
  pub txns : List (Transaction F D)
  pub non_trade : List Bool
  pub warnings : List ScalableWarning

module _ {F D : Type 0} ⦃f : Float64 F⦄ ⦃decimals : Decimals F⦄ ⦃dates : Dates D⦄ where
  abbrev scalable_transaction : Text → List (Text × ℕ) → Record → D → Transaction F D
  scalable_transaction account_id idx r date =
      let field : List Text → Text = λ names. get_field r (find_column idx names) in
      let type_raw = to_lower (field (lit "type" ∷ lit "typ" ∷ [])) in
      let sub_type = to_lower (field (lit "sub_type" ∷ [])) in
      let side = to_lower (field (lit "side" ∷ [])) in
      let quantity : F =
        number_of (field (lit "quantity" ∷ lit "shares" ∷ lit "stück" ∷ lit "stueck" ∷ [])) in
      let signed_amount : F = number_of (field (lit "amount" ∷ lit "betrag" ∷ [])) in
      let currency = field (lit "currency" ∷ lit "währung" ∷ lit "waehrung" ∷ []) in
      let type = classify_scalable_type type_raw sub_type side in
      let cancelled = same (to_lower (field (lit "is_cancellation" ∷ []))) (lit "true") in
      record {
        account_id = account_id;
        date = date;
        type = if cancelled then reverse_txn_type type else type;
        security_isin = field (lit "isin" ∷ []);
        quantity = magnitude quantity;
        price =
            if not (quantity =? nought) && not (signed_amount =? nought)
            then magnitude signed_amount ⊘ magnitude quantity
            else nought;
        amount = magnitude signed_amount;
        fee = nought;
        tax = nought;
        currency = if is_empty currency then lit "EUR" else currency;
        counterparty = field (lit "description" ∷ lit "name" ∷ lit "titel" ∷ []);
        reference = [];
        category = [];
      }

  unfoldable pub scalable_row : Text → List (Text × ℕ) → ℕ → Record → ScalableRow F D
  unfolding n26_date
  scalable_row account_id idx n r =
      let field : List Text → Text = λ names. get_field r (find_column idx names) in
      let status = to_upper (trim_space (field (lit "status" ∷ []))) in
      let date_str = field (lit "date" ∷ lit "datum" ∷ []) in
      if is_blank r
      then blank
      else if not (is_empty status) && not (same status (lit "SETTLED"))
      then warned (skipped_status n status)
      else if is_empty date_str
      then warned (empty_date n)
      else elim (n26_date date_str) [
        | none ↦ warned (invalid_date n date_str)
        | some date ↦ taken (scalable_transaction account_id idx r date) (scalable_non_trade idx r)
      ]

  abbrev with_scalable : ScalableRow F D → ScalableRows F D → ScalableRows F D
  with_scalable blank rest = rest
  with_scalable (warned w) rest = record rest { warnings = w ∷ rest.warnings }
  with_scalable (taken t non_trade) rest = record rest {
    txns = t ∷ rest.txns;
    non_trade = non_trade ∷ rest.non_trade;
  }

  -- The loop over the rows.
  unfoldable pub scalable_rows : Text → List (Text × ℕ) → ℕ → List Record → ScalableRows F D
  unfolding scalable_row
  scalable_rows account_id idx n [] = record { txns = []; non_trade = []; warnings = [] }
  scalable_rows account_id idx n (r ∷ rows) =
      with_scalable (scalable_row account_id idx n r) (scalable_rows account_id idx (n + 1) rows)

  -- The transactions, with the warnings and the close-outs.
  unfoldable pub parse_scalable :
      (D → Text)
      → Text
      → List Record
      → Parsed (List (Transaction F D) × List ScalableWarning × List Closeout)
  unfolding header_index find_column scalable_rows merge_closeouts
  parse_scalable day account_id [] = failed no_data_rows
  parse_scalable day account_id (header ∷ []) = failed no_data_rows
  parse_scalable day account_id (header ∷ rows) =
      let idx = header_index header in
      let found : ScalableRows F D = scalable_rows account_id idx 2 rows in
      let (txns, closeouts) = merge_closeouts day found.txns found.non_trade in
      if is_missing (find_column idx (lit "date" ∷ lit "datum" ∷ []))
        || is_missing (find_column idx (lit "isin" ∷ []))
      then failed missing_columns
      else parsed (txns, found.warnings, closeouts)
