-- ===== src/Parser/Revolut.antt =====
-- internal/parser/revolut.go: the savings vault and the current account. `truncate` takes the time of
-- the day from a date.
use wealth.Prelude.{
  Bool, List, Option, Text, [], contains, contains_text, false, if◌then◌else◌, is_empty, lit,
  lookup, map, none, not, same, some, to_lower, to_upper, trim_space, true, ℕ, ◌&&◌, ◌+◌, ◌==◌,
  ◌||◌, ◌∷◌, text_eq, nat_eq,
}
use wealth.Prelude.Float.{Float64, magnitude, nought, ◌<?◌, ◌=?◌}
use wealth.Parser.Fields.{
  Dates, Decimals, Record, find_column, get_field, header_index, is_blank, is_missing,
  normalize_header, parse_standard_decimal,
}
use wealth.Parser.Rows.{
  Parsed, Transaction, failed, missing_columns, new_transaction, no_data_rows, parsed,
}

unfoldable pub detect_revolut : Record → Bool
unfolding normalize_header
detect_revolut header =
    let has : Text → Bool = λ name. contains (normalize_header header) name in
    (has (lit "money in") && has (lit "money out") && has (lit "gross interest"))
    || (has (lit "started date") && has (lit "completed date") && has (lit "state"))

unfoldable pub classify_revolut_savings : Text → Bool → Text
classify_revolut_savings desc money_in =
    let d = to_lower desc in
    if contains_text d (lit "interest")
    then lit "interest"
    else if contains_text d (lit "deposit")
    then lit "deposit"
    else if contains_text d (lit "withdrawal")
    then lit "withdrawal"
    else if money_in
    then lit "deposit"
    else lit "withdrawal"

abbrev spaced : Text → Text
spaced = map (λ c. if c == b'_' then b' ' else c)

abbrev payment_types : List Text
payment_types = lit "card payment" ∷ lit "atm" ∷ lit "topup return" ∷ []

abbrev refund_types : List Text
refund_types =
    lit "topup"
    ∷ lit "card refund"
    ∷ lit "card chargeback"
    ∷ lit "card credit"
    ∷ lit "refund"
    ∷ lit "tax refund"
    ∷ lit "reward"
    ∷ lit "cashback"
    ∷ []

-- The warnings, with the number of the row and the text that is at fault.
pub data RevolutWarning : Type 0 where
  bad_money_in bad_money_out skipped_state invalid_date invalid_amount : ℕ → Text → RevolutWarning

pub data RevolutRow (F D : Type 0) : Type 0 where
  blank : RevolutRow F D
  warned : RevolutWarning → RevolutRow F D
  taken : Transaction F D → RevolutRow F D

module _ {D : Type 0} ⦃dates : Dates D⦄ where
  unfoldable pub parse_revolut_short_date : Text → Option D
  parse_revolut_short_date text =
      let s = trim_space text in if is_empty s then none else dates.parse_time (lit "Jan 2, 2006") s

  unfoldable pub parse_revolut_date_time : (D → D) → Text → Option D
  parse_revolut_date_time truncate text =
      let s = trim_space text in
      if is_empty s then none else elim (dates.parse_time (lit "2006-01-02 15:04:05") s) [
        | some t ↦ some (truncate t)
        | none ↦ dates.parse_time (lit "2006-01-02") s
      ]

-- A leading symbol: its currency, and what is behind it.
abbrev split_symbol : Text → Text × Text
split_symbol [] = ([], [])
split_symbol (c ∷ s) =
    if c == 0x20AC
    then (lit "EUR", trim_space s)
    else if c == b'$'
    then (lit "USD", trim_space s)
    else if c == 0xA3
    then (lit "GBP", trim_space s)
    else ([], c ∷ s)

module _ {F : Type 0} ⦃f : Float64 F⦄ where
  unfoldable pub classify_revolut_current : Text → F → Text
  classify_revolut_current raw_type amount =
      let t = spaced (to_lower (trim_space raw_type)) in
      if same t (lit "fee") || same t (lit "tax")
      then lit "fee"
      else if same t (lit "interest")
      then lit "interest"
      else if contains payment_types t
      then lit "withdrawal"
      else if contains refund_types t || (nought <? amount)
      then lit "deposit"
      else lit "withdrawal"

module _ {F : Type 0} ⦃f : Float64 F⦄ ⦃decimals : Decimals F⦄ where
  -- The amount and its currency.
  unfoldable pub parse_revolut_amount : Text → Option (F × Text)
  parse_revolut_amount text =
      let s = trim_space text in
      let (currency, rest) = split_symbol s in
      if is_empty s
      then some (nought, [])
      else elim (parse_standard_decimal rest) [ none ↦ none | some v ↦ some (v, currency) ]

  abbrev fee_of : Text → F
  fee_of s = elim (parse_standard_decimal s) [ none ↦ magnitude nought | some x ↦ magnitude x ]

module _ {F D : Type 0} ⦃f : Float64 F⦄ where
  abbrev savings_transaction : Text → D → Text → Text → F × Text → Transaction F D
  savings_transaction account_id date desc type (amount, currency) =
      record (new_transaction account_id date type amount) {
        currency = if is_empty currency then lit "EUR" else currency;
        counterparty = lit "Revolut";
        reference = desc;
      }

  -- Money in or money out, but not both.
  abbrev savings_taken : Text → D → Text → F × Text → F × Text → RevolutRow F D
  savings_taken account_id date desc (in_amt, in_cur) (out_amt, out_cur) =
      if (nought <? in_amt) && (out_amt =? nought)
      then taken (
          savings_transaction account_id date desc (classify_revolut_savings desc true)
            (in_amt, in_cur))
      else if (nought <? out_amt) && (in_amt =? nought)
      then taken (
          savings_transaction account_id date desc (classify_revolut_savings desc false)
            (out_amt, out_cur))
      else blank

  abbrev with_revolut :
      RevolutRow F D
      → List (Transaction F D) × List RevolutWarning
      → List (Transaction F D) × List RevolutWarning
  with_revolut blank rest = rest
  with_revolut (warned w) (txns, warnings) = (txns, w ∷ warnings)
  with_revolut (taken t) (txns, warnings) = (t ∷ txns, warnings)

  -- The loop over the rows, by either reader of a row.
  unfoldable pub revolut_rows :
      (ℕ → Record → RevolutRow F D) → ℕ → List Record → List (Transaction F D) × List RevolutWarning
  revolut_rows read_row n [] = ([], [])
  revolut_rows read_row n (r ∷ rows) =
      with_revolut (if is_blank r then blank else read_row n r) (revolut_rows read_row (n + 1) rows)

module _ {F D : Type 0} ⦃f : Float64 F⦄ ⦃decimals : Decimals F⦄ ⦃dates : Dates D⦄ where
  unfoldable pub savings_row : Text → List (Text × ℕ) → ℕ → Record → RevolutRow F D
  unfolding parse_revolut_short_date parse_revolut_amount classify_revolut_savings
  savings_row account_id idx n r =
      let field : Text → Text = λ name. get_field r (find_column idx (name ∷ [])) in
      let date : Option D = parse_revolut_short_date (field (lit "date")) in
      elim date [
        | none ↦ blank
        | some day ↦ elim (parse_revolut_amount {F = F} (field (lit "money in"))) [
          | none ↦ warned (bad_money_in n (field (lit "money in")))
          | some money_in ↦ elim (parse_revolut_amount {F = F} (field (lit "money out"))) [
            | none ↦ warned (bad_money_out n (field (lit "money out")))
            | some money_out ↦
                savings_taken account_id day (field (lit "description")) money_in money_out
          ]
        ]
      ]

  abbrev current_transaction : Text → List (Text × ℕ) → Record → D → F → Transaction F D
  current_transaction account_id idx r date signed_amount =
      let field : Text → Text = λ name. get_field r (find_column idx (name ∷ [])) in
      let currency = field (lit "currency") in
      let raw_type = field (lit "type") in
      let type = classify_revolut_current raw_type signed_amount in
      record (new_transaction account_id date type (magnitude signed_amount)) {
        fee = fee_of (field (lit "fee"));
        currency = if is_empty currency then lit "EUR" else currency;
        counterparty = field (lit "description");
        reference = raw_type;
      }

  unfoldable pub current_row : (D → D) → Text → List (Text × ℕ) → ℕ → Record → RevolutRow F D
  unfolding parse_revolut_date_time classify_revolut_current
  current_row truncate account_id idx n r =
      let field : Text → Text = λ name. get_field r (find_column idx (name ∷ [])) in
      let state = to_upper (field (lit "state")) in
      let completed = field (lit "completed date") in
      let date_str = if is_empty completed then field (lit "started date") else completed in
      if not (is_empty state) && not (same state (lit "COMPLETED"))
      then warned (skipped_state n state)
      else elim (parse_revolut_date_time truncate date_str) [
        | none ↦ warned (invalid_date n date_str)
        | some date ↦ elim (parse_standard_decimal (field (lit "amount"))) [
          | none ↦ warned (invalid_amount n (field (lit "amount")))
          | some signed_amount ↦ taken (current_transaction account_id idx r date signed_amount)
        ]
      ]

  -- One of the two readers, if its columns are there.
  unfoldable pub parse_revolut :
      (D → D) → Text → List Record → Parsed (List (Transaction F D) × List RevolutWarning)
  unfolding header_index find_column savings_row current_row revolut_rows
  parse_revolut truncate account_id [] = failed no_data_rows
  parse_revolut truncate account_id (header ∷ []) = failed no_data_rows
  parse_revolut truncate account_id (header ∷ rows) =
      let idx = header_index header in
      let lacks : Text → Bool = λ name. is_missing (find_column idx (name ∷ [])) in
      if not (is_missing (lookup (lit "money in") idx))
      then (if lacks (lit "date") || lacks (lit "money in") || lacks (lit "money out")
          then failed missing_columns
          else parsed (revolut_rows (savings_row account_id idx) 2 rows))
      else if lacks (lit "started date") || lacks (lit "amount")
      then failed missing_columns
      else parsed (revolut_rows (current_row truncate account_id idx) 2 rows)
