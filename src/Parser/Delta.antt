-- ===== src/Parser/Delta.antt =====
-- internal/parser/delta.go. A warning keeps what its text says.
pub mod Complete
use wealth.Prelude.{
  Bool, List, Option, Text, [], contains, has_prefix, if◌then◌else◌, is_empty, lit, nat_beq, none,
  not, same, some, to_lower, to_upper, trim_space, ℕ, ◌&&◌, ◌++◌, ◌+◌, ◌||◌, ◌∷◌, text_eq, nat_eq,
}
use wealth.Prelude.Float.{Float64, nought, ◌<?◌, ◌⊘◌}
use wealth.Parser.Fields.{
  Dates, Decimals, Record, find_column, get_field, header_index, is_blank, is_missing,
  normalize_header, parse_standard_decimal,
}
use wealth.Parser.Rows.{Parsed, Transaction, failed, missing_columns, no_data_rows, parsed}

unfoldable pub detect_delta : Record → Bool
unfolding normalize_header
detect_delta header =
    let norm = normalize_header header in
    contains norm (lit "way")
    && contains norm (lit "base amount")
    && contains norm (lit "base currency (name)")

-- Why a row is skipped, with the number of the row.
pub data Warning : Type 0 where
  cash_leg not_base_holding invalid_amount : ℕ → Warning
  invalid_date fiat unsupported_type unsupported_way : ℕ → Text → Warning

pub data DeltaRow (F D : Type 0) : Type 0 where
  blank : DeltaRow F D
  warned : Warning → DeltaRow F D
  taken : Transaction F D → DeltaRow F D

module _ {F D : Type 0} where
  -- What a row adds to the transactions and the warnings behind it.
  abbrev pub push_answer :
      DeltaRow F D → List (Transaction F D) × List Warning → List (Transaction F D) × List Warning
  push_answer blank (txns, warnings) = (txns, warnings)
  push_answer (warned w) (txns, warnings) = (txns, w ∷ warnings)
  push_answer (taken t) (txns, warnings) = (t ∷ txns, warnings)

-- `strings.Index(s, "(")` splits the text, and `strings.LastIndex(s, ")")` the rest of it: what is
-- before and behind, if there is such a rune.
unfoldable pub before_first : ℕ → Text → Option (Text × Text)
before_first c [] = none
before_first c (d ∷ s) =
    let rest = before_first c s in
    if nat_beq d c
    then some ([], s)
    else elim rest [ none ↦ none | some (front, back) ↦ some (d ∷ front, back) ]

unfoldable pub before_last : ℕ → Text → Option Text
before_last c [] = none
before_last c (d ∷ s) =
    let rest = before_last c s in
    elim rest [ some front ↦ some (d ∷ front) | none ↦ if nat_beq d c then some [] else none ]

-- The symbol and the name. A closing bracket counts only behind the first opening one, which must
-- not be the first rune.
unfoldable pub split_delta_symbol : Text → Text × Text
unfolding before_first before_last
split_delta_symbol text =
    let s = trim_space text in
    elim (before_first b'(' s) [
      | none ↦ (s, [])
      | some (front, back) ↦ if is_empty front then (s, []) else elim (before_last b')' back) [
        | none ↦ (s, [])
        | some name ↦ (trim_space front, trim_space name)
      ]
    ]

unfoldable pub delta_synthetic_isin : Text → Text → Text
delta_synthetic_isin base_type text =
    let symbol = trim_space text in
    let base = to_upper base_type in
    if is_empty symbol
    then []
    else if same base (lit "CRYPTO")
    then lit "CRYPTO:" ++ to_upper symbol
    else if same base (lit "STOCK")
    then symbol
    else []

module _ {D : Type 0} ⦃dates : Dates D⦄ where
  -- The first layout that reads the text. `truncate` is the day of a point in time.
  unfoldable pub first_layout : List Text → Text → Option D
  first_layout [] s = none
  first_layout (layout ∷ layouts) s =
      let rest = first_layout layouts s in
      elim (dates.parse_time layout s) [ some t ↦ some t | none ↦ rest ]

  unfoldable pub parse_delta_date_time : (D → D) → Text → Option D
  unfolding first_layout
  parse_delta_date_time truncate text =
      let s = trim_space text in
      if is_empty s
      then none
      else elim (first_layout
          (lit "2006-01-02T15:04:05.000Z"
            ∷ lit "2006-01-02T15:04:05Z"
            ∷ lit "2006-01-02T15:04:05Z07:00"
            ∷ lit "2006-01-02"
            ∷ [])
          s) [ none ↦ none | some t ↦ some (truncate t) ]

module _ {F : Type 0} ⦃f : Float64 F⦄ where
  -- The switch on the way: the type, the amount and the price. The quote counts for trades only.
  unfoldable pub delta_way : Text → F → F → Option (Text × F × F)
  delta_way way base_amount quote_amount =
      let price = if nought <? base_amount then quote_amount ⊘ base_amount else nought in
      if same way (lit "BUY")
      then some (lit "buy", quote_amount, price)
      else if same way (lit "SELL")
      then some (lit "sell", quote_amount, price)
      else if same way (lit "DEPOSIT")
      then some (lit "transfer", nought, nought)
      else if same way (lit "WITHDRAW") || same way (lit "WITHDRAWAL")
      then some (lit "transfer_out", nought, nought)
      else none

module _ {F : Type 0} ⦃f : Float64 F⦄ ⦃decimals : Decimals F⦄ where
  -- A number that counts as 0 when it cannot be read.
  abbrev pub quote_value : Text → F
  quote_value s = elim (parse_standard_decimal s) [ none ↦ nought | some x ↦ x ]

module _ {F D : Type 0} ⦃f : Float64 F⦄ ⦃decimals : Decimals F⦄ ⦃dates : Dates D⦄ where
  -- The fields that a transaction takes from its row.
  abbrev pub delta_transaction :
      Text → List (Text × ℕ) → Record → D → F → Text → Text → Text × F × F → Transaction F D
  delta_transaction account_id idx r date base_amount base_name isin (type, amount, price) =
      let field : Text → Text = λ name. get_field r (find_column idx (name ∷ [])) in
      let way = to_upper (field (lit "way")) in
      let quote_currency = field (lit "quote currency") in
      let exchange = field (lit "exchange") in
      record {
        account_id = account_id;
        date = date;
        type = type;
        security_isin = isin;
        quantity = base_amount;
        price = price;
        amount = amount;
        fee = quote_value (field (lit "fee amount"));
        tax = nought;
        currency = if is_empty quote_currency then lit "EUR" else quote_currency;
        counterparty = base_name;
        reference = if is_empty exchange then way else way ++ lit " @ " ++ exchange;
        category = [];
      }

  -- What is behind the tests of the row.
  unfoldable pub delta_taken :
      Text → List (Text × ℕ) → ℕ → Record → D → F → Text → Text → DeltaRow F D
  delta_taken account_id idx n r date base_amount base_name isin =
      let field : Text → Text = λ name. get_field r (find_column idx (name ∷ [])) in
      let way = to_upper (field (lit "way")) in
      elim (delta_way way base_amount (quote_value (field (lit "quote amount")))) [
        | none ↦ warned (unsupported_way n way)
        | some trade ↦
            taken (delta_transaction account_id idx r date base_amount base_name isin trade)
      ]

  -- The tests on the assets of a row.
  unfoldable pub delta_asset : Text → List (Text × ℕ) → ℕ → Record → D → F → DeltaRow F D
  delta_asset account_id idx n r date base_amount =
      let field : Text → Text = λ name. get_field r (find_column idx (name ∷ [])) in
      let base_type = to_upper (field (lit "base type")) in
      let base = split_delta_symbol (field (lit "base currency (name)")) in
      let isin = delta_synthetic_isin base_type base.0 in
      if same base_type (lit "FIAT")
      then warned (fiat n base.0)
      else if is_empty isin
      then warned (unsupported_type n base_type)
      else delta_taken account_id idx n r date base_amount base.1 isin

  unfoldable pub delta_row : (D → D) → Text → List (Text × ℕ) → ℕ → Record → DeltaRow F D
  delta_row truncate account_id idx n r =
      let field : Text → Text = λ name. get_field r (find_column idx (name ∷ [])) in
      let date_str = field (lit "date") in
      let sync_col = find_column idx (lit "sync base holding" ∷ []) in
      if is_blank r
      then blank
      else if has_prefix (field (lit "notes")) (lit "SYNC-BASE-HOLDINGS")
      then warned (cash_leg n)
      else if not (is_missing sync_col) && same (to_lower (get_field r sync_col)) (lit "false")
      then warned (not_base_holding n)
      else elim (parse_delta_date_time truncate date_str) [
        | none ↦ warned (invalid_date n date_str)
        | some date ↦ elim (parse_standard_decimal (field (lit "base amount"))) [
          | none ↦ warned (invalid_amount n)
          | some base_amount ↦ delta_asset account_id idx n r date base_amount
        ]
      ]

  -- The transactions and the warnings of the rows.
  unfoldable pub delta_rows :
      (D → D) → Text → List (Text × ℕ) → ℕ → List Record → List (Transaction F D) × List Warning
  delta_rows truncate account_id idx n [] = ([], [])
  delta_rows truncate account_id idx n (r ∷ rs) =
      push_answer (delta_row truncate account_id idx n r)
        (delta_rows truncate account_id idx (n + 1) rs)

  unfoldable pub parse_delta :
      (D → D) → Text → List Record → Parsed (List (Transaction F D) × List Warning)
  unfolding delta_rows header_index find_column
  parse_delta truncate account_id [] = failed no_data_rows
  parse_delta truncate account_id (header ∷ []) = failed no_data_rows
  parse_delta truncate account_id (header ∷ rows) =
      let idx = header_index header in
      let absent : Text → Bool = λ name. is_missing (find_column idx (name ∷ [])) in
      if absent (lit "date")
        || absent (lit "way")
        || absent (lit "base amount")
        || absent (lit "base currency (name)")
      then failed missing_columns
      else parsed (delta_rows truncate account_id idx 2 rows)
