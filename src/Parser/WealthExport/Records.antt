-- ===== src/Parser/WealthExport/Records.antt =====
-- The reader of the own export on the fields that were written.
use wealth.Prelude.{
  All, Bool, List, Text, [], false, insert, is_empty, lit, lookup, map, refl, same, some, to_lower,
  trim_space, value_or, ℕ, ◌+◌, ◌||◌, ◌∷◌, ◌≡◌, text_eq, nat_eq,
}
use wealth.Prelude.Float.{Float64, nought}
use wealth.Parser.Fields.{
  Dates, Decimals, field_at, find_column, get_field, header_index, is_blank, is_missing,
}
use wealth.Parser.Rows.{Transaction, parse_rows, parsed, row, with_row}
use wealth.Parser.Csv.{IsPlain}
use wealth.Parser.WealthExport.{export_row, export_transaction, parse_amount, parse_wealth_export}
use wealth.Handler.Export.{
  DatePrinter, NumberPrinter, StoredTransaction, export_header, export_record,
}

abbrev IsColumn : Text → ℕ → Type 0
IsColumn name i = find_column (header_index export_header) (name ∷ []) ≡ some i

-- Where the reader finds the columns of the export.
columns :
    IsColumn (lit "date") 0
    × IsColumn (lit "type") 1
    × IsColumn (lit "counterparty") 3
    × IsColumn (lit "security_isin") 4
    × IsColumn (lit "quantity") 5
    × IsColumn (lit "price") 6
    × IsColumn (lit "amount") 7
    × IsColumn (lit "fee") 8
    × IsColumn (lit "tax") 9
    × IsColumn (lit "currency") 10
    × IsColumn (lit "reference") 11
unfolding header_index find_column lookup insert same to_lower trim_space
columns = (refl, refl, refl, refl, refl, refl, refl, refl, refl, refl, refl)

abbrev is_missing_column : Text → Bool
is_missing_column name = is_missing (find_column (header_index export_header) (name ∷ []))

no_column_missing :
    (is_missing_column (lit "date")
      || is_missing_column (lit "type")
      || is_missing_column (lit "amount"))
    ≡ false
no_column_missing = rw (columns.0, columns.1, columns.6) refl

abbrev pub IsTrimmed : Text → Type 0
IsTrimmed s = trim_space s ≡ s

module _ {F : Type 0} ⦃f : Float64 F⦄ ⦃decimals : Decimals F⦄ ⦃numbers : NumberPrinter F⦄ where
  -- The number has no more digits than the column prints.
  abbrev pub IsExact : ℕ → F → Type 0
  IsExact k x =
      let s = numbers.format_float k x in
      IsTrimmed s × (is_empty s ≡ false) × (decimals.parse_float s ≡ some x)

  parse_amount-format :
      (k : ℕ) (x : F) → IsExact k x → parse_amount (trim_space (numbers.format_float k x)) ≡ x
  unfolding parse_amount
  parse_amount-format k x (trimmed, filled, exact) = rw (trimmed, trimmed, filled, exact) refl

module _ {F D : Type 0} ⦃f : Float64 F⦄ ⦃decimals : Decimals F⦄ ⦃dates : Dates D⦄
    ⦃numbers : NumberPrinter F⦄ ⦃printer : DatePrinter D⦄ where
  -- A row that the file can hold: no field has a semicolon, a quote, a line break or spaces around
  -- it, the date and the numbers are read as they are printed, and there is a currency.
  pub record IsClean (t : StoredTransaction F D) : Type 0 where
    pub plain : All (IsPlain b';') (export_record t)
    pub date_trimmed : IsTrimmed (printer.format_date t.date)
    pub date_filled : is_empty (printer.format_date t.date) ≡ false
    pub date_exact : dates.parse_time (lit "2006-01-02") (printer.format_date t.date) ≡ some t.date
    pub type_trimmed : IsTrimmed t.type
    pub counterparty_trimmed : IsTrimmed (value_or [] t.counterparty)
    pub isin_trimmed : IsTrimmed (value_or [] t.security_isin)
    pub reference_trimmed : IsTrimmed (value_or [] t.reference)
    pub currency_trimmed : IsTrimmed t.currency
    pub currency_filled : is_empty t.currency ≡ false
    pub quantity_exact : IsExact 8 (value_or nought t.quantity)
    pub price_exact : IsExact 8 (value_or nought t.price)
    pub amount_exact : IsExact 4 (value_or nought t.amount)
    pub fee_exact : IsExact 4 (value_or nought t.fee)
    pub tax_exact : IsExact 4 (value_or nought t.tax)

  -- What a stored row is for an import into an account: the name of its account and its category
  -- are lost.
  abbrev pub imported : Text → StoredTransaction F D → Transaction F D
  imported account_id t = record {
    account_id = account_id;
    date = t.date;
    type = t.type;
    security_isin = value_or [] t.security_isin;
    quantity = value_or nought t.quantity;
    price = value_or nought t.price;
    amount = value_or nought t.amount;
    fee = value_or nought t.fee;
    tax = value_or nought t.tax;
    currency = t.currency;
    counterparty = value_or [] t.counterparty;
    reference = value_or [] t.reference;
    category = [];
  }

  export_transaction-record :
      (account_id : Text) (t : StoredTransaction F D)
      → IsClean t
      → export_transaction account_id (header_index export_header) t.date (export_record t)
        ≡ imported account_id t
  unfolding export_transaction export_record get_field field_at
  export_transaction-record account_id t c =
      let (date, type, counterparty, isin, quantity, price, amount, fee, tax, currency, reference) =
        columns in
      rw (type, counterparty, isin, quantity, price, amount, fee, tax, currency, reference)
        (rw
          (
            parse_amount-format 8 _ c.quantity_exact,
            parse_amount-format 8 _ c.price_exact,
            parse_amount-format 4 _ c.amount_exact,
            parse_amount-format 4 _ c.fee_exact,
            parse_amount-format 4 _ c.tax_exact,
          )
          (rw
            (
              c.type_trimmed, c.type_trimmed, c.isin_trimmed, c.isin_trimmed,
              c.counterparty_trimmed, c.counterparty_trimmed, c.reference_trimmed,
              c.reference_trimmed, c.currency_trimmed, c.currency_trimmed, c.currency_filled,
            )
            refl))

  get_field-date :
      (t : StoredTransaction F D)
      → IsClean t
      → get_field (export_record t) (find_column (header_index export_header) (lit "date" ∷ []))
        ≡ printer.format_date t.date
  unfolding get_field export_record
  get_field-date t c = rw (columns.0, c.date_trimmed) refl

  export_row-record :
      (account_id : Text) (n : ℕ) (t : StoredTransaction F D)
      → IsClean t
      → export_row account_id (header_index export_header) n (export_record t)
        ≡ row (imported account_id t)
  unfolding export_row
  export_row-record account_id n t c =
      rw (get_field-date t c, c.date_filled, c.date_exact, export_transaction-record account_id t c)
        refl

  parse_rows-export :
      (account_id : Text) (n : ℕ) (txns : List (StoredTransaction F D))
      → All IsClean txns
      → parse_rows (export_row account_id (header_index export_header)) n (map export_record txns)
        ≡ parsed (map (imported account_id) txns)
  unfolding parse_rows is_blank export_record with_row
  parse_rows-export account_id n [] h = refl
  parse_rows-export account_id n (t ∷ ts) (c, cs) =
      rw (export_row-record account_id n t c, parse_rows-export account_id (n + 1) ts cs) refl

  pub parse_wealth_export-records :
      (account_id : Text) (first : StoredTransaction F D) (txns : List (StoredTransaction F D))
      → All IsClean (first ∷ txns)
      → parse_wealth_export account_id (export_header ∷ map export_record (first ∷ txns))
        ≡ parsed (map (imported account_id) (first ∷ txns))
  unfolding parse_wealth_export
  parse_wealth_export-records account_id first txns h =
      rw no_column_missing (parse_rows-export account_id 2 (first ∷ txns) h)
