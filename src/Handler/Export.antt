-- ===== src/Handler/Export.antt =====
-- `HandleExportTransactions` of internal/handler/settings.go: the text of the file, with the fields
-- of a line joined by semicolons without quotes.
use wealth.Prelude.{List, Option, Text, [], lit, map, take, value_or, ℕ, ◌∷◌}
use wealth.Prelude.Float.{Float64, nought}
use wealth.Parser.Fields.{Record}
use wealth.Parser.Csv.{byte_order_mark, lines_of}

-- What the export calls of the Go library: `fmt.Sprintf("%.kf", x)` and `Format("2006-01-02")`.
pub record NumberPrinter (F : Type 0) : Type 0 where
  pub format_float : ℕ → F → Text

pub record DatePrinter (D : Type 0) : Type 0 where
  pub format_date : D → Text

-- A row of the query `ListTransactions`. A column that is NULL is `none`.
pub record StoredTransaction (F D : Type 0) : Type 0 where
  pub date : D
  pub type : Text
  pub account_name : Text
  pub counterparty : Option Text
  pub security_isin : Option Text
  pub quantity : Option F
  pub price : Option F
  pub amount : Option F
  pub fee : Option F
  pub tax : Option F
  pub currency : Text
  pub reference : Option Text

abbrev pub export_header : Record
export_header =
    lit "date"
    ∷ lit "type"
    ∷ lit "account"
    ∷ lit "counterparty"
    ∷ lit "security_isin"
    ∷ lit "quantity"
    ∷ lit "price"
    ∷ lit "amount"
    ∷ lit "fee"
    ∷ lit "tax"
    ∷ lit "currency"
    ∷ lit "reference"
    ∷ []

-- The query gives the first ten thousand of the rows.
abbrev pub export_limit : ℕ
export_limit = 10000

module _ {F D : Type 0} ⦃f : Float64 F⦄ ⦃numbers : NumberPrinter F⦄ ⦃printer : DatePrinter D⦄ where
  -- The fields of a line.
  unfoldable pub export_record : StoredTransaction F D → Record
  export_record t =
      printer.format_date t.date
      ∷ t.type
      ∷ t.account_name
      ∷ value_or [] t.counterparty
      ∷ value_or [] t.security_isin
      ∷ numbers.format_float 8 (value_or nought t.quantity)
      ∷ numbers.format_float 8 (value_or nought t.price)
      ∷ numbers.format_float 4 (value_or nought t.amount)
      ∷ numbers.format_float 4 (value_or nought t.fee)
      ∷ numbers.format_float 4 (value_or nought t.tax)
      ∷ t.currency
      ∷ value_or [] t.reference
      ∷ []

  unfoldable pub export_transactions : List (StoredTransaction F D) → Text
  unfolding export_record lines_of
  export_transactions txns =
      byte_order_mark ∷ lines_of b';' (export_header ∷ map export_record (take export_limit txns))
