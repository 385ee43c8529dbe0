-- ===== src/Examples/Parser.antt =====
-- internal/parser, and the export of internal/handler/settings.go
use wealth.Prelude.{
  List, Option, Text, [], get_or, if◌then◌else◌, insert, is_empty, lit, lookup, nat_beq, none, refl,
  same, some, to_lower, to_upper, trim_space, ◌-◌, ◌∷◌, ◌≡◌, text_eq, nat_eq,
}
use wealth.Prelude.Float.Fixed.{Fixed, fixed_float}
use wealth.Parser.Fields.{
  Dates, Decimals, Record, get_field, is_blank, parse_german_date, parse_german_decimal,
}
use wealth.Parser.Rows.Laws.{ParsedHave}
use wealth.Parser.Sparkasse.{
  booked_amount, categorize_by_buchungstext, classify_sparkasse_transaction, parse_sparkasse,
}
use wealth.Parser.Delta.{delta_synthetic_isin, parse_delta, split_delta_symbol}
use wealth.Parser.Delta.Complete.{ParsedComplete, parse_delta-ParsedComplete}
use wealth.Parser.Assets.{classify_asset, crypto}
use wealth.Parser.Assets.Crypto.{classify_asset-delta}
use wealth.Handler.Export.{DatePrinter, NumberPrinter, StoredTransaction}

-- A small part of `strconv`: whole numbers of one digit, and a sign.
abbrev digit_value : Text → Option Fixed
digit_value (c ∷ []) = some (fixed_float.literal (c - b'0') 0)
digit_value (m ∷ c ∷ []) =
    if nat_beq m b'-'
    then some (fixed_float.sub (fixed_float.literal 0 0) (fixed_float.literal (c - b'0') 0))
    else none
digit_value _ = none

instance abbrev one_digit : Decimals Fixed
one_digit = record { parse_float = digit_value }

-- A date is its text.
instance abbrev text_dates : Dates Text
text_dates = record { parse_time = λ layout s. if is_empty s then none else some s }

instance abbrev digit_printer : NumberPrinter Fixed
digit_printer = record { format_float = λ k x. b'7' ∷ [] }

instance abbrev text_printer : DatePrinter Text
text_printer = record { format_date = λ d. d }

abbrev seven : Fixed
seven = fixed_float.literal 7 0

abbrev sparkasse_file : List Record
sparkasse_file =
    (lit "Auftragskonto" ∷ lit "Buchungstag" ∷ lit "Betrag" ∷ [])
    ∷ (lit "DE00 1234" ∷ lit "05.01.24" ∷ lit "-7" ∷ [])
    ∷ []

-- Without a column for the currency, the account number of the first column is taken for one.
sparkasse_currency :
    ParsedHave {F = Fixed} {D = Text}
      (λ t. t.currency ≡ lit "DE00 1234")
      (parse_sparkasse (lit "a") sparkasse_file)
unfolding parse_sparkasse parse_german_date parse_german_decimal classify_sparkasse_transaction
    booked_amount categorize_by_buchungstext lookup get_or insert same to_lower trim_space get_field
    is_blank
sparkasse_currency = (refl, tt)

abbrev stored : StoredTransaction Fixed Text
stored = record {
  date = lit "2024-01-05";
  type = lit "buy";
  account_name = lit "Depot";
  counterparty = none;
  security_isin = some (lit "IE00B4L5Y983");
  quantity = some seven;
  price = some seven;
  amount = some seven;
  fee = some seven;
  tax = some seven;
  currency = lit "EUR";
  reference = some (lit "plan");
}

abbrev delta_file : List Record
delta_file =
    (lit "Date" ∷ lit "Way" ∷ lit "Base amount" ∷ lit "Base currency (name)" ∷ lit "Base type" ∷ [])
    ∷ (lit "2024-01-05" ∷ lit "BUY" ∷ lit "2" ∷ lit "BTC (Bitcoin)" ∷ lit "CRYPTO" ∷ [])
    ∷ (lit "2024-01-05" ∷ lit "BUY" ∷ lit "2" ∷ lit "EUR (Euro)" ∷ lit "FIAT" ∷ [])
    ∷ []

symbol_and_name : split_delta_symbol (lit " BTC (Bitcoin) ") ≡ (lit "BTC", lit "Bitcoin")
unfolding split_delta_symbol trim_space
symbol_and_name = refl

parse_delta-ParsedComplete_example :
    ParsedComplete Fixed delta_file (parse_delta (λ (d : Text). d) (lit "a") delta_file)
parse_delta-ParsedComplete_example = parse_delta-ParsedComplete Fixed (λ d. d) (lit "a") delta_file

classify_asset-delta_example :
    classify_asset (delta_synthetic_isin (lit "Crypto") (lit "btc")) (lit "Bitcoin") ≡ crypto
unfolding same to_upper trim_space
classify_asset-delta_example =
    classify_asset-delta (lit "Crypto") (lit "btc") (lit "Bitcoin") refl refl
