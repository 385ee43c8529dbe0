-- ===== src/Parser/WealthExport/RoundTrip.antt =====
-- What is exported is read again.
use wealth.Prelude.{List, Option, Text, none, some, text_eq, nat_eq}
use wealth.Prelude.Float.{Float64}
use wealth.Parser.Fields.{Dates, Decimals, Record}
use wealth.Parser.Rows.{Parsed, Transaction}
use wealth.Parser.Csv.{Csv, without_mark}
use wealth.Parser.WealthExport.{parse_wealth_export}
use wealth.Handler.Export.{DatePrinter, NumberPrinter}

module _ {F D : Type 0} ⦃f : Float64 F⦄ ⦃decimals : Decimals F⦄ ⦃dates : Dates D⦄
    ⦃numbers : NumberPrinter F⦄ ⦃printer : DatePrinter D⦄ where
  abbrev pub read_records : Text → Option (List Record) → Option (Parsed (List (Transaction F D)))
  read_records account_id none = none
  read_records account_id (some records) = some (parse_wealth_export account_id records)

  -- What the reader makes of a file, its fields separated by semicolons.
  abbrev pub read_file : Csv → Text → Text → Option (Parsed (List (Transaction F D)))
  read_file csv account_id file = read_records account_id (csv.read_all b';' (without_mark file))
