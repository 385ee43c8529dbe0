-- ===== src/Examples/Readers.antt =====
-- internal/parser/scalable.go, ing.go and revolut.go
use wealth.Prelude.{
  All, List, Option, String, Text, [], contains_text, false, has_prefix, if◌then◌else◌, inl, insert,
  is_empty, lit, lookup, map, none, refl, same, some, to_lower, to_upper, trim_space, true, ◌-◌,
  ◌∷◌, ◌≡◌, text_eq, nat_eq,
}
use wealth.Prelude.Float.Fixed.{Fixed, fixed_float}
use wealth.Parser.Fields.{
  Dates, Decimals, Record, get_field, is_blank, parse_german_date, parse_german_decimal,
  parse_iso_date, parse_standard_decimal,
}
use wealth.Parser.Rows.{Transaction, new_transaction, parsed}
use wealth.Scheduler.Backfill.Replay.Cash.{direction, inflow}
use wealth.Prelude.Float.{nought}
use wealth.Parser.Scalable.Merged.{IsCloseout, kept_of, merge_closeouts-kept}
use wealth.Parser.Scalable.Closeouts.{drop_rows, merge_closeouts}
use wealth.Parser.Ing
use wealth.Parser.Revolut
use wealth.Parser.Revolut.{parse_revolut}
use wealth.Parser.Ing.{bad_order_quantity, parse_ing, skipped_status}
use wealth.Parser.Scalable.Types.{classify_scalable_type, classify_trade, reverse_txn_type}
use wealth.Parser.Scalable.Cancelled.{classify_scalable_type-IsCancelled, tag}
use wealth.Parser.Scalable.{parse_scalable, skipped_status}

-- A small part of `strconv`: whole numbers of one digit.
abbrev digit : Text → Option Fixed
digit (c ∷ []) = some (fixed_float.literal (c - b'0') 0)
digit _ = none

instance abbrev digits : Decimals Fixed
digits = record { parse_float = digit }

-- A date is its text.
instance abbrev plain_dates : Dates Text
plain_dates = record { parse_time = λ layout s. if is_empty s then none else some s }

abbrev line : String → String → String → String → String → String → Record
line status type sub_type side isin quantity =
    lit "2024-01-05"
    ∷ lit status
    ∷ lit type
    ∷ lit sub_type
    ∷ lit side
    ∷ lit isin
    ∷ lit quantity
    ∷ lit "8"
    ∷ []

-- A knock-out: two units, and eight euros paid; and a row that is not settled.
abbrev knock_out : List Record
knock_out =
    (lit "date"
      ∷ lit "status"
      ∷ lit "type"
      ∷ lit "sub_type"
      ∷ lit "side"
      ∷ lit "isin"
      ∷ lit "quantity"
      ∷ lit "amount"
      ∷ [])
    ∷ line "SETTLED" "NON_TRADE_SECURITY_TRANSACTION" "" "" "DE000A" "2"
    ∷ line "REJECTED" "SECURITY_TRANSACTION" "" "BUY" "DE000B" "1"
    ∷ line "SETTLED" "CASH_TRANSACTION" "DISTRIBUTION" "" "DE000A" ""
    ∷ []

abbrev sale : Transaction Fixed Text
sale =
    record (new_transaction (lit "a") (lit "2024-01-05") (lit "sell") (fixed_float.literal 8 0)) {
      security_isin = lit "DE000A";
      quantity = fixed_float.literal 2 0;
      price = fixed_float.literal 4 0;
    }

-- One sale of two units at four is left.
knock_out_sold :
    parse_scalable (λ day. day) (lit "a") knock_out
    ≡ parsed (
      sale ∷ [],
      skipped_status 3 (lit "REJECTED") ∷ [],
      record { dropped_at = 0; payout_at = 1 } ∷ [],
    )
unfolding parse_scalable lookup insert same to_lower trim_space is_blank to_upper get_field
    parse_iso_date parse_standard_decimal classify_scalable_type
knock_out_sold = refl

classify_scalable_type-IsCancelled_example :
    direction
      (tag (reverse_txn_type (classify_scalable_type (lit "security_transaction") [] (lit "buy"))))
      (lit "DE000A")
    ≡ inflow
unfolding classify_scalable_type classify_trade same
classify_scalable_type-IsCancelled_example =
    classify_scalable_type-IsCancelled (lit "DE000A") (lit "security_transaction") [] (lit "buy")
      (inl refl)

abbrev booked_rows : List (Transaction Fixed Text)
booked_rows =
    record sale { type = lit "transfer" }
    ∷ record sale { type = lit "dividend"; quantity = nought; price = nought }
    ∷ []

merge_closeouts-kept_example :
    let (rows, closeouts) = merge_closeouts (λ day. day) booked_rows (true ∷ false ∷ []) in
    (map (kept_of (λ day. day)) rows
      ≡ drop_rows (λ day. day) closeouts 0 (map (kept_of (λ day. day)) booked_rows))
    × All (IsCloseout (λ day. day) booked_rows) closeouts
merge_closeouts-kept_example = merge_closeouts-kept (λ day. day) booked_rows (true ∷ false ∷ [])

abbrev ing_orders : List Record
ing_orders =
    (lit "Orderart"
      ∷ lit "Ausführungsdatum"
      ∷ lit "ISIN"
      ∷ lit "Stück"
      ∷ lit "Ausführungskurs"
      ∷ lit "Status"
      ∷ [])
    ∷ (lit "Verkauf Limit"
        ∷ lit "05.01.2024"
        ∷ lit "DE000A"
        ∷ lit "2"
        ∷ lit "4"
        ∷ lit "ausgeführt"
        ∷ [])
    ∷ (lit "Kauf" ∷ lit "05.01.2024" ∷ lit "DE000A" ∷ lit "x1" ∷ lit "4" ∷ [])
    ∷ (lit "Kauf" ∷ lit "05.01.2024" ∷ lit "DE000A" ∷ lit "1" ∷ lit "4" ∷ lit "gestrichen" ∷ [])
    ∷ []

ing_sold :
    parse_ing (lit "today") (lit "a") ing_orders
    ≡ parsed (
      record sale { date = lit "05.01.2024" } ∷ [],
      bad_order_quantity 3 ∷ Ing.skipped_status 4 (lit "gestrichen") ∷ [],
    )
unfolding parse_ing lookup insert same to_lower trim_space is_blank get_field parse_german_date
    parse_german_decimal has_prefix contains_text
ing_sold = refl

abbrev revolut_savings : List Record
revolut_savings =
    (lit "Date" ∷ lit "Description" ∷ lit "Gross interest" ∷ lit "Money in" ∷ lit "Money out" ∷ [])
    ∷ (lit "Apr 25, 2025" ∷ lit "Net Interest Paid" ∷ [] ∷ lit "€7" ∷ [] ∷ [])
    ∷ (lit "Apr 26, 2025" ∷ lit "Moved" ∷ [] ∷ [] ∷ lit "£x9" ∷ [])
    ∷ []

interest_paid :
    parse_revolut (λ day. day) (lit "a") revolut_savings
    ≡ parsed (
      record (new_transaction
            (lit "a")
            (lit "Apr 25, 2025")
            (lit "interest")
            (fixed_float.literal 7 0)) {
              counterparty = lit "Revolut";
              reference = lit "Net Interest Paid";
            }
          ∷ [],
      Revolut.bad_money_out 3 (lit "£x9") ∷ [],
    )
unfolding parse_revolut lookup insert same to_lower trim_space is_blank get_field
    parse_standard_decimal contains_text has_prefix
interest_paid = refl
