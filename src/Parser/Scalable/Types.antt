-- ===== src/Parser/Scalable/Types.antt =====
-- internal/parser/scalable.go: `classifyScalableType` and `reverseTxnType`. A switch on a string is the
-- table of its cases, in their order, and its default.
use wealth.Prelude.{
  List, Text, [], contains, if◌then◌else◌, is_empty, lit, same, ◌&&◌, ◌||◌, ◌∷◌, text_eq,
}

unfoldable pub switch_on : List (List Text × Text) → Text → Text → Text
switch_on [] default s = default
switch_on ((names, type) ∷ cases) default s =
    let rest = switch_on cases default s in if contains names s then type else rest

-- The columns of the bookmarklet are missing: the side decides.
abbrev pub side_cases : List (List Text × Text)
side_cases =
    (lit "buy" ∷ lit "kauf" ∷ [], lit "buy")
    ∷ (lit "sell" ∷ lit "verkauf" ∷ [], lit "sell")
    ∷ (
      lit "dividend" ∷ lit "dividende" ∷ lit "distribution" ∷ lit "ausschüttung" ∷ [],
      lit "dividend",
    )
    ∷ (lit "deposit" ∷ lit "einzahlung" ∷ [], lit "deposit")
    ∷ (lit "withdrawal" ∷ lit "auszahlung" ∷ [], lit "withdrawal")
    ∷ (lit "savings_plan" ∷ lit "sparplan" ∷ [], lit "savings_plan")
    ∷ (lit "interest" ∷ lit "zinsen" ∷ [], lit "interest")
    ∷ (lit "fee" ∷ lit "gebühr" ∷ lit "tax" ∷ lit "steuer" ∷ [], lit "fee")
    ∷ []

abbrev pub cash_cases : List (List Text × Text)
cash_cases =
    (lit "deposit" ∷ [], lit "deposit")
    ∷ (lit "withdrawal" ∷ [], lit "withdrawal")
    ∷ (lit "distribution" ∷ lit "dividend" ∷ lit "dividende" ∷ [], lit "dividend")
    ∷ (lit "interest" ∷ lit "zinsen" ∷ [], lit "interest")
    ∷ (lit "tax" ∷ lit "steuer" ∷ [], lit "fee")
    ∷ (lit "cash_transfer_out" ∷ [], lit "cash_transfer_out")
    ∷ (lit "cash_transfer_in" ∷ [], lit "cash_transfer_in")
    ∷ []

unfoldable pub classify_side : Text → Text
unfolding switch_on
classify_side side = switch_on side_cases (if is_empty side then lit "deposit" else lit "buy") side

unfoldable pub classify_trade : Text → Text → Text
classify_trade sub_type side =
    if same sub_type (lit "savings_plan") || same sub_type (lit "sparplan")
    then lit "savings_plan"
    else if same side (lit "sell")
    then lit "sell"
    else lit "buy"

unfoldable pub classify_non_trade : Text → Text
classify_non_trade sub_type =
    if same sub_type (lit "transfer_out") then lit "transfer_out" else lit "transfer"

unfoldable pub classify_scalable_type : Text → Text → Text → Text
unfolding classify_side classify_trade classify_non_trade
classify_scalable_type txn_type sub_type side =
    if is_empty txn_type && is_empty sub_type
    then classify_side side
    else if same txn_type (lit "security_transaction")
    then classify_trade sub_type side
    else if same txn_type (lit "cash_transaction")
    then switch_on cash_cases (lit "deposit") sub_type
    else if same txn_type (lit "non_trade_security_transaction")
    then classify_non_trade sub_type
    else lit "deposit"

abbrev pub reverse_cases : List (List Text × Text)
reverse_cases =
    (lit "buy" ∷ lit "savings_plan" ∷ [], lit "sell")
    ∷ (lit "sell" ∷ [], lit "buy")
    ∷ (lit "deposit" ∷ [], lit "withdrawal")
    ∷ (lit "withdrawal" ∷ [], lit "deposit")
    ∷ (lit "dividend" ∷ lit "interest" ∷ [], lit "fee")
    ∷ (lit "fee" ∷ [], lit "interest")
    ∷ (lit "transfer" ∷ [], lit "transfer_out")
    ∷ (lit "transfer_out" ∷ [], lit "transfer")
    ∷ (lit "cash_transfer_in" ∷ [], lit "cash_transfer_out")
    ∷ (lit "cash_transfer_out" ∷ [], lit "cash_transfer_in")
    ∷ []

-- The type of a cancelled row.
unfoldable pub reverse_txn_type : Text → Text
unfolding switch_on
reverse_txn_type t = switch_on reverse_cases t t
