-- ===== src/Parser/Rows.antt =====
-- The transactions of internal/parser/parser.go, and the loop over the rows that the parsers share.
pub mod Laws
use wealth.Prelude.{List, Text, [], if◌then◌else◌, lit, ℕ, ◌+◌, ◌∷◌, text_eq, nat_eq}
use wealth.Prelude.Float.{Float64, nought}
use wealth.Parser.Fields.{Record, is_blank}

-- `Transaction`, less the hash of its row, which is set afterwards.
pub record Transaction (F D : Type 0) : Type 0 where
  pub account_id : Text
  pub date : D
  pub type : Text
  pub security_isin : Text
  pub quantity : F
  pub price : F
  pub amount : F
  pub fee : F
  pub tax : F
  pub currency : Text
  pub counterparty : Text
  pub reference : Text
  pub category : Text

-- The errors, with the number of a row and the text that is at fault.
pub data ParseError : Type 0 where
  no_data_rows missing_columns : ParseError
  bad_date bad_amount bad_quantity : ℕ → Text → ParseError

pub data Parsed (A : Type 0) : Type 0 where
  failed : ParseError → Parsed A
  parsed : A → Parsed A

-- What a parser does with one row.
pub data Row (F D : Type 0) : Type 0 where
  skip : Row F D
  bad : ParseError → Row F D
  row : Transaction F D → Row F D

module _ {F D : Type 0} where
  unfoldable pub with_row :
      Row F D → Parsed (List (Transaction F D)) → Parsed (List (Transaction F D))
  with_row skip rest = rest
  with_row (bad e) rest = failed e
  with_row (row t) (failed e) = failed e
  with_row (row t) (parsed ts) = parsed (t ∷ ts)

  -- `for i, record := range records[1:]`, with the number of the row
  unfoldable pub parse_rows :
      (ℕ → Record → Row F D) → ℕ → List Record → Parsed (List (Transaction F D))
  unfolding with_row
  parse_rows parse_row n [] = parsed []
  parse_rows parse_row n (r ∷ rs) =
      with_row (if is_blank r then skip else parse_row n r) (parse_rows parse_row (n + 1) rs)

  module _ ⦃f : Float64 F⦄ where
    -- A transaction with the fields that every parser sets.
    abbrev pub new_transaction : Text → D → Text → F → Transaction F D
    new_transaction account_id date type amount = record {
      account_id = account_id;
      date = date;
      type = type;
      security_isin = [];
      quantity = nought;
      price = nought;
      amount = amount;
      fee = nought;
      tax = nought;
      currency = lit "EUR";
      counterparty = [];
      reference = [];
      category = [];
    }
