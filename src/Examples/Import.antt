-- ===== src/Examples/Import.antt =====
-- internal/handler/import.go
use wealth.Prelude.{
  List, Text, [], arith, get_or, insert, length, lit, lookup, nat_beq, refl, same, ℕ, ◌*◌, ◌+◌, ◌-◌,
  ◌/◌, ◌^◌, ◌∷◌, ◌≡◌, ◌≤◌, text_eq, nat_eq,
}
use wealth.Parser.Assets.{classify_asset}
use wealth.Handler.Import.{
  Content, ImportState, Incoming, Numeric, has_hash, insert_transactions, is_similar,
  pick_adoptable, set_type, stored_content, update_hash,
}
use wealth.Handler.Import.Counts.{insert_transactions-counts}
use wealth.Handler.Import.Again.{hashes, insert_transactions-again}

-- Amounts in units of 10^-8, rounded down.
instance abbrev units : Numeric ℕ
units = record { same_value = nat_beq; round_to = λ x k. (x / 10 ^ (8 - k)) * 10 ^ (8 - k) }

abbrev content : ℕ → Content ℕ
content quantity = record {
  account_id = lit "a";
  date = 100;
  security_isin = lit "IE00B4L5Y983";
  quantity = quantity * 10 ^ 8;
  amount = 50 * 10 ^ 8;
  fee = 0;
  tax = 0;
  currency = lit "EUR";
}

abbrev incoming : Text → ℕ → Incoming ℕ
incoming hash quantity = record {
  import_hash = hash;
  type = lit "buy";
  counterparty = lit "World ETF";
  content = content quantity;
}

-- One row of an earlier version, with a hash of its own.
abbrev before : ImportState ℕ
before = record {
  rows = record { id = 1; import_hash = lit "old"; type = lit "buy"; content = content 3 } ∷ [];
  next_id = 2;
  securities = [];
  seen_securities = [];
  claimed = [];
  imported = 0;
  skipped = 0;
  adopted = 0;
  new_securities = [];
}

abbrev file : List (Incoming ℕ)
file = incoming (lit "h1") 3 ∷ incoming (lit "h2") 3 ∷ incoming (lit "h2") 3 ∷ []

-- The first row adopts the old one, the second is new, the third is the second again.
outcome :
    let s = insert_transactions [] file before in
    (s.imported ≡ 1) × (s.skipped ≡ 2) × (s.adopted ≡ 1)
unfolding insert_transactions has_hash pick_adoptable is_similar set_type update_hash lookup insert
    get_or same stored_content classify_asset
outcome = (refl, refl, refl)

insert_transactions-counts_example :
    let after = insert_transactions [] file before in
    (after.imported + after.skipped ≡ length file)
    × (after.adopted ≤ after.skipped)
    × (length after.rows ≡ length before.rows + after.imported)
insert_transactions-counts_example = insert_transactions-counts [] file before

insert_transactions-again_example :
    let once = insert_transactions [] file before in
    let twice = insert_transactions [] file once in
    (twice.imported ≡ 0)
    × (twice.adopted ≡ 0)
    × (twice.skipped ≡ length file)
    × (hashes once.rows ≡ hashes twice.rows)
insert_transactions-again_example = insert_transactions-again [] file before (omega arith, tt, tt)
