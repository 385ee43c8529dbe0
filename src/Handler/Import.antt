-- ===== src/Handler/Import.antt =====
-- internal/handler/import.go: `insertTransactions` over the tables `transactions` and `securities`,
-- with the queries of internal/database/queries.sql. The database answers every query; its
-- identifiers are numbers, and a query that orders by them has the order of the table.
pub mod Securities
pub mod Counts
pub mod Hashes
pub mod Again
use wealth.Prelude.{
  Bool, List, Option, Text, [], contains, false, get_or, if◌then◌else◌, insert, is_empty, lookup,
  map, none, some, ℕ, ◌&&◌, ◌++◌, ◌+◌, ◌==◌, ◌||◌, ◌∷◌, text_eq, nat_eq,
}
use wealth.Parser.Assets.{AssetClass, classify_asset}

-- PostgreSQL's `numeric`: equality of values, and `round(x, scale)`.
pub record Numeric (N : Type 0) : Type 0 where
  pub same_value : N → N → Bool
  pub round_to : N → ℕ → N

-- The columns that tell what a transaction is worth, which `ListSimilarTransactions` compares.
pub record Content (N : Type 0) : Type 0 where
  pub account_id : Text
  pub date : ℕ
  pub security_isin : Text
  pub quantity : N
  pub amount : N
  pub fee : N
  pub tax : N
  pub currency : Text

-- A transaction of a parser. What the queries do not read is left out.
pub record Incoming (N : Type 0) : Type 0 where
  pub import_hash : Text
  pub type : Text
  pub counterparty : Text
  pub content : Content N

-- A row of the table `transactions`.
pub record TransactionRow (N : Type 0) : Type 0 where
  pub id : ℕ
  pub import_hash : Text
  pub type : Text
  pub content : Content N

pub record Security : Type 0 where
  pub name : Text
  pub asset_class : AssetClass
  pub currency : Text
  pub symbol : Text

module _ (N : Type 0) where
  -- The tables, and the variables of the loop.
  pub record ImportState : Type 0 where
    pub rows : List (TransactionRow N)
    pub next_id : ℕ
    pub securities : List (Text × Security)
    pub seen_securities : List Text
    pub claimed : List ℕ
    pub imported : ℕ
    pub skipped : ℕ
    pub adopted : ℕ
    pub new_securities : List Text

-- The candidates are pairs of an identifier and a hash.
unfoldable pub pick_adoptable : List (ℕ × Text) → List Text → List ℕ → Option ℕ
pick_adoptable [] batch_hashes claimed = none
pick_adoptable ((id, hash) ∷ candidates) batch_hashes claimed =
    let rest = pick_adoptable candidates batch_hashes claimed in
    if contains batch_hashes hash || contains claimed id then rest else some id

module _ {N : Type 0} where
  -- Whether `GetTransactionIDByHash` finds a row.
  unfoldable pub has_hash : Text → List (TransactionRow N) → Bool
  has_hash hash [] = false
  has_hash hash (r ∷ rs) = (r.import_hash == hash) || has_hash hash rs

  -- `ON CONFLICT (import_hash) DO UPDATE SET type = EXCLUDED.type`
  unfoldable pub set_type : Text → Text → List (TransactionRow N) → List (TransactionRow N)
  set_type hash type [] = []
  set_type hash type (r ∷ rs) =
      (if r.import_hash == hash then record r { type = type } else r) ∷ set_type hash type rs

  -- `UpdateTransactionImportHash`
  unfoldable pub update_hash : ℕ → Text → List (TransactionRow N) → List (TransactionRow N)
  update_hash id hash [] = []
  update_hash id hash (r ∷ rs) =
      (if r.id == id then record r { import_hash = hash } else r) ∷ update_hash id hash rs

  -- The row of an earlier importer gets the hash of this one.
  abbrev pub adopt_row : ℕ → Incoming N → ImportState N → ImportState N
  adopt_row id t s = record s {
    rows = update_hash id t.import_hash s.rows;
    claimed = id ∷ s.claimed;
    adopted = s.adopted + 1;
    skipped = s.skipped + 1;
  }

  abbrev pub skip_row : Incoming N → ImportState N → ImportState N
  skip_row t s = record s { rows = set_type t.import_hash t.type s.rows; skipped = s.skipped + 1 }

module _ {N : Type 0} where
  abbrev pub hash_of : Incoming N → Text
  hash_of t = t.import_hash

  -- The tables of `s`, and the variables as they start.
  abbrev pub start_import : ImportState N → ImportState N
  start_import s = record s {
    seen_securities = [];
    claimed = [];
    imported = 0;
    skipped = 0;
    adopted = 0;
    new_securities = [];
  }

module _ {N : Type 0} (ticker_map : List (Text × Text)) where
  -- The security of a row, which is made on its first appearance if it is unknown.
  unfoldable pub create_security : Incoming N → ImportState N → ImportState N
  create_security t s =
      let isin = t.content.security_isin in
      let name = if is_empty t.counterparty then isin else t.counterparty in
      let seen = record s { seen_securities = isin ∷ s.seen_securities } in
      if is_empty isin || contains s.seen_securities isin
      then s
      else elim (lookup isin s.securities) [
        | some _ ↦ seen
        | none ↦ record seen {
          securities =
              insert isin
                (record {
                  name = name;
                  asset_class = classify_asset isin name;
                  currency = t.content.currency;
                  symbol = get_or isin [] ticker_map;
                })
                s.securities;
          new_securities = s.new_securities ++ isin ∷ [];
        }
      ]

module _ {N : Type 0} ⦃numeric : Numeric N⦄ where
  -- The `WHERE` of `ListSimilarTransactions`. An empty ISIN is stored as NULL, and the quantity of
  -- an incoming row is never NULL.
  unfoldable pub is_similar : Incoming N → TransactionRow N → Bool
  is_similar t r =
      let a = t.content in
      let b = r.content in
      (b.account_id == a.account_id)
      && (b.date == a.date)
      && (r.type == t.type)
      && (b.security_isin == a.security_isin)
      && numeric.same_value b.quantity (numeric.round_to a.quantity 8)
      && numeric.same_value b.amount (numeric.round_to a.amount 4)
      && numeric.same_value b.fee (numeric.round_to a.fee 4)
      && numeric.same_value b.tax (numeric.round_to a.tax 4)
      && (b.currency == a.currency)

  unfoldable pub list_similar : Incoming N → List (TransactionRow N) → List (ℕ × Text)
  list_similar t [] = []
  list_similar t (r ∷ rs) =
      let rest = list_similar t rs in if is_similar t r then (r.id, r.import_hash) ∷ rest else rest

  -- The scales of the columns.
  unfoldable pub stored_content : Content N → Content N
  stored_content c = record c {
    quantity = numeric.round_to c.quantity 8;
    amount = numeric.round_to c.amount 4;
    fee = numeric.round_to c.fee 4;
    tax = numeric.round_to c.tax 4;
  }

  -- `InsertTransaction` for a hash that no row has
  abbrev pub add_row : Incoming N → ImportState N → ImportState N
  add_row t s = record s {
    rows =
        record {
          id = s.next_id;
          import_hash = t.import_hash;
          type = t.type;
          content = stored_content t.content;
        }
        ∷ s.rows;
    next_id = s.next_id + 1;
    imported = s.imported + 1;
  }

  -- The rest of a round, behind the security.
  unfoldable pub insert_transaction : List Text → Incoming N → ImportState N → ImportState N
  unfolding list_similar
  insert_transaction batch_hashes t s =
      if has_hash t.import_hash s.rows
      then skip_row t s
      else elim (pick_adoptable (list_similar t s.rows) batch_hashes s.claimed) [
        | none ↦ add_row t s
        | some id ↦ adopt_row id t s
      ]

  module _ (ticker_map : List (Text × Text)) where
    unfoldable pub insert_rows : List Text → List (Incoming N) → ImportState N → ImportState N
    unfolding insert_transaction create_security
    insert_rows batch_hashes [] s = s
    insert_rows batch_hashes (t ∷ ts) s =
        insert_rows batch_hashes ts
          (insert_transaction batch_hashes t (create_security ticker_map t s))

    unfoldable pub insert_transactions : List (Incoming N) → ImportState N → ImportState N
    unfolding insert_rows
    insert_transactions txns s = insert_rows (map hash_of txns) txns (start_import s)
