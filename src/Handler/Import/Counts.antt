-- ===== src/Handler/Import/Counts.antt =====
-- What an import counts.
use wealth.Prelude.{
  Bool-cases, List, Option-cases, Text, [], arith, inl, inr, length, map, refl, ℕ, ◌+◌, ◌∙◌, ◌∷◌,
  ◌≡◌, ◌≤◌, text_eq, nat_eq,
}
use wealth.Handler.Import.Securities.{create_security-IsUntouched}
use wealth.Handler.Import.{
  ImportState, Incoming, Numeric, TransactionRow, create_security, has_hash, hash_of, insert_rows,
  insert_transaction, insert_transactions, list_similar, pick_adoptable, set_type, start_import,
  update_hash,
}

module _ {N : Type 0} ⦃numeric : Numeric N⦄ where
  set_type-length :
      (hash type : Text) (rows : List (TransactionRow N))
      → length (set_type hash type rows) ≡ length rows
  unfolding set_type
  set_type-length hash type [] = refl
  set_type-length hash type (r ∷ rs) = ground (arith, set_type-length hash type rs)

  update_hash-length :
      (id : ℕ) (hash : Text) (rows : List (TransactionRow N))
      → length (update_hash id hash rows) ≡ length rows
  unfolding update_hash
  update_hash-length id hash [] = refl
  update_hash-length id hash (r ∷ rs) = ground (arith, update_hash-length id hash rs)

  -- What every round of the loop keeps, after `seen` rows of a table that had `before`.
  abbrev pub IsCounted : ℕ → ℕ → ImportState N → Type 0
  IsCounted before seen s =
      (s.imported + s.skipped ≡ seen)
      × (s.adopted ≤ s.skipped)
      × (length s.rows ≡ before + s.imported)

  insert_transaction-IsCounted :
      (batch : List Text) (t : Incoming N) (before seen : ℕ) (s : ImportState N)
      → IsCounted before seen s
      → IsCounted before (seen + 1) (insert_transaction batch t s)
  unfolding insert_transaction
  insert_transaction-IsCounted batch t before seen s (a, b, c) =
      elim (Bool-cases (has_hash t.import_hash s.rows)) [
        | inl e ↦ rw e (omega arith, omega arith, set_type-length t.import_hash t.type s.rows ∙ c)
        | inr n ↦ elim (Option-cases (pick_adoptable (list_similar t s.rows) batch s.claimed)) [
          | inl e ↦ rw (n, e) (omega arith, omega arith, omega (arith, c))
          | inr (id, e) ↦
              rw (n, e) (omega arith, omega arith, update_hash-length id t.import_hash s.rows ∙ c)
        ]
      ]

  create_security-IsCounted :
      (ticker_map : List (Text × Text)) (t : Incoming N) (before seen : ℕ) (s : ImportState N)
      → IsCounted before seen s
      → IsCounted before seen (create_security ticker_map t s)
  create_security-IsCounted ticker_map t before seen s h =
      let same_state = create_security-IsUntouched ticker_map t s in
      rw (same_state.rows, same_state.imported, same_state.skipped, same_state.adopted) h

  insert_rows-IsCounted :
      (ticker_map : List (Text × Text)) (batch : List Text) (txns : List (Incoming N))
      (before seen : ℕ) (s : ImportState N)
      → IsCounted before seen s
      → IsCounted before (seen + length txns) (insert_rows ticker_map batch txns s)
  unfolding insert_rows
  insert_rows-IsCounted ticker_map batch [] before seen s h =
      let (a, b, c) = h in (omega (arith, a), b, c)
  insert_rows-IsCounted ticker_map batch (t ∷ ts) before seen s h =
      let next =
        insert_transaction-IsCounted batch t before seen _
          (create_security-IsCounted ticker_map t before seen s h) in
      let (a, b, c) = insert_rows-IsCounted ticker_map batch ts before (seen + 1) _ next in
      (omega (arith, a), b, c)

  -- Every transaction is either imported or skipped, an adopted row is a skipped one, and the table
  -- grows by as many rows as are imported.
  pub insert_transactions-counts :
      (ticker_map : List (Text × Text)) (txns : List (Incoming N)) (s : ImportState N)
      → let after = insert_transactions ticker_map txns s in
        (after.imported + after.skipped ≡ length txns)
        × (after.adopted ≤ after.skipped)
        × (length after.rows ≡ length s.rows + after.imported)
  unfolding insert_transactions
  insert_transactions-counts ticker_map txns s =
      let (a, b, c) =
        insert_rows-IsCounted ticker_map (map hash_of txns) txns (length s.rows) 0 (start_import s)
          (refl, omega arith, omega arith) in
      (omega (arith, a), b, c)
