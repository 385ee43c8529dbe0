-- ===== src/Handler/Import/Again.antt =====
-- After an import every hash of the file is in the table, so that a second import adds nothing.
use wealth.Prelude.{
  All, Bool-cases, List, Option-cases, Text, [], ap, arith, contains, inl, inr, length, map, refl,
  same_refl, sym, true, ◌+◌, ◌∙◌, ◌∷◌, ◌≡◌, text_eq, nat_eq,
}
use wealth.Handler.Import.{
  ImportState, Incoming, Numeric, TransactionRow, create_security, has_hash, hash_of, insert_rows,
  insert_transaction, insert_transactions, list_similar, pick_adoptable, set_type, skip_row,
  start_import,
}
use wealth.Handler.Import.Securities.{create_security-IsUntouched}
use wealth.Handler.Import.Hashes.{
  AreIds, AreIds-new, adopted_id-IsFree, adopted_id-contains, has_hash-set_type,
  has_hash-update_hash, has_hash-update_hash-own, ids, ids-set_type, ids-update_hash,
}

module _ {N : Type 0} where
  abbrev pub hashes : List (TransactionRow N) → List Text
  hashes [] = []
  hashes (r ∷ rs) = r.import_hash ∷ hashes rs

  hashes-set_type :
      (hash type : Text) (rows : List (TransactionRow N))
      → hashes (set_type hash type rows) ≡ hashes rows
  unfolding set_type
  hashes-set_type hash type [] = refl
  hashes-set_type hash type (r ∷ rs) = ground (arith, hashes-set_type hash type rs)

  known-set_type :
      (hash type : Text) (rows : List (TransactionRow N)) (txns : List (Incoming N))
      → All (λ t. has_hash t.import_hash rows ≡ true) txns
      → All (λ t. has_hash t.import_hash (set_type hash type rows) ≡ true) txns
  known-set_type hash type rows [] known = tt
  known-set_type hash type rows (t ∷ ts) (k, ks) =
      (has_hash-set_type t.import_hash hash type rows ∙ k, known-set_type hash type rows ts ks)

module _ {N : Type 0} ⦃numeric : Numeric N⦄ (ticker_map : List (Text × Text))
    (batch : List Text) where
  abbrev IsSound : ImportState N → Type 0
  IsSound s = AreIds s.next_id (ids s.rows)

  create_security-IsSound :
      (t : Incoming N) (s : ImportState N) → IsSound s → IsSound (create_security ticker_map t s)
  create_security-IsSound t s h =
      let same_state = create_security-IsUntouched ticker_map t s in
      rw (same_state.rows, same_state.next_id) h

  insert_transaction-IsSound :
      (t : Incoming N) (s : ImportState N) → IsSound s → IsSound (insert_transaction batch t s)
  unfolding insert_transaction
  insert_transaction-IsSound t s h = elim (Bool-cases (has_hash t.import_hash s.rows)) [
    | inl e ↦ rw (e, ids-set_type t.import_hash t.type s.rows) h
    | inr n ↦ elim (Option-cases (pick_adoptable (list_similar t s.rows) batch s.claimed)) [
      | inl e ↦ rw (n, e) (AreIds-new s.next_id (ids s.rows) h)
      | inr (id, e) ↦ rw (n, e, ids-update_hash id t.import_hash s.rows) h
    ]
  ]

  -- A hash of the batch stays in the table.
  insert_transaction-keeps :
      (t : Incoming N) (s : ImportState N) (h : Text)
      → IsSound s
      → contains batch h ≡ true
      → has_hash h s.rows ≡ true
      → has_hash h (insert_transaction batch t s).rows ≡ true
  unfolding insert_transaction has_hash
  insert_transaction-keeps t s h sound b e = elim (Bool-cases (has_hash t.import_hash s.rows)) [
    | inl k ↦ rw (k, has_hash-set_type h t.import_hash t.type s.rows) e
    | inr n ↦ elim (Option-cases (pick_adoptable (list_similar t s.rows) batch s.claimed)) [
      | inl k ↦ rw (n, k) ground (arith, e)
      | inr (id, k) ↦
          rw (n, k)
            (has_hash-update_hash batch h id t.import_hash s.rows
              (adopted_id-IsFree t batch s.claimed s.rows s.next_id id k sound) b e)
    ]
  ]

  -- The row of a transaction is in the table afterwards.
  insert_transaction-stores :
      (t : Incoming N) (s : ImportState N)
      → has_hash t.import_hash (insert_transaction batch t s).rows ≡ true
  unfolding insert_transaction has_hash
  insert_transaction-stores t s = elim (Bool-cases (has_hash t.import_hash s.rows)) [
    | inl k ↦ rw (k, has_hash-set_type t.import_hash t.import_hash t.type s.rows) k
    | inr n ↦ elim (Option-cases (pick_adoptable (list_similar t s.rows) batch s.claimed)) [
      | inl k ↦ rw (n, k, same_refl t.import_hash) refl
      | inr (id, k) ↦
          rw (n, k)
            (has_hash-update_hash-own id t.import_hash s.rows
              (adopted_id-contains t batch s.claimed s.rows id k))
    ]
  ]

  insert_rows-keeps :
      (txns : List (Incoming N)) (s : ImportState N) (h : Text)
      → IsSound s
      → contains batch h ≡ true
      → has_hash h s.rows ≡ true
      → has_hash h (insert_rows ticker_map batch txns s).rows ≡ true
  unfolding insert_rows
  insert_rows-keeps [] s h sound b e = e
  insert_rows-keeps (t ∷ ts) s h sound b e =
      let same_state = create_security-IsUntouched ticker_map t s in
      let sound' = create_security-IsSound t s sound in
      insert_rows-keeps ts _ h (insert_transaction-IsSound t _ sound') b
        (insert_transaction-keeps t _ h sound' b (rw same_state.rows e))

  insert_rows-stores :
      (txns : List (Incoming N)) (s : ImportState N)
      → IsSound s
      → All (λ t. contains batch t.import_hash ≡ true) txns
      → All (λ t. has_hash t.import_hash (insert_rows ticker_map batch txns s).rows ≡ true) txns
  unfolding insert_rows
  insert_rows-stores [] s sound b = tt
  insert_rows-stores (t ∷ ts) s sound (b, bs) =
      let after = insert_transaction-IsSound t _ (create_security-IsSound t s sound) in
      (
        insert_rows-keeps ts _ t.import_hash after b
            (insert_transaction-stores t (create_security ticker_map t s)),
        insert_rows-stores ts _ after bs,
      )

  insert_transaction-known :
      (t : Incoming N) (s : ImportState N)
      → has_hash t.import_hash s.rows ≡ true
      → insert_transaction batch t s ≡ skip_row t s
  unfolding insert_transaction
  insert_transaction-known t s k = rw k refl

  -- Rows whose hashes are all known change no hash and are skipped.
  insert_rows-known :
      (txns : List (Incoming N)) (s : ImportState N)
      → All (λ t. has_hash t.import_hash s.rows ≡ true) txns
      → let after = insert_rows ticker_map batch txns s in
        (after.imported ≡ s.imported)
        × (after.adopted ≡ s.adopted)
        × (after.skipped ≡ s.skipped + length txns)
        × (hashes after.rows ≡ hashes s.rows)
  unfolding insert_rows
  insert_rows-known [] s known = (refl, refl, omega arith, refl)
  insert_rows-known (t ∷ ts) s (k, ks) =
      let made = create_security ticker_map t s in
      let same_state = create_security-IsUntouched ticker_map t s in
      let (a, b, c, d) =
        insert_rows-known ts (skip_row t made)
          (rw same_state.rows (known-set_type t.import_hash t.type s.rows ts ks)) in
      rw (insert_rows, insert_transaction-known t made (rw same_state.rows k))
        (
          a ∙ same_state.imported,
          b ∙ same_state.adopted,
          omega (arith, c, same_state.skipped),
          d ∙ hashes-set_type t.import_hash t.type made.rows ∙ ap hashes same_state.rows,
        )

module _ {N : Type 0} where
  All-contains-later :
      (b : Text) (bs : List Text) (txns : List (Incoming N))
      → All (λ t. contains bs t.import_hash ≡ true) txns
      → All (λ t. contains (b ∷ bs) t.import_hash ≡ true) txns
  All-contains-later b bs [] h = tt
  All-contains-later b bs (t ∷ ts) (h, hs) = (ground (arith, h), All-contains-later b bs ts hs)

  All-contains-batch :
      (txns : List (Incoming N)) → All (λ t. contains (map hash_of txns) t.import_hash ≡ true) txns
  All-contains-batch [] = tt
  All-contains-batch (t ∷ ts) = (
    ground (arith, same_refl t.import_hash),
    All-contains-later t.import_hash (map hash_of ts) ts (All-contains-batch ts),
  )

module _ {N : Type 0} ⦃numeric : Numeric N⦄ where
  -- Importing the same transactions a second time imports and adopts nothing, skips every one of
  -- them and leaves the hashes of the table as they are, whatever the table held and however often
  -- a transaction stands in the file. The table needs distinct identifiers.
  pub insert_transactions-again :
      (ticker_map : List (Text × Text)) (txns : List (Incoming N)) (s : ImportState N)
      → AreIds s.next_id (ids s.rows)
      → let once = insert_transactions ticker_map txns s in
        let twice = insert_transactions ticker_map txns once in
        (twice.imported ≡ 0)
        × (twice.adopted ≡ 0)
        × (twice.skipped ≡ length txns)
        × (hashes once.rows ≡ hashes twice.rows)
  unfolding insert_transactions
  insert_transactions-again ticker_map txns s h =
      let once = insert_transactions ticker_map txns s in
      let known =
        insert_rows-stores ticker_map (map hash_of txns) txns (start_import s) h
          (All-contains-batch txns) in
      let (a, b, c, d) =
        insert_rows-known ticker_map (map hash_of txns) txns (start_import once) known in
      (a, b, omega (arith, c), sym d)
