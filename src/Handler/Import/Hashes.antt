-- ===== src/Handler/Import/Hashes.antt =====
-- Hashes in the table: a row that another transaction of the batch stands for keeps its hash.
use wealth.Prelude.{
  ==_iff, All, Bool-cases, List, Option, Text, [], ap, arith, contains, false, inl, inr, refl,
  same_refl, some, true, value_or, ℕ, ◌+◌, ◌<◌, ◌==◌, ◌||◌, ◌∷◌, ◌≡◌, ◌≢◌, ◌⊎◌, text_eq, nat_eq,
}
use wealth.Handler.Import.{
  Incoming, Numeric, TransactionRow, has_hash, is_similar, list_similar, pick_adoptable, set_type,
  update_hash,
}

-- The identifiers of a table differ, and the next one is new.
abbrev pub AreIds : ℕ → List ℕ → Type 0
AreIds next [] = Unit
AreIds next (i ∷ is) = (i < next) × All (λ j. j ≢ i) is × AreIds next is

AreIds-All : (next : ℕ) (ids : List ℕ) → AreIds next ids → All (λ j. j ≢ next) ids
AreIds-All next [] h = tt
AreIds-All next (i ∷ is) (lt, _, h) = ((λ e. omega arith), AreIds-All next is h)

AreIds-add : (next : ℕ) (ids : List ℕ) → AreIds next ids → AreIds (next + 1) ids
AreIds-add next [] h = tt
AreIds-add next (i ∷ is) (lt, d, h) = (omega arith, d, AreIds-add next is h)

pub AreIds-new : (next : ℕ) (ids : List ℕ) → AreIds next ids → AreIds (next + 1) (next ∷ ids)
AreIds-new next ids h = (omega arith, AreIds-All next ids h, AreIds-add next ids h)

All-contains : (i : ℕ) (js : List ℕ) (j : ℕ) → All (λ k. k ≢ i) js → contains js j ≡ true → i ≢ j
All-contains i [] j h c = ground arith
All-contains i (k ∷ ks) j (h, hs) c = ground (arith, All-contains i ks j hs)

not_in_batch :
    (batch : List Text) (g h : Text)
    → contains batch g ≡ false
    → contains batch h ≡ true
    → (g == h) ≡ false
not_in_batch batch g h n b = elim (Bool-cases (g == h)) [
  | inl e ↦ ground (arith, ap (contains batch) ((==_iff g h).0 e))
  | inr d ↦ d
]

module _ {N : Type 0} where
  abbrev pub ids : List (TransactionRow N) → List ℕ
  ids [] = []
  ids (r ∷ rs) = r.id ∷ ids rs

  pub ids-set_type :
      (hash type : Text) (rows : List (TransactionRow N)) → ids (set_type hash type rows) ≡ ids rows
  unfolding set_type
  ids-set_type hash type [] = refl
  ids-set_type hash type (r ∷ rs) = ground (arith, ids-set_type hash type rs)

  pub ids-update_hash :
      (id : ℕ) (hash : Text) (rows : List (TransactionRow N))
      → ids (update_hash id hash rows) ≡ ids rows
  unfolding update_hash
  ids-update_hash id hash [] = refl
  ids-update_hash id hash (r ∷ rs) = ground (arith, ids-update_hash id hash rs)

  pub has_hash-set_type :
      (h hash type : Text) (rows : List (TransactionRow N))
      → has_hash h (set_type hash type rows) ≡ has_hash h rows
  unfolding has_hash set_type
  has_hash-set_type h hash type [] = refl
  has_hash-set_type h hash type (r ∷ rs) = ground (arith, has_hash-set_type h hash type rs)

  -- Of the rows with the identifier, none has a hash of the batch.
  abbrev pub IsFree : List Text → ℕ → List (TransactionRow N) → Type 0
  IsFree batch id = All (λ r. (r.id ≢ id) ⊎ (contains batch r.import_hash ≡ false))

  pub has_hash-update_hash :
      (batch : List Text) (h : Text) (id : ℕ) (hash : Text) (rows : List (TransactionRow N))
      → IsFree batch id rows
      → contains batch h ≡ true
      → has_hash h rows ≡ true
      → has_hash h (update_hash id hash rows) ≡ true
  unfolding has_hash update_hash
  has_hash-update_hash batch h id hash [] free b e = e
  has_hash-update_hash batch h id hash (r ∷ rs) (inl d, frees) b e =
      ground (arith, has_hash-update_hash batch h id hash rs frees b)
  has_hash-update_hash batch h id hash (r ∷ rs) (inr n, frees) b e = ground (
    arith,
    not_in_batch batch r.import_hash h n b,
    has_hash-update_hash batch h id hash rs frees b,
  )

  -- A row with the identifier gets the hash.
  pub has_hash-update_hash-own :
      (id : ℕ) (hash : Text) (rows : List (TransactionRow N))
      → contains (ids rows) id ≡ true
      → has_hash hash (update_hash id hash rows) ≡ true
  unfolding has_hash update_hash
  has_hash-update_hash-own id hash [] c = c
  has_hash-update_hash-own id hash (r ∷ rs) c =
      ground (arith, same_refl hash, has_hash-update_hash-own id hash rs)

module _ {N : Type 0} ⦃numeric : Numeric N⦄ (t : Incoming N) (batch : List Text)
    (claimed : List ℕ) where
  abbrev adopted_id : List (TransactionRow N) → Option ℕ
  adopted_id rows = pick_adoptable (list_similar t rows) batch claimed

  -- The adopted row is a row of the table.
  pub adopted_id-contains :
      (rows : List (TransactionRow N)) (id : ℕ)
      → adopted_id rows ≡ some id
      → contains (ids rows) id ≡ true
  unfolding list_similar pick_adoptable
  adopted_id-contains [] id e = ground arith
  adopted_id-contains (r ∷ rs) id e = ground (arith, adopted_id-contains rs id)

  All-IsFree :
      (id : ℕ) (rows : List (TransactionRow N))
      → All (λ j. j ≢ id) (ids rows)
      → IsFree batch id rows
  All-IsFree id [] h = tt
  All-IsFree id (r ∷ rs) (h, hs) = (inl h, All-IsFree id rs hs)

  -- No transaction of the batch stands for it.
  pub adopted_id-IsFree :
      (rows : List (TransactionRow N)) (next id : ℕ)
      → adopted_id rows ≡ some id
      → AreIds next (ids rows)
      → IsFree batch id rows
  unfolding list_similar pick_adoptable
  adopted_id-IsFree [] next id e a = tt
  adopted_id-IsFree (r ∷ rs) next id e (lt, d, a) =
      let later : adopted_id rs ≡ some id → IsFree batch id (r ∷ rs) = λ k. (
        inl (All-contains r.id (ids rs) id d (adopted_id-contains rs id k)),
        adopted_id-IsFree rs next id k a,
      ) in
      elim (Bool-cases (is_similar t r)) [
        | inl s ↦ elim (Bool-cases (contains batch r.import_hash || contains claimed r.id)) [
          | inl taken ↦ later (rw (s, taken) at e)
          | inr n ↦
              let own : r.id ≡ id = ap (value_or r.id) (rw (s, n) at e) in
              (inr (ground arith), All-IsFree id rs (rw own at d))
        ]
        | inr n ↦ later (rw n at e)
      ]
