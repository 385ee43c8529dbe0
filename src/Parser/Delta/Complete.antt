-- ===== src/Parser/Delta/Complete.antt =====
-- No row of a Delta file is lost without a word.
use wealth.Prelude.{
  All, Bool, Bool-cases, List, Option, Option-cases, Text, [], arith, false, has_prefix,
  if◌then◌else◌, inl, inr, is_empty, length, lit, none, not, refl, same, some, suc, to_lower,
  to_upper, true, ℕ, ◌&&◌, ◌+◌, ◌||◌, ◌∷◌, ◌≡◌, ◌⊎◌, text_eq, nat_eq,
}
use wealth.Prelude.Float.{Float64}
use wealth.Parser.Fields.{
  Dates, Decimals, Record, find_column, get_field, header_index, is_blank, is_missing,
  parse_standard_decimal,
}
use wealth.Parser.Rows.{Parsed, Transaction, failed, parsed}
use wealth.Parser.Delta.{
  DeltaRow, Warning, blank, delta_asset, delta_row, delta_rows, delta_synthetic_isin, delta_taken,
  delta_way, parse_delta, parse_delta_date_time, push_answer, quote_value, split_delta_symbol,
  taken, warned,
}

-- The rows that are no blank lines.
abbrev pub filled_rows : List Record → ℕ
filled_rows [] = 0
filled_rows (r ∷ rs) = if is_blank r then filled_rows rs else suc (filled_rows rs)

-- The types that a Delta row can have.
abbrev pub IsDeltaType : Text → Type 0
IsDeltaType type =
    (type ≡ lit "buy") ⊎ (type ≡ lit "sell") ⊎ (type ≡ lit "transfer") ⊎ (type ≡ lit "transfer_out")

module _ {F : Type 0} ⦃f : Float64 F⦄ where
  abbrev WayHas : Option (Text × F × F) → Type 0
  WayHas none = Unit
  WayHas (some (type, amount, price)) = IsDeltaType type

  delta_way-WayHas : (way : Text) (base quote' : F) → WayHas (delta_way way base quote')
  unfolding delta_way
  delta_way-WayHas way base quote' = elim (Bool-cases (same way (lit "BUY"))) [
    | inl e ↦ rw e (inl refl)
    | inr a ↦ elim (Bool-cases (same way (lit "SELL"))) [
      | inl e ↦ rw (a, e) (inr (inl refl))
      | inr b ↦ elim (Bool-cases (same way (lit "DEPOSIT"))) [
        | inl e ↦ rw (a, b, e) (inr (inr (inl refl)))
        | inr c ↦ elim (Bool-cases (same way (lit "WITHDRAW") || same way (lit "WITHDRAWAL"))) [
          | inl e ↦ rw (a, b, c, e) (inr (inr (inr refl)))
          | inr d ↦ rw (a, b, c, d) tt
        ]
      ]
    ]
  ]

module _ {F D : Type 0} where
  -- A row of a security in one of the four types, or a warning.
  abbrev pub IsAnswer : DeltaRow F D → Type 0
  IsAnswer blank = ⊥
  IsAnswer (warned w) = Unit
  IsAnswer (taken t) = IsDeltaType t.type × (is_empty t.security_isin ≡ false)

module _ {F D : Type 0} ⦃f : Float64 F⦄ ⦃decimals : Decimals F⦄ ⦃dates : Dates D⦄ where
  delta_taken-IsAnswer :
      (account_id : Text) (idx : List (Text × ℕ)) (n : ℕ) (r : Record) (date : D) (base : F)
      (name isin : Text)
      → is_empty isin ≡ false
      → IsAnswer (delta_taken account_id idx n r date base name isin)
  unfolding delta_taken
  delta_taken-IsAnswer account_id idx n r date base name isin filled =
      let way = to_upper (get_field r (find_column idx (lit "way" ∷ []))) in
      let quote' = quote_value (get_field r (find_column idx (lit "quote amount" ∷ []))) in
      elim (Option-cases (delta_way way base quote')) [
        | inl e ↦ rw (IsAnswer, e) tt
        | inr (trade, e) ↦
            let has : WayHas (some trade) = rw e at (delta_way-WayHas way base quote') in
            rw (IsAnswer, e) (has, filled)
      ]

  delta_asset-IsAnswer :
      (account_id : Text) (idx : List (Text × ℕ)) (n : ℕ) (r : Record) (date : D) (base : F)
      → IsAnswer (delta_asset account_id idx n r date base)
  unfolding delta_asset
  delta_asset-IsAnswer account_id idx n r date base =
      let field : Text → Text = λ name. get_field r (find_column idx (name ∷ [])) in
      let base_type = to_upper (field (lit "base type")) in
      let parts = split_delta_symbol (field (lit "base currency (name)")) in
      elim (Bool-cases (same base_type (lit "FIAT"))) [
        | inl e ↦ rw e tt
        | inr a ↦ elim (Bool-cases (is_empty (delta_synthetic_isin base_type parts.0))) [
          | inl e ↦ rw (a, e) tt
          | inr filled ↦
              rw (a, filled)
                (delta_taken-IsAnswer account_id idx n r date base parts.1
                  (delta_synthetic_isin base_type parts.0) filled)
        ]
      ]

module _ {F D : Type 0} where
  -- Each row that is no blank line is a transaction of a security, in one of the four types, or has
  -- a warning.
  abbrev pub IsComplete : List Record → List (Transaction F D) × List Warning → Type 0
  IsComplete rows (txns, warnings) =
      (length txns + length warnings ≡ filled_rows rows)
      × All (λ t. IsDeltaType t.type × (is_empty t.security_isin ≡ false)) txns

  IsComplete-add :
      (rs : List Record) (a : DeltaRow F D) (rest : List (Transaction F D) × List Warning)
      → IsAnswer a
      → IsComplete rs rest
      → (length (push_answer a rest).0 + length (push_answer a rest).1 ≡ suc (filled_rows rs))
        × All (λ t. IsDeltaType t.type × (is_empty t.security_isin ≡ false)) (push_answer a rest).0
  IsComplete-add rs blank rest h k = absurd h
  IsComplete-add rs (warned w) rest h (c, ts) = (omega (arith, c), ts)
  IsComplete-add rs (taken t) rest h (c, ts) = (omega (arith, c), (h, ts))

module _ (F : Type 0) {D : Type 0} ⦃f : Float64 F⦄ ⦃decimals : Decimals F⦄ ⦃dates : Dates D⦄ where
  delta_row-IsAnswer :
      (truncate : D → D) (account_id : Text) (idx : List (Text × ℕ)) (n : ℕ) (r : Record)
      → is_blank r ≡ false
      → IsAnswer {F = F} (delta_row truncate account_id idx n r)
  unfolding delta_row
  delta_row-IsAnswer truncate account_id idx n r filled =
      let field : Text → Text = λ name. get_field r (find_column idx (name ∷ [])) in
      let sync_col = find_column idx (lit "sync base holding" ∷ []) in
      rw filled (elim (Bool-cases (has_prefix (field (lit "notes")) (lit "SYNC-BASE-HOLDINGS"))) [
        | inl e ↦ rw e tt
        | inr a ↦
            elim (Bool-cases
              (not (is_missing sync_col) && same (to_lower (get_field r sync_col)) (lit "false"))) [
                | inl e ↦ rw (a, e) tt
                | inr b ↦
                    elim (Option-cases (parse_delta_date_time truncate (field (lit "date")))) [
                      | inl e ↦ rw (a, b, e) tt
                      | inr (date, c) ↦
                          elim (Option-cases
                            (parse_standard_decimal {F = F} (field (lit "base amount")))) [
                              | inl e ↦ rw (a, b, c, e) tt
                              | inr (base, e) ↦
                                  rw (a, b, c, e)
                                    (delta_asset-IsAnswer account_id idx n r date base)
                            ]
                    ]
              ]
      ])

  delta_row-blank :
      (truncate : D → D) (account_id : Text) (idx : List (Text × ℕ)) (n : ℕ) (r : Record)
      → is_blank r ≡ true
      → delta_row {F = F} truncate account_id idx n r ≡ blank
  unfolding delta_row
  delta_row-blank truncate account_id idx n r e = rw e refl

  delta_rows-IsComplete :
      (truncate : D → D) (account_id : Text) (idx : List (Text × ℕ)) (n : ℕ) (rs : List Record)
      → IsComplete {F = F} rs (delta_rows truncate account_id idx n rs)
  unfolding delta_rows
  delta_rows-IsComplete truncate account_id idx n [] = (refl, tt)
  delta_rows-IsComplete truncate account_id idx n (r ∷ rs) =
      let rest = delta_rows-IsComplete truncate account_id idx (n + 1) rs in
      elim (Bool-cases (is_blank r)) [
        | inl e ↦ rw (delta_row-blank truncate account_id idx n r e, e) rest
        | inr filled ↦ rw filled (
            IsComplete-add rs (delta_row truncate account_id idx n r)
              (delta_rows truncate account_id idx (n + 1) rs)
              (delta_row-IsAnswer truncate account_id idx n r filled) rest)
      ]

  abbrev pub ParsedComplete : List Record → Parsed (List (Transaction F D) × List Warning) → Type 0
  ParsedComplete records (failed e) = Unit
  ParsedComplete [] (parsed result) = ⊥
  ParsedComplete (header ∷ rows) (parsed result) = IsComplete rows result

  -- A Delta file that is read loses no row without a word: there are as many transactions and
  -- warnings as rows behind the header that are no blank lines. Each transaction has a security and
  -- is a purchase, a sale or a transfer in or out.
  pub parse_delta-ParsedComplete :
      (truncate : D → D) (account_id : Text) (records : List Record)
      → ParsedComplete records (parse_delta truncate account_id records)
  unfolding parse_delta
  parse_delta-ParsedComplete truncate account_id [] = tt
  parse_delta-ParsedComplete truncate account_id (header ∷ []) = tt
  parse_delta-ParsedComplete truncate account_id (header ∷ first ∷ rows) =
      let idx = header_index header in
      let absent : Text → Bool = λ name. is_missing (find_column idx (name ∷ [])) in
      elim (Bool-cases (
        absent (lit "date")
        || absent (lit "way")
        || absent (lit "base amount")
        || absent (lit "base currency (name)"))) [
          | inl e ↦ rw e tt
          | inr n ↦ rw n (delta_rows-IsComplete truncate account_id idx 2 (first ∷ rows))
        ]
