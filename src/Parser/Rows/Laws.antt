-- ===== src/Parser/Rows/Laws.antt =====
-- What the loop over the rows keeps.
use wealth.Prelude.{All, Bool-cases, List, [], inl, inr, ℕ, ◌+◌, ◌∷◌, text_eq, nat_eq}
use wealth.Parser.Fields.{Record, is_blank}
use wealth.Parser.Rows.{
  Parsed, Row, Transaction, bad, failed, parse_rows, parsed, row, skip, with_row,
}

module _ {F D : Type 0} where
  -- What a row gives, if it gives anything, has the property.
  abbrev pub RowHas : (Transaction F D → Type 0) → Row F D → Type 0
  RowHas P skip = Unit
  RowHas P (bad e) = Unit
  RowHas P (row t) = P t

  -- So do all transactions of a file that is read.
  abbrev pub ParsedHave : (Transaction F D → Type 0) → Parsed (List (Transaction F D)) → Type 0
  ParsedHave P (failed e) = Unit
  ParsedHave P (parsed ts) = All P ts

  with_row-ParsedHave :
      (P : Transaction F D → Type 0) (r : Row F D) (rest : Parsed (List (Transaction F D)))
      → RowHas P r
      → ParsedHave P rest
      → ParsedHave P (with_row r rest)
  unfolding with_row
  with_row-ParsedHave P skip rest h hs = hs
  with_row-ParsedHave P (bad e) rest h hs = tt
  with_row-ParsedHave P (row t) (failed e) h hs = tt
  with_row-ParsedHave P (row t) (parsed ts) h hs = (h, hs)

  pub parse_rows-ParsedHave :
      (P : Transaction F D → Type 0) (parse_row : ℕ → Record → Row F D)
      → ((n : ℕ) (r : Record) → RowHas P (parse_row n r))
      → (n : ℕ) (rs : List Record) → ParsedHave P (parse_rows parse_row n rs)
  unfolding parse_rows
  parse_rows-ParsedHave P parse_row h n [] = tt
  parse_rows-ParsedHave P parse_row h n (r ∷ rs) =
      let rest = parse_rows-ParsedHave P parse_row h (n + 1) rs in
      elim (Bool-cases (is_blank r)) [
        | inl e ↦ rw e (with_row-ParsedHave P skip _ tt rest)
        | inr d ↦ rw d (with_row-ParsedHave P (parse_row n r) _ (h n r) rest)
      ]
