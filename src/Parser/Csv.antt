-- ===== src/Parser/Csv.antt =====
-- What `ParseCSV` and the export share: lines of fields, and the reader of Go's `encoding/csv`, which
-- is a parameter.
use wealth.Prelude.{
  All, List, Option, Text, [], contains, false, if◌then◌else◌, length, some, trim_space, ℕ, ◌++◌,
  ◌==◌, ◌∷◌, ◌≡◌, ◌≤◌, nat_eq,
}
use wealth.Parser.Fields.{Record}

-- A line as it is printed with `%s` and a delimiter between the fields, without quotes.
unfoldable pub line_of : ℕ → Record → Text
line_of delimiter [] = b'\n' ∷ []
line_of delimiter (s ∷ []) = s ++ b'\n' ∷ []
line_of delimiter (s ∷ t ∷ fields) = s ++ delimiter ∷ line_of delimiter (t ∷ fields)

unfoldable pub lines_of : ℕ → List Record → Text
unfolding line_of
lines_of delimiter [] = []
lines_of delimiter (r ∷ rows) = line_of delimiter r ++ lines_of delimiter rows

-- `csv.Reader` with lazy quotes, leading space trimmed and any number of fields: the records of a
-- text with a delimiter, if there is no error.
pub record Csv : Type 0 where
  pub read_all : ℕ → Text → Option (List Record)

-- A field that needs no quotes: without delimiter, quote and line break, and no space around it.
abbrev pub IsPlain : ℕ → Text → Type 0
IsPlain delimiter s =
    (contains s delimiter ≡ false)
    × (contains s b'"' ≡ false)
    × (contains s b'\n' ≡ false)
    × (contains s b'\r' ≡ false)
    × (trim_space s ≡ s)

-- A line of plain fields, two of them at least: no blank line.
abbrev pub IsPlainRow : ℕ → Record → Type 0
IsPlainRow delimiter r = All (IsPlain delimiter) r × (2 ≤ length r)

-- Lines of plain fields are read as they stand, with a semicolon between the fields.
pub record IsCsv (csv : Csv) : Type 0 where
  pub read_plain :
      (rows : List Record)
      → All (IsPlainRow b';') rows
      → csv.read_all b';' (lines_of b';' rows) ≡ some rows

-- The byte order mark, which `tryDecode` takes off.
abbrev pub byte_order_mark : ℕ
byte_order_mark = 0xFEFF

unfoldable pub without_mark : Text → Text
without_mark [] = []
without_mark (c ∷ s) = if c == byte_order_mark then s else c ∷ s
