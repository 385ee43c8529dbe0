-- ===== src/Examples/Csv.antt =====
-- A reader of unquoted CSV, as a stand-in for Go's `encoding/csv`.
use mathlib.Core.List.{append-nil, append_assoc}
use wealth.Prelude.{
  All, ap, List, Text, [], arith, contains, false, if◌then◌else◌, is_empty, refl, some, ℕ, ◌++◌,
  ◌==◌, ◌∷◌, ◌≡◌, nat_eq,
}
use wealth.Parser.Fields.{Record}
use wealth.Parser.Csv.{Csv, IsCsv, IsPlain, IsPlainRow, line_of, lines_of}

-- The line that a field and the fields behind it start, before other lines. An empty line is none.
abbrev close : Text → Record → List Record → List Record
close s [] rows = if is_empty s then rows else (s ∷ []) ∷ rows
close s (t ∷ fields) rows = (s ∷ t ∷ fields) ∷ rows

-- The first field of a text, the other fields of its first line, and the other lines.
unfoldable pub split : ℕ → Text → Text × Record × List Record
split d [] = ([], [], [])
split d (c ∷ text) =
    let (s, fields, rows) = split d text in
    if c == b'\n'
    then ([], [], close s fields rows)
    else if c == d
    then ([], s ∷ fields, rows)
    else (c ∷ s, fields, rows)

abbrev records : ℕ → Text → List Record
records d text = let (s, fields, rows) = split d text in close s fields rows

abbrev pub splitter : Csv
splitter = record { read_all = λ d text. some (records d text) }

split-field :
    (s rest : Text)
    → contains s b';' ≡ false
    → contains s b'\n' ≡ false
    → split b';' (s ++ rest) ≡ (s ++ (split b';' rest).0, (split b';' rest).1, (split b';' rest).2)
unfolding split
split-field [] rest h k = refl
split-field (c ∷ s) rest h k = ground (arith, split-field s rest)

split-newline : (rest : Text) → split b';' (b'\n' ∷ rest) ≡ ([], [], records b';' rest)
unfolding split
split-newline rest = refl

split-semicolon :
    (rest : Text)
    → split b';' (b';' ∷ rest)
      ≡ ([], (split b';' rest).0 ∷ (split b';' rest).1, (split b';' rest).2)
unfolding split
split-semicolon rest = refl

split-line :
    (s : Text) (fields : Record) (rest : Text)
    → All (IsPlain b';') (s ∷ fields)
    → split b';' (line_of b';' (s ∷ fields) ++ rest) ≡ (s, fields, records b';' rest)
unfolding line_of
split-line s [] rest ((h, q, k, r, t), _) =
    rw
      (
        append_assoc s (b'\n' ∷ []) rest,
        split-field s (b'\n' ∷ rest) h k,
        split-newline rest,
        append-nil s,
      )
      refl
split-line s (u ∷ fields) rest ((h, q, k, r, t), hs) =
    let line = line_of b';' (u ∷ fields) in
    rw
      (
        append_assoc s (b';' ∷ line) rest,
        split-field s (b';' ∷ line ++ rest) h k,
        split-semicolon (line ++ rest),
        split-line u fields rest hs,
        append-nil s,
      )
      refl

records-lines :
    (rows : List Record) → All (IsPlainRow b';') rows → records b';' (lines_of b';' rows) ≡ rows
unfolding lines_of split
records-lines [] h = refl
records-lines ([] ∷ rows) ((p, two), hs) = absurd (omega arith)
records-lines ((s ∷ []) ∷ rows) ((p, two), hs) = absurd (omega arith)
records-lines ((s ∷ t ∷ fields) ∷ rows) ((p, two), hs) =
    rw (split-line s (t ∷ fields) (lines_of b';' rows) p, records-lines rows hs) refl

pub splitter-IsCsv : IsCsv splitter
splitter-IsCsv = record { read_plain = λ rows h. ap some (records-lines rows h) }
