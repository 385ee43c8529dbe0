-- ===== src/Parser/Fields.antt =====
-- internal/parser/german.go, and `findColumn` of sparkasse.go. A column that is missing is `none`,
-- where the code has -1.
use wealth.Prelude.{
  Bool, List, Option, Text, [], false, if◌then◌else◌, insert, is_empty, lit, lookup, map, nat_beq,
  none, some, suc, to_lower, trim_space, true, zero, ℕ, ◌+◌, ◌∷◌, text_eq, nat_eq,
}
use wealth.Prelude.Float.{Float64, nought}

-- What the parsers call of the Go library: `strconv.ParseFloat` with 64 bits, and `time.Parse` with
-- a layout. A date is an abstract type.
pub record Decimals (F : Type 0) : Type 0 where
  pub parse_float : Text → Option F

pub record Dates (D : Type 0) : Type 0 where
  pub parse_time : Text → Text → Option D

abbrev pub Record : Type 0
Record = List Text

-- `strings.ReplaceAll(s, c, "")`
unfoldable pub remove_all : ℕ → Text → Text
remove_all c [] = []
remove_all c (d ∷ s) = let rest = remove_all c s in if nat_beq d c then rest else d ∷ rest

-- `strings.Replace(s, c, d, 1)`
unfoldable pub replace_first : ℕ → ℕ → Text → Text
replace_first c d [] = []
replace_first c d (e ∷ s) =
    let rest = replace_first c d s in if nat_beq e c then d ∷ s else e ∷ rest

module _ {F : Type 0} ⦃f : Float64 F⦄ ⦃decimals : Decimals F⦄ where
  unfoldable pub parse_german_decimal : Text → Option F
  unfolding remove_all replace_first
  parse_german_decimal text =
      let s = trim_space text in
      if is_empty s
      then some nought
      else decimals.parse_float (replace_first b',' b'.' (remove_all b'.' s))

  unfoldable pub parse_standard_decimal : Text → Option F
  unfolding remove_all
  parse_standard_decimal text =
      let s = trim_space text in
      if is_empty s then some nought else decimals.parse_float (remove_all b',' s)

module _ {D : Type 0} ⦃dates : Dates D⦄ where
  unfoldable pub parse_german_date : Text → Option D
  parse_german_date s = dates.parse_time (lit "02.01.2006") (trim_space s)

  unfoldable pub parse_iso_date : Text → Option D
  parse_iso_date s = dates.parse_time (lit "2006-01-02") (trim_space s)

unfoldable pub normalize_header : Record → Record
normalize_header = map (λ h. to_lower (trim_space h))

-- The last column of a name counts.
unfoldable pub index_columns : ℕ → Record → List (Text × ℕ) → List (Text × ℕ)
index_columns i [] idx = idx
index_columns i (h ∷ hs) idx = index_columns (i + 1) hs (insert h i idx)

unfoldable pub header_index : Record → List (Text × ℕ)
unfolding index_columns normalize_header
header_index header = index_columns 0 (normalize_header header) []

unfoldable pub find_column : List (Text × ℕ) → List Text → Option ℕ
find_column idx [] = none
find_column idx (name ∷ names) =
    let rest = find_column idx names in elim (lookup name idx) [ none ↦ rest | some i ↦ some i ]

-- `col < 0`
abbrev pub is_missing : Option ℕ → Bool
is_missing none = true
is_missing (some i) = false

unfoldable pub field_at : Record → ℕ → Text
field_at [] i = []
field_at (v ∷ record') zero = trim_space v
field_at (v ∷ record') (suc i) = field_at record' i

unfoldable pub get_field : Record → Option ℕ → Text
unfolding field_at
get_field record' none = []
get_field record' (some i) = field_at record' i

-- A blank line of a file.
unfoldable pub is_blank : Record → Bool
is_blank [] = true
is_blank (v ∷ []) = is_empty v
is_blank _ = false
