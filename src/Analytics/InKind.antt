-- ===== src/Analytics/InKind.antt =====
-- internal/analytics/inkind.go: rows of moves in kind between the user's own accounts are found in
-- pairs. An identifier is a number, a date a number of nanoseconds.
pub mod Closest
pub mod Pairs
use wealth.Prelude.{
  Bool, List, Option, Text, [], contains, false, get_or, if◌then◌else◌, insert, is_empty, leb, ltb,
  none, not, some, true, ℕ, ◌&&◌, ◌*◌, ◌++◌, ◌+◌, ◌-◌, ◌^◌, ◌||◌, ◌∷◌, text_eq, nat_eq,
}
use wealth.Prelude.Float.{Float64, magnitude, ◌<?◌, ◌⊖◌}
use wealth.Transaction.{TxType}

pub record InKindTransfer (F : Type 0) : Type 0 where
  pub id : ℕ
  pub date : ℕ
  pub type : TxType
  pub isin : Text
  pub quantity : F

abbrev pub day : ℕ
day = 24 * 3600 * 10 ^ 9

abbrev pub date_window : ℕ
date_window = 5 * day

-- `time.Duration(math.MaxInt64)`
abbrev pub max_duration : ℕ
max_duration = 2 ^ 63 - 1

-- A `Duration` that was negated if it was negative: the least one stays negative, since its negation
-- wraps around.
pub data Gap : Type 0 where
  wrapped : Gap
  span : ℕ → Gap

-- `gap > dateWindow`
abbrev pub exceeds_window : Gap → Bool
exceeds_window wrapped = false
exceeds_window (span n) = ltb date_window n

-- `gap < bestGap`
abbrev pub is_less : Gap → Gap → Bool
is_less _ wrapped = false
is_less wrapped (span n) = true
is_less (span m) (span n) = ltb m n

abbrev pub is_transfer : TxType → Bool
is_transfer TxType.transfer = true
is_transfer _ = false

abbrev pub is_transfer_out : TxType → Bool
is_transfer_out TxType.transfer_out = true
is_transfer_out _ = false

module _ {F : Type 0} where
  -- `in.Date.Sub(out.Date)`, which stops at the least and the largest `Duration`, and is negated
  -- if it is negative.
  unfoldable pub gap : InKindTransfer F → InKindTransfer F → Gap
  gap out incoming =
      if ltb incoming.date out.date
      then (if leb (2 ^ 63) (out.date - incoming.date)
          then wrapped
          else span (out.date - incoming.date))
      else if ltb max_duration (incoming.date - out.date)
      then span max_duration
      else span (incoming.date - out.date)

  -- `group[i].Date.Before(group[j].Date)`, sorted stably by insertion from the back
  unfoldable pub place : InKindTransfer F → List (InKindTransfer F) → List (InKindTransfer F)
  place t [] = t ∷ []
  place t (u ∷ us) = if ltb u.date t.date then u ∷ place t us else t ∷ u ∷ us

  unfoldable pub by_date : List (InKindTransfer F) → List (InKindTransfer F)
  unfolding place
  by_date [] = []
  by_date (t ∷ ts) = place t (by_date ts)

  -- The rows in kind, in one list for each ISIN.
  unfoldable pub by_isin :
      List (InKindTransfer F)
      → List (Text × List (InKindTransfer F))
      → List (Text × List (InKindTransfer F))
  by_isin [] groups = groups
  by_isin (t ∷ ts) groups = by_isin ts (
      if is_empty t.isin
      then groups
      else if not (is_transfer t.type) && not (is_transfer_out t.type)
      then groups
      else insert t.isin (get_or t.isin [] groups ++ t ∷ []) groups)

module _ {F : Type 0} ⦃f : Float64 F⦄ where
  abbrev pub quantity_tolerance : F
  quantity_tolerance = f.literal 1 4

  -- The tests of the inner loop. Its test `i == j` is implied: the row at `i` is no `transfer`.
  unfoldable pub is_candidate : List ℕ → InKindTransfer F → InKindTransfer F → Bool
  unfolding gap
  is_candidate used out incoming =
      not (contains used incoming.id)
      && is_transfer incoming.type
      && not (quantity_tolerance <? magnitude (incoming.quantity ⊖ out.quantity))
      && not (exceeds_window (gap out incoming))

  -- The inner loop: the first of the closest candidates.
  unfoldable pub pick :
      List ℕ
      → InKindTransfer F
      → Option (InKindTransfer F)
      → Gap
      → List (InKindTransfer F)
      → Option (InKindTransfer F)
  pick used out best best_gap [] = best
  pick used out best best_gap (incoming ∷ rest) =
      let closer = is_candidate used out incoming && is_less (gap out incoming) best_gap in
      pick used out (if closer then some incoming else best)
        (if closer then gap out incoming else best_gap) rest

  -- The outer loop over what is left of the sorted group. `used` and the part of `excluded` that
  -- the group adds are one list.
  unfoldable pub match_rows : List (InKindTransfer F) → List ℕ → List (InKindTransfer F) → List ℕ
  unfolding pick
  match_rows group used [] = used
  match_rows group used (out ∷ rest) =
      match_rows group
        (if not (is_transfer_out out.type) || contains used out.id
          then used
          else elim (pick used out none (span max_duration) group) [
            | none ↦ used
            | some incoming ↦ out.id ∷ incoming.id ∷ used
          ])
        rest

  unfoldable pub match_group : List (InKindTransfer F) → List ℕ
  unfolding match_rows by_date
  match_group rows = let group = by_date rows in match_rows group [] group

  unfoldable pub match_groups : List (Text × List (InKindTransfer F)) → List ℕ
  unfolding match_group
  match_groups [] = []
  match_groups ((isin, rows) ∷ groups) = match_group rows ++ match_groups groups

  unfoldable pub match_in_kind_transfer_pairs : List (InKindTransfer F) → List ℕ
  unfolding match_groups by_isin
  match_in_kind_transfer_pairs txns = match_groups (by_isin txns [])
