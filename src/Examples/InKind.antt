-- ===== src/Examples/InKind.antt =====
-- internal/analytics/inkind.go
use wealth.Prelude.{
  List, [], get_or, insert, lit, none, refl, same, ℕ, ◌*◌, ◌∷◌, ◌≡◌, text_eq, nat_eq,
}
use wealth.Prelude.Float.Fixed.{Fixed, fixed_float}
use wealth.Transaction.{TxType}
use wealth.Analytics.InKind.{
  InKindTransfer, day, is_candidate, match_in_kind_transfer_pairs, max_duration, pick, span,
}
use wealth.Analytics.InKind.Closest.{IsBest, pick_closest}
use wealth.Analytics.InKind.Pairs.{IsExcluded, match_in_kind_transfer_pairs-IsExcluded}

abbrev move : ℕ → ℕ → TxType → ℕ → InKindTransfer Fixed
move id days type quantity = record {
  id = id;
  date = days * day;
  type = type;
  isin = lit "IE00B4L5Y983";
  quantity = fixed_float.literal quantity 0;
}

-- The row 3 is nearer to the row 1 than the row 2 is; the row 4 is too far away.
abbrev moves : List (InKindTransfer Fixed)
moves =
    move 1 100 TxType.transfer_out 10
    ∷ move 2 97 TxType.transfer 10
    ∷ move 3 101 TxType.transfer 10
    ∷ move 4 120 TxType.transfer 10
    ∷ []

excluded : match_in_kind_transfer_pairs moves ≡ 1 ∷ 3 ∷ []
unfolding match_in_kind_transfer_pairs is_candidate get_or insert same
excluded = refl

-- A row of three hundred years before is taken for the closest.
ancient :
    match_in_kind_transfer_pairs (
      move 5 110000 TxType.transfer_out 10
      ∷ move 6 110000 TxType.transfer 10
      ∷ move 7 1 TxType.transfer 10
      ∷ [])
    ≡ 5 ∷ 7 ∷ []
unfolding match_in_kind_transfer_pairs is_candidate get_or insert same
ancient = refl

pick_closest_example :
    IsBest []
      (move 1 100 TxType.transfer_out 10)
      moves
      (pick [] (move 1 100 TxType.transfer_out 10) none (span max_duration) moves)
pick_closest_example = pick_closest [] (move 1 100 TxType.transfer_out 10) moves

match_in_kind_transfer_pairs-IsExcluded_example :
    IsExcluded moves (match_in_kind_transfer_pairs moves)
match_in_kind_transfer_pairs-IsExcluded_example = match_in_kind_transfer_pairs-IsExcluded moves
