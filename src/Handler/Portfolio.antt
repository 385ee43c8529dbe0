-- ===== src/Handler/Portfolio.antt =====
-- Pure functions of internal/handler/portfolio.go: the tax on a switch, the correlation of returns, the
-- return of the benchmark and the value of a holding. A time is a number of seconds; `sqrt` is
-- `math.Sqrt`.
use wealth.Prelude.{
  List, Option, Text, [], get_or, if◌then◌else◌, length, ltb, none, not, some, ℕ, ◌*◌, ◌-◌, ◌==◌,
  ◌||◌, ◌∷◌, text_eq, nat_eq,
}
use wealth.Prelude.Float.{Float64, fmax, nought, ◌=?◌, ◌≤?◌, ◌⊕◌, ◌⊖◌, ◌⊗◌, ◌⊘◌}

-- `absDuration` of the difference of two times.
unfoldable pub abs_duration : ℕ → ℕ → ℕ
abs_duration t u = if ltb t u then u - t else t - u

module _ (F : Type 0) where
  pub record BenchmarkPrice : Type 0 where
    pub date : ℕ
    pub price : F

  -- The columns that `holdingValueFromMap` reads; NULL is `none`.
  pub record HeldPosition : Type 0 where
    pub security_isin : Text
    pub quantity : Option F
    pub avg_cost_basis : Option F

  -- The sums of `computeCorrelation`.
  pub record Moments : Type 0 where
    pub sum_x : F
    pub sum_y : F
    pub sum_xy : F
    pub sum_x2 : F
    pub sum_y2 : F

module _ {F : Type 0} ⦃f : Float64 F⦄ where
  unfoldable pub switch_tax_cost : F → F → F → F
  switch_tax_cost unrealized_gain teilfreistellung remaining_freibetrag =
      if unrealized_gain ≤? nought
      then nought
      else fmax nought
          ((unrealized_gain ⊗ (f.literal 1 0 ⊖ teilfreistellung)) ⊖ remaining_freibetrag)
        ⊗ f.literal 26375 5

  unfoldable pub moments_from : List (F × F) → Moments F → Moments F
  moments_from [] m = m
  moments_from ((x, y) ∷ points) m = moments_from points (record {
    sum_x = m.sum_x ⊕ x;
    sum_y = m.sum_y ⊕ y;
    sum_xy = m.sum_xy ⊕ (x ⊗ y);
    sum_x2 = m.sum_x2 ⊕ (x ⊗ x);
    sum_y2 = m.sum_y2 ⊕ (y ⊗ y);
  })

  unfoldable pub paired : List F → List F → List (F × F)
  paired [] ys = []
  paired (x ∷ xs) [] = []
  paired (x ∷ xs) (y ∷ ys) = (x, y) ∷ paired xs ys

  unfoldable pub compute_correlation : (F → F) → List F → List F → F
  unfolding moments_from paired
  compute_correlation sqrt x y =
      let n = length x in
      if not (n == length y) || (n == 0)
      then nought
      else (let start : Moments F = record {
        sum_x = nought;
        sum_y = nought;
        sum_xy = nought;
        sum_x2 = nought;
        sum_y2 = nought;
      } in
          let m = moments_from (paired x y) start in
          let nf = f.literal n 0 in
          let num = (nf ⊗ m.sum_xy) ⊖ (m.sum_x ⊗ m.sum_y) in
          let den =
            sqrt
              (((nf ⊗ m.sum_x2) ⊖ (m.sum_x ⊗ m.sum_x)) ⊗ ((nf ⊗ m.sum_y2) ⊖ (m.sum_y ⊗ m.sum_y))) in
          if den =? nought then nought else num ⊘ den)

  -- The loop of `findClosestPrice`, with the best price and its distance.
  unfoldable pub closest_from :
      ℕ → List (BenchmarkPrice F) → BenchmarkPrice F → ℕ → BenchmarkPrice F × ℕ
  unfolding abs_duration
  closest_from target [] best best_diff = (best, best_diff)
  closest_from target (p ∷ prices) best best_diff =
      let diff = abs_duration p.date target in
      let closer = ltb diff best_diff in
      closest_from target prices (if closer then p else best) (if closer then diff else best_diff)

  -- The caller has checked that there is a first price.
  unfoldable pub find_closest_price : BenchmarkPrice F → List (BenchmarkPrice F) → ℕ → F
  unfolding closest_from abs_duration
  find_closest_price first prices target =
      let (best, best_diff) = closest_from target prices first (abs_duration first.date target) in
      if ltb (45 * 24 * 3600) best_diff then nought else best.price

  unfoldable pub benchmark_return_at : List (BenchmarkPrice F) → ℕ → ℕ → Option F
  unfolding find_closest_price
  benchmark_return_at [] start_date target_date = none
  benchmark_return_at (p ∷ []) start_date target_date = none
  benchmark_return_at (p ∷ q ∷ prices) start_date target_date =
      let start_price = find_closest_price p (q ∷ prices) start_date in
      let target_price = find_closest_price p (q ∷ prices) target_date in
      if (start_price ≤? nought) || (target_price ≤? nought)
      then none
      else some (((target_price ⊖ start_price) ⊘ start_price) ⊗ f.literal 100 0)

  abbrev valued : F → Option F → F
  valued qty price = elim price [ none ↦ nought | some close ↦ qty ⊗ close ]

  -- The prices are the closes by security, NULL ones included.
  unfoldable pub holding_value_from_map : HeldPosition F → List (Text × Option F) → F
  holding_value_from_map h prices =
      let qty : F = elim h.quantity [ none ↦ nought | some q ↦ q ] in
      if qty ≤? nought then nought else elim (get_or h.security_isin none prices) [
        | some close ↦ qty ⊗ close
        | none ↦ valued qty h.avg_cost_basis
      ]
