-- ===== src/Examples/Portfolio.antt =====
-- internal/handler/portfolio.go
use wealth.Prelude.{List, [], get_or, lit, map, none, refl, same, some, ℕ, ◌*◌, ◌∷◌, ◌≡◌}
use wealth.Prelude.Float.Fixed.{Fixed, fixed_float}
use wealth.Handler.Portfolio.{
  BenchmarkPrice, benchmark_return_at, compute_correlation, holding_value_from_map, switch_tax_cost,
}

abbrev euro : ℕ → Fixed
euro n = fixed_float.literal n 0

-- The share of 30 % and the rest of the allowance come off before the tax of 26.375 %.
taxed :
    switch_tax_cost (euro 10000) (fixed_float.literal 3 1) (euro 1000) ≡ fixed_float.literal 15825 1
unfolding switch_tax_cost
taxed = refl

abbrev quotes : List (BenchmarkPrice Fixed)
quotes =
    record { date = 10 * 86400; price = euro 100 }
    ∷ record { date = 40 * 86400; price = euro 110 }
    ∷ record { date = 50 * 86400; price = euro 120 }
    ∷ []

gained : benchmark_return_at quotes (12 * 86400) (60 * 86400) ≡ some (euro 20)
unfolding benchmark_return_at
gained = refl

-- No price within 45 days of the last date.
too_late : benchmark_return_at quotes (12 * 86400) (96 * 86400) ≡ none
unfolding benchmark_return_at
too_late = refl

-- Two returns that move alike correlate fully; the root of 36 is known.
alike :
    compute_correlation (λ _. euro 6) (map euro (1 ∷ 2 ∷ 3 ∷ [])) (map euro (2 ∷ 3 ∷ 4 ∷ []))
    ≡ euro 1
unfolding compute_correlation
alike = refl

-- A holding without a quote is worth its cost basis.
at_cost :
    holding_value_from_map
      (record {
        security_isin = lit "US0378331005";
        quantity = some (euro 3);
        avg_cost_basis = some (euro 7);
      })
      ((lit "US0378331005", none) ∷ [])
    ≡ euro 21
unfolding holding_value_from_map get_or same
at_cost = refl
