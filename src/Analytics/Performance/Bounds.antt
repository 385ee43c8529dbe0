-- ===== src/Analytics/Performance/Bounds.antt =====
-- The bounds of the internal rate of return.
use wealth.Prelude.{
  Bool-cases, List, Option-cases, arith, false, inl, inr, length, ltb, some, suc, zero, ℕ, ◌≡◌,
  nat_eq,
}
use wealth.Prelude.Float.{Float64, magnitude, negate, nought, ◌<?◌, ◌⊖◌, ◌⊘◌}
use wealth.Prelude.Float.Order.{IsIeee, ◌≼◌}
use wealth.Analytics.Performance.{
  CashFlow, bisect, calculate_irr, clamp, dampen, dnpv_from, half_way, halve, highest, lowest,
  newton, newton_round, npv_from, start_of,
}

-- What the bisection takes of `float64`: within the bounds of the clamp, the half of a sum lies
-- between its parts; and how the constants lie.
pub record IsHalving (F : Type 0) ⦃f : Float64 F⦄ : Type 0 where
  pub between :
      (lo hi : F)
      → lowest ≼ lo
      → lo ≼ hi
      → hi ≼ highest
      → (lo ≼ half_way (lo, hi)) × (half_way (lo, hi) ≼ hi)
  pub low : lowest ≼ negate (f.literal 5 1)
  pub centre : negate (f.literal 5 1) ≼ f.literal 2 0
  pub high : f.literal 2 0 ≼ highest
  pub under : lowest ≼ nought {F = F}
  pub over : nought {F = F} ≼ highest

module _ {F : Type 0} ⦃f : Float64 F⦄ where
  -- Neither below nor above. It holds of a NaN.
  abbrev pub IsWithin : F → F → F → Type 0
  IsWithin lo hi x = ((x <? lo) ≡ false) × ((hi <? x) ≡ false)

  module _ (laws : IsIeee F) (halving : IsHalving F) where
    between-IsWithin : (x : F) → lowest ≼ x → x ≼ highest → IsWithin lowest highest x
    between-IsWithin x h k = (laws.le-not-lt lowest x h, laws.le-not-lt x highest k)

    lowest-highest : lowest {F = F} ≼ highest
    lowest-highest = laws.le_trans lowest nought highest halving.under halving.over

    nought-IsWithin : IsWithin lowest highest (nought {F = F})
    nought-IsWithin = between-IsWithin nought halving.under halving.over

    clamp-IsWithin : (rate : F) → IsWithin lowest highest (clamp rate)
    clamp-IsWithin rate = ground (
      arith,
      laws.le-not-lt lowest highest lowest-highest,
      laws.lt_irrefl lowest,
      laws.lt_irrefl highest,
    )

    module _ (pow : F → F → F) (first : ℕ) (cashflows : List (CashFlow F)) where
      newton_round-IsWithin :
          (rate rate' : F)
          → newton_round pow first cashflows rate ≡ some rate'
          → IsWithin lowest highest rate'
      unfolding newton_round
      newton_round-IsWithin rate rate' e =
          let npv = npv_from pow first rate cashflows nought in
          let dnpv = dnpv_from pow first rate cashflows nought in
          ground (arith, e, clamp-IsWithin (rate ⊖ dampen (npv ⊘ dnpv)))

      newton-IsWithin :
          (n : ℕ) (rate : F)
          → IsWithin lowest highest rate
          → IsWithin lowest highest (newton pow n first cashflows rate)
      unfolding newton
      newton-IsWithin zero rate within = within
      newton-IsWithin (suc n) rate within =
          elim (Option-cases (newton_round pow first cashflows rate)) [
            | inl e ↦ rw (newton, e) within
            | inr (rate', e) ↦
                rw (newton, e) (newton-IsWithin n rate' (newton_round-IsWithin rate rate' e))
          ]

      -- A range within the bounds.
      abbrev IsRange : F × F → Type 0
      IsRange (a, b) = (lowest ≼ a) × (a ≼ b) × (b ≼ highest)

      halve-IsRange : (range : F × F) → IsRange range → IsRange (halve pow first cashflows range)
      unfolding halve
      halve-IsRange (a, b) (p, q, r) =
          let (s, t) = halving.between a b p q r in
          elim (Bool-cases (nought <? npv_from pow first (half_way (a, b)) cashflows nought)) [
            | inl y ↦ rw (halve, y) (laws.le_trans lowest a (half_way (a, b)) p s, t, r)
            | inr n ↦ rw (halve, n) (p, s, laws.le_trans (half_way (a, b)) b highest t r)
          ]

      bisect-IsRange :
          (n : ℕ) (range : F × F) → IsRange range → IsRange (bisect pow n first cashflows range)
      unfolding bisect
      bisect-IsRange zero range within = within
      bisect-IsRange (suc n) range within =
          let range' = halve pow first cashflows range in
          let within' = halve-IsRange range within in
          elim (Bool-cases ((range'.1 ⊖ range'.0) <? f.literal 1 6)) [
            | inl y ↦ rw (bisect, y) within'
            | inr m ↦ rw (bisect, m) (bisect-IsRange n range' within')
          ]

    -- From a guess that is neither below -0.99 nor above 5, the rate found is neither, with whatever
    -- power function and for all cash flows. It may be NaN.
    pub calculate_irr-IsWithin :
        (pow : F → F → F) (cashflows : List (CashFlow F)) (guess : F)
        → IsWithin lowest highest guess
        → IsWithin lowest highest (calculate_irr pow cashflows guess)
    unfolding calculate_irr
    calculate_irr-IsWithin pow cashflows guess within =
        let first = start_of cashflows in
        let rate = newton pow 200 first cashflows guess in
        let wide : F × F = (negate (f.literal 5 1), f.literal 2 0) in
        let (low, order, high) =
          bisect-IsRange pow first cashflows 100 wide (halving.low, halving.centre, halving.high) in
        let range = bisect pow 100 first cashflows wide in
        let (above, below) = halving.between range.0 range.1 low order high in
        elim (Bool-cases (ltb (length cashflows) 2)) [
          | inl y ↦ rw (calculate_irr, y) nought-IsWithin
          | inr n ↦
              elim (Bool-cases
                (f.literal 1 0 <? magnitude (npv_from pow first rate cashflows nought))) [
                  | inl y ↦
                      rw (calculate_irr, n, y)
                        (between-IsWithin (half_way range)
                          (laws.le_trans lowest range.0 (half_way range) low above)
                          (laws.le_trans (half_way range) range.1 highest below high))
                  | inr m ↦
                      rw (calculate_irr, n, m)
                        (newton-IsWithin pow first cashflows 200 guess within)
                ]
        ]
