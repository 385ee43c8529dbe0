-- ===== src/Analytics/Tax/Lots/Pieces.antt =====
-- First in, first out: what a sale leaves of lots of whole pieces.
use wealth.Prelude.{
  All, Bool-cases, List, [], arith, drop, inl, inr, leb, ltb, map, refl, suc, true, zero, ℕ, ◌-◌,
  ◌<◌, ◌≤◌, ◌^◌, ◌∙◌, ◌∷◌, ◌≡◌, nat_eq,
}
use wealth.Prelude.Float.{Float64, nought, ◌<?◌, ◌≤?◌, ◌⊖◌}
use wealth.Analytics.Tax.Lots.{OpenLot, consume}

-- Whole numbers below 2 ^ 53 are exact: they are compared and subtracted as in ℕ.
pub record IsCounting (F : Type 0) ⦃f : Float64 F⦄ : Type 0 where
  pub le_whole : (m n : ℕ) → m < 2 ^ 53 → n < 2 ^ 53 → (f.literal m 0 ≤? f.literal n 0) ≡ leb m n
  pub lt_whole : (n : ℕ) → n < 2 ^ 53 → (nought <? f.literal n 0) ≡ ltb 0 n
  pub sub_whole :
      (m n : ℕ) → n ≤ m → m < 2 ^ 53 → f.literal m 0 ⊖ f.literal n 0 ≡ f.literal (m - n) 0

-- A lot that was bought in a year at a price per piece.
pub record WholeLot (F : Type 0) : Type 0 where
  pub buy_year : ℕ
  pub count : ℕ
  pub cost_per : F

abbrev copies {ℓ} : {A : Type ℓ} → ℕ → A → List A → List A
copies zero x xs = xs
copies (suc n) x xs = x ∷ copies n x xs

drop-copies_all :
    {A : Type 0} (q n : ℕ) (x : A) (xs : List A) → n ≤ q → drop q (copies n x xs) ≡ drop (q - n) xs
drop-copies_all q zero x xs h = ground arith
drop-copies_all zero (suc n) x xs h = absurd (omega arith)
drop-copies_all (suc q) (suc n) x xs h = ground (arith, drop-copies_all q n x xs)

drop-copies_some :
    {A : Type 0} (q n : ℕ) (x : A) (xs : List A)
    → q ≤ n
    → drop q (copies n x xs) ≡ copies (n - q) x xs
drop-copies_some zero n x xs h = ground arith
drop-copies_some (suc q) zero x xs h = absurd (omega arith)
drop-copies_some (suc q) (suc n) x xs h = ground (arith, drop-copies_some q n x xs)

module _ {F : Type 0} ⦃f : Float64 F⦄ where
  abbrev pub as_lot : WholeLot F → OpenLot F
  as_lot l = record { buy_year = l.buy_year; qty = f.literal l.count 0; cost_per = l.cost_per }

  -- The pieces one by one, each with the year and the price of its lot, the oldest first.
  abbrev pub pieces : List (WholeLot F) → List (ℕ × F)
  pieces [] = []
  pieces (l ∷ ls) = copies l.count (l.buy_year, l.cost_per) (pieces ls)

  -- A sale of `quantity` pieces out of lots of whole pieces, of fewer than 2 ^ 53 each, takes the
  -- oldest pieces, as many as it asks for if there are so many, and leaves all others with the year
  -- and the price of their lots.
  pub consume-pieces :
      (exact : IsCounting F) (quantity : ℕ) (lots : List (WholeLot F))
      → quantity < 2 ^ 53
      → All (λ l. l.count < 2 ^ 53) lots
      → (left : List (WholeLot F)) × (consume (f.literal quantity 0) (map as_lot lots)
          ≡ map as_lot left)
        × (pieces left ≡ drop quantity (pieces lots))
  unfolding consume
  consume-pieces exact zero [] h hs = ([], refl, refl)
  consume-pieces exact (suc q) [] h hs = ([], refl, refl)
  consume-pieces exact zero (l ∷ ls) h hs = (l ∷ ls, rw (exact.lt_whole 0 h) refl, refl)
  consume-pieces exact (suc q) (l ∷ ls) h (k, hs) =
      let more : (nought <? f.literal (suc q) 0) ≡ true = exact.lt_whole (suc q) h ∙ ground arith in
      let whole = exact.le_whole l.count (suc q) k h in
      elim (Bool-cases (leb l.count (suc q))) [
        | inl y ↦
            let fits : l.count ≤ suc q = ground arith in
            let (left, e, d) = consume-pieces exact (suc q - l.count) ls (omega (arith, h)) hs in
            (
              left,
              rw (more, whole, y, exact.sub_whole (suc q) l.count fits h) e,
              rw (drop-copies_all (suc q) l.count (l.buy_year, l.cost_per) (pieces ls) fits) d,
            )
        | inr n ↦
            let fits : suc q ≤ l.count = ground arith in
            (
              record l { count = l.count - suc q } ∷ ls,
              rw (more, whole, n, exact.sub_whole l.count (suc q) fits k) refl,
              rw (drop-copies_some (suc q) l.count (l.buy_year, l.cost_per) (pieces ls) fits) refl,
            )
      ]
