-- ===== src/Analytics/RealizedPl/BySecurity.antt =====
-- The realized gains of a security depend on the transactions of that security alone.
use mathlib.Core.Path.{subst}
use wealth.Prelude.{
  ==_iff, Bool-cases, List, Option, Option-cases, Text, [], ap, arith, false, get_or, get_or-insert,
  inl, inr, is_empty, keep, lookup, none, refl, some, true, ◌==◌, ◌∙◌, ◌∷◌, ◌≡◌, text_eq,
}
use wealth.Prelude.Float.{Float64, nought, ◌⊕◌, ◌⊖◌}
use wealth.Transaction.{TxType}
use wealth.Analytics.AverageCost.{take_lot}
use wealth.Analytics.AverageCost.Locality.{
  SameLot, add_lot-SameLot, add_lot-SameLot_other, basis_of, left, left-SameLot_other,
  take_lot-SameLot,
}
use wealth.Analytics.RealizedPl.{
  PlState, PlTransaction, booked, calculate_realized_pl, moved_out, opened, run, sold, step,
}

module _ {F : Type 0} ⦃f : Float64 F⦄ where
  abbrev pub start : PlState F
  start = record { holdings = []; total_realized_pl = nought; by_security = [] }

  abbrev pub of_security : Text → List (PlTransaction F) → List (PlTransaction F)
  of_security isin = keep (λ t. t.isin == isin)

  -- Two states agree on a security.
  abbrev Same : Text → PlState F → PlState F → Type 0
  Same j s s' =
      SameLot j s.holdings s'.holdings
      × (get_or j nought s.by_security ≡ get_or j nought s'.by_security)

  abbrev with_gain : F → F → Option F → F
  with_gain gains amount none = gains
  with_gain gains amount (some basis) = gains ⊕ (amount ⊖ basis)

  sold_parts :
      (t : PlTransaction F) (s : PlState F)
      → ((sold t s).holdings ≡ left t.isin t.quantity s.holdings)
        × (get_or t.isin nought (sold t s).by_security
            ≡ with_gain
                (get_or t.isin nought s.by_security)
                t.amount
                (basis_of t.isin t.quantity s.holdings))
  unfolding sold
  sold_parts t s = elim (Option-cases (take_lot t.isin t.quantity s.holdings)) [
    | inl m ↦ ground arith
    | inr (p, m) ↦
        let gains = get_or t.isin nought s.by_security in
        ground (
          arith,
          get_or-insert t.isin t.isin nought (gains ⊕ (t.amount ⊖ p.1)) s.by_security,
          ==_iff t.isin t.isin,
        )
  ]

  moved_out_parts :
      (t : PlTransaction F) (s : PlState F)
      → ((moved_out t s).holdings ≡ left t.isin t.quantity s.holdings)
        × ((moved_out t s).by_security ≡ s.by_security)
  unfolding moved_out
  moved_out_parts t s = elim (Option-cases (take_lot t.isin t.quantity s.holdings)) [
    | inl m ↦ ground arith
    | inr (p, m) ↦ ground arith
  ]

  sold-Same_other :
      (t : PlTransaction F) (j : Text) (s : PlState F)
      → (t.isin == j) ≡ false
      → get_or j nought (sold t s).by_security ≡ get_or j nought s.by_security
  unfolding sold
  sold-Same_other t j s n = elim (Option-cases (take_lot t.isin t.quantity s.holdings)) [
    | inl m ↦ ground arith
    | inr (p, m) ↦
        let gains = get_or t.isin nought s.by_security in
        ground (arith, get_or-insert t.isin j nought (gains ⊕ (t.amount ⊖ p.1)) s.by_security)
  ]

  step_empty : (t : PlTransaction F) (s : PlState F) → is_empty t.isin ≡ true → step t s ≡ s
  unfolding step
  step_empty t s e = rw e

  step-booked :
      (t : PlTransaction F) (s : PlState F) → is_empty t.isin ≡ false → step t s ≡ booked t.type t s
  unfolding step
  step-booked t s n = rw n

  module _ (t : PlTransaction F) (s s' : PlState F) where
    opened-Same : Same t.isin s s' → Same t.isin (opened t s) (opened t s')
    opened-Same (e, g) = (add_lot-SameLot t.isin t.quantity t.amount s.holdings s'.holdings e, g)

    sold-Same : Same t.isin s s' → Same t.isin (sold t s) (sold t s')
    sold-Same (e, g) =
        let (basis, rest) = take_lot-SameLot t.isin t.quantity s.holdings s'.holdings e in
        ground (arith, sold_parts t s, sold_parts t s')

    moved_out-Same : Same t.isin s s' → Same t.isin (moved_out t s) (moved_out t s')
    moved_out-Same (e, g) =
        let (basis, rest) = take_lot-SameLot t.isin t.quantity s.holdings s'.holdings e in
        ground (arith, moved_out_parts t s, moved_out_parts t s')

    booked-Same :
        (type : TxType) → Same t.isin s s' → Same t.isin (booked type t s) (booked type t s')
    booked-Same TxType.buy h = unfold booked in opened-Same h
    booked-Same TxType.savings_plan h = unfold booked in opened-Same h
    booked-Same TxType.transfer h = unfold booked in opened-Same h
    booked-Same TxType.sell h = unfold booked in sold-Same h
    booked-Same TxType.transfer_out h = unfold booked in moved_out-Same h
    booked-Same _ h = unfold booked in h

    step-Same : Same t.isin s s' → Same t.isin (step t s) (step t s')
    step-Same h = elim (Bool-cases (is_empty t.isin)) [
      | inl e ↦ rw (step_empty t s e, step_empty t s' e) h
      | inr n ↦ rw (step-booked t s n, step-booked t s' n) (booked-Same t.type h)
    ]

  booked-Same_other :
      (type : TxType) (t : PlTransaction F) (j : Text) (s s' : PlState F)
      → (t.isin == j) ≡ false
      → Same j s s'
      → Same j (booked type t s) s'
  booked-Same_other TxType.buy t j s s' n (e, g) =
      unfold booked in
      (add_lot-SameLot_other t.isin j t.quantity t.amount s.holdings s'.holdings n e, g)
  booked-Same_other TxType.savings_plan t j s s' n (e, g) =
      unfold booked in
      (add_lot-SameLot_other t.isin j t.quantity t.amount s.holdings s'.holdings n e, g)
  booked-Same_other TxType.transfer t j s s' n (e, g) =
      unfold booked in
      (add_lot-SameLot_other t.isin j t.quantity t.amount s.holdings s'.holdings n e, g)
  booked-Same_other TxType.sell t j s s' n (e, g) =
      unfold booked in
      (
        ap (lookup j) (sold_parts t s).0
            ∙ left-SameLot_other t.isin j t.quantity s.holdings s'.holdings n e,
        sold-Same_other t j s n ∙ g,
      )
  booked-Same_other TxType.transfer_out t j s s' n (e, g) =
      unfold booked in
      (
        ap (lookup j) (moved_out_parts t s).0
            ∙ left-SameLot_other t.isin j t.quantity s.holdings s'.holdings n e,
        ap (get_or j nought) (moved_out_parts t s).1 ∙ g,
      )
  booked-Same_other _ t j s s' n h = unfold booked in h

  step-Same_other :
      (t : PlTransaction F) (j : Text) (s s' : PlState F)
      → (t.isin == j) ≡ false
      → Same j s s'
      → Same j (step t s) s'
  step-Same_other t j s s' n h = elim (Bool-cases (is_empty t.isin)) [
    | inl e ↦ rw (step_empty t s e) h
    | inr b ↦ rw (step-booked t s b) (booked-Same_other t.type t j s s' n h)
  ]

  run-Same :
      (ts : List (PlTransaction F)) (j : Text) (s s' : PlState F)
      → Same j s s'
      → Same j (run ts s) (run (of_security j ts) s')
  unfolding run
  run-Same [] j s s' h = h
  run-Same (t ∷ ts) j s s' h = elim (Bool-cases (t.isin == j)) [
    | inl e ↦
        let same_step =
          subst (λ k. Same k s s' → Same k (step t s) (step t s')) ((==_iff t.isin j).0 e)
            (step-Same t s s') in
        rw e (run-Same ts j (step t s) (step t s') (same_step h))
    | inr n ↦ rw n (run-Same ts j (step t s) s' (step-Same_other t j s s' n h))
  ]

  -- The realized gain that is reported for a security is the one that its own transactions give
  -- when nothing else was traded: purchases, sales and transfers of other securities change nothing.
  pub calculate_realized_pl-of_security :
      (txns : List (PlTransaction F)) (isin : Text)
      → get_or isin nought (calculate_realized_pl txns).1
        ≡ get_or isin nought (calculate_realized_pl (of_security isin txns)).1
  unfolding calculate_realized_pl
  calculate_realized_pl-of_security txns isin = (run-Same txns isin start start (refl, refl)).1
