-- ===== src/Analytics/AverageCost/Locality.antt =====
-- A change of one position leaves the others alone and depends on no other.
use wealth.Prelude.{
  ==_iff, Option, Option-cases, Text, ap, arith, false, get_or-lookup, if◌then◌else◌, inl, inr,
  lookup, lookup-delete, lookup-insert, lookup-insert_self, none, some, sym, ◌==◌, ◌∙◌, ◌≡◌,
  text_eq,
}
use wealth.Prelude.Float.{Float64, nought, ◌≤?◌}
use wealth.Analytics.AverageCost.{Lot, Positions, add_lot, empty_lot, take_lot, taken}

-- Two tables hold the same position of one security.
abbrev pub SameLot : {F : Type 0} → Text → Positions F → Positions F → Type 0
SameLot j h k = lookup j h ≡ lookup j k

module _ {F : Type 0} ⦃f : Float64 F⦄ where
  -- The table behind a sale or a transfer out, whatever it took.
  abbrev pub left : Text → F → Positions F → Positions F
  left isin quantity h = elim (take_lot isin quantity h) [ none ↦ h | some (h', basis) ↦ h' ]

  -- The cost basis of what it took.
  abbrev pub basis_of : Text → F → Positions F → Option F
  basis_of isin quantity h = elim (take_lot isin quantity h) [
    | none ↦ none
    | some (h', basis) ↦ some basis
  ]

  pub add_lot-SameLot :
      (j : Text) (q a : F) (h k : Positions F)
      → SameLot j h k
      → SameLot j (add_lot j q a h) (add_lot j q a k)
  unfolding add_lot
  add_lot-SameLot j q a h k e =
      rw (get_or-lookup j empty_lot h, get_or-lookup j empty_lot k, e)
        (rw (lookup-insert_self j _ h, lookup-insert_self j _ k))

  pub add_lot-SameLot_other :
      (i j : Text) (q a : F) (h k : Positions F)
      → (i == j) ≡ false
      → SameLot j h k
      → SameLot j (add_lot i q a h) k
  unfolding add_lot
  add_lot-SameLot_other i j q a h k n e = rw (lookup-insert i j _ h, n) e

  take_lot-some :
      (j : Text) (q : F) (h : Positions F) (l : Lot F)
      → lookup j h ≡ some l
      → (basis_of j q h ≡ (if l.quantity ≤? nought then none else some (taken l q).1))
        × (lookup j (left j q h) ≡ (
            if l.quantity ≤? nought
            then some l
            else if (taken l q).0.quantity ≤? f.literal 1 3
            then none
            else some (taken l q).0))
  unfolding take_lot
  take_lot-some j q h l e =
      ground (arith, lookup-delete j j h, ==_iff j j, lookup-insert_self j (taken l q).0 h)

  take_lot-none :
      (j : Text) (q : F) (h : Positions F)
      → lookup j h ≡ none
      → (basis_of j q h ≡ none) × (left j q h ≡ h)
  unfolding take_lot
  take_lot-none j q h e = ground arith

  -- What a sale takes and leaves of a security depends on the position of that security alone.
  pub take_lot-SameLot :
      (j : Text) (q : F) (h k : Positions F)
      → SameLot j h k
      → (basis_of j q h ≡ basis_of j q k) × SameLot j (left j q h) (left j q k)
  take_lot-SameLot j q h k e = elim (Option-cases (lookup j h)) [
    | inl m ↦
        let (b, l) = take_lot-none j q h m in
        let (b', l') = take_lot-none j q k (sym e ∙ m) in
        (b ∙ sym b', ap (lookup j) l ∙ e ∙ ap (lookup j) (sym l'))
    | inr (l, m) ↦
        let (b, r) = take_lot-some j q h l m in
        let (b', r') = take_lot-some j q k l (sym e ∙ m) in (b ∙ sym b', r ∙ sym r')
  ]

  pub left-SameLot_other :
      (i j : Text) (q : F) (h k : Positions F)
      → (i == j) ≡ false
      → SameLot j h k
      → SameLot j (left i q h) k
  unfolding take_lot
  left-SameLot_other i j q h k n e = elim (Option-cases (lookup i h)) [
    | inl m ↦ ground arith
    | inr (l, m) ↦ ground (arith, lookup-delete i j h, lookup-insert i j (taken l q).0 h)
  ]
