-- ===== src/Analytics/Tax/Lots/Fifo.antt =====
-- No open lot is ever empty.
use wealth.Prelude.{
  All, All-append, Bool-cases, List, Option-cases, Text, [], false, get_or, get_or-lookup, inl, inr,
  insert, is_empty, lookup, true, ◌==◌, ◌∷◌, ◌≡◌, text_eq,
}
use wealth.Prelude.Float.{Float64, nought, ◌<?◌, ◌≤?◌, ◌⊖◌}
use wealth.Prelude.Float.Order.{IsOrdered}
use wealth.Transaction.{TxType}
use wealth.Analytics.Tax.Rates.{TaxTransaction}
use wealth.Analytics.Tax.Lots.{
  OpenLot, Queues, close_lots, consume, open_lot, track_lot, track_lots,
}

module _ {F : Type 0} ⦃f : Float64 F⦄ where
  -- What a sale may leave of a queue: the queue from some lot on, that lot perhaps smaller, with its
  -- year and its cost per piece.
  data IsLeft : List (OpenLot F) → List (OpenLot F) → Type 0 where
    untouched : {ls : List (OpenLot F)} → IsLeft ls ls
    reduced :
        {l : OpenLot F} {ls : List (OpenLot F)} (quantity : F)
        → (l.qty ≤? quantity) ≡ false
        → IsLeft (l ∷ ls) (record l { qty = l.qty ⊖ quantity } ∷ ls)
    dropped : {l : OpenLot F} {ls left : List (OpenLot F)} → IsLeft ls left → IsLeft (l ∷ ls) left

  consume-IsLeft : (quantity : F) (lots : List (OpenLot F)) → IsLeft lots (consume quantity lots)
  unfolding consume
  consume-IsLeft quantity [] = untouched
  consume-IsLeft quantity (l ∷ ls) = elim (Bool-cases (nought <? quantity)) [
    | inl more ↦ elim (Bool-cases (l.qty ≤? quantity)) [
      | inl whole ↦ rw (more, whole) (dropped (consume-IsLeft (quantity ⊖ l.qty) ls))
      | inr part ↦ rw (more, part) (reduced quantity part)
    ]
    | inr done ↦ rw done untouched
  ]

  abbrev pub IsOpen : OpenLot F → Type 0
  IsOpen l = (nought <? l.qty) ≡ true

  abbrev pub AreOpen : Queues F → Type 0
  AreOpen [] = Unit
  AreOpen ((isin, ls) ∷ lots) = All IsOpen ls × AreOpen lots

  get_or-AreOpen : (isin : Text) (lots : Queues F) → AreOpen lots → All IsOpen (get_or isin [] lots)
  unfolding get_or
  get_or-AreOpen isin [] h = tt
  get_or-AreOpen isin ((j, ls) ∷ lots) (h, hs) = elim (Bool-cases (j == isin)) [
    | inl e ↦ rw e h
    | inr n ↦ rw n (get_or-AreOpen isin lots hs)
  ]

  insert-AreOpen :
      (isin : Text) (ls : List (OpenLot F)) (lots : Queues F)
      → All IsOpen ls
      → AreOpen lots
      → AreOpen (insert isin ls lots)
  unfolding insert
  insert-AreOpen isin ls [] h hs = (h, tt)
  insert-AreOpen isin ls ((j, old) ∷ lots) h (k, ks) = elim (Bool-cases (j == isin)) [
    | inl e ↦ rw e (h, ks)
    | inr n ↦ rw n (k, insert-AreOpen isin ls lots h ks)
  ]

  module _ (laws : IsOrdered F) where
    open laws use {lt-eq-not-le, sub_pos}

    IsLeft-IsOpen : {ls left : List (OpenLot F)} → IsLeft ls left → All IsOpen ls → All IsOpen left
    IsLeft-IsOpen untouched h = h
    IsLeft-IsOpen (reduced {l} quantity part) (h, hs) =
        (sub_pos l.qty quantity (rw (lt-eq-not-le quantity l.qty, part)), hs)
    IsLeft-IsOpen (dropped left) (h, hs) = IsLeft-IsOpen left hs

    open_lot-AreOpen :
        (t : TaxTransaction F) (lots : Queues F) → AreOpen lots → AreOpen (open_lot t lots)
    unfolding open_lot
    open_lot-AreOpen t lots h = elim (Bool-cases (nought <? t.quantity)) [
      | inl e ↦ rw e (
          insert-AreOpen t.isin _ lots
            (All-append IsOpen (get_or t.isin [] lots) _ (get_or-AreOpen t.isin lots h) (e, tt)) h)
      | inr n ↦ rw n h
    ]

    close_lots-AreOpen :
        (t : TaxTransaction F) (lots : Queues F) → AreOpen lots → AreOpen (close_lots t lots)
    unfolding close_lots
    close_lots-AreOpen t lots h = elim (Option-cases (lookup t.isin lots)) [
      | inl e ↦ rw (e, close_lots) h
      | inr (ls, e) ↦
          let held : All IsOpen ls =
            rw (get_or-lookup t.isin [] lots, e) at (get_or-AreOpen t.isin lots h) in
          rw (e, close_lots)
            (insert-AreOpen t.isin _ lots (IsLeft-IsOpen (consume-IsLeft t.quantity ls) held) h)
    ]

    track_lot-AreOpen :
        (type : TxType) (t : TaxTransaction F) (lots : Queues F)
        → AreOpen lots
        → AreOpen (track_lot type t lots)
    unfolding track_lot
    track_lot-AreOpen TxType.buy t lots h = open_lot-AreOpen t lots h
    track_lot-AreOpen TxType.savings_plan t lots h = open_lot-AreOpen t lots h
    track_lot-AreOpen TxType.transfer t lots h = open_lot-AreOpen t lots h
    track_lot-AreOpen TxType.sell t lots h = close_lots-AreOpen t lots h
    track_lot-AreOpen TxType.transfer_out t lots h = close_lots-AreOpen t lots h
    track_lot-AreOpen _ t lots h = h

    -- After any transactions, whatever quantities and amounts they carry, every open lot of every
    -- security has a positive quantity.
    pub track_lots-AreOpen :
        (txns : List (TaxTransaction F)) (lots : Queues F)
        → AreOpen lots
        → AreOpen (track_lots txns lots)
    unfolding track_lots
    track_lots-AreOpen [] lots h = h
    track_lots-AreOpen (t ∷ ts) lots h = elim (Bool-cases (is_empty t.isin)) [
      | inl e ↦ rw e (track_lots-AreOpen ts lots h)
      | inr n ↦
          rw n (track_lots-AreOpen ts (track_lot t.type t lots) (track_lot-AreOpen t.type t lots h))
    ]
