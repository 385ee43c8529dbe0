-- ===== src/Parser/Scalable/Merged.antt =====
-- What `mergeCloseouts` leaves of the rows.
use wealth.Prelude.{
  All, All-append, Bool, Bool-cases, List, Option, Text, [], ap, arith, get_elem?, inl, inr, lit,
  map, none, refl, same, same_iff, some, suc, sym, zero, ℕ, ◌&&◌, ◌+◌, ◌∙◌, ◌∷◌, ◌≡◌, text_eq,
  nat_eq,
}
use wealth.Prelude.Float.{Float64, nought}
use wealth.Parser.Rows.{Transaction}
use wealth.Parser.Scalable.Closeouts.{
  Closeout, Merging, Payout, change_at, close_out, drop_rows, is_closing, is_dropped, is_payout,
  merge_closeouts, merge_from, merge_row, payouts_from, sale_of, take_payout,
}

module _ {A B : Type 0} (g : A → B) where
  get_elem?-map :
      (xs : List A) (i : ℕ) (a : A) → get_elem? xs i ≡ some a → get_elem? (map g xs) i ≡ some (g a)
  get_elem?-map [] i a e = absurd (ground (arith, e))
  get_elem?-map (x ∷ xs) zero a e = ground (arith, e)
  get_elem?-map (x ∷ xs) (suc i) a e = get_elem?-map xs i a e

  get_elem?-map_from :
      (xs : List A) (i : ℕ) (b : B)
      → get_elem? (map g xs) i ≡ some b
      → (a : A) × (get_elem? xs i ≡ some a) × (g a ≡ b)
  get_elem?-map_from [] i b e = absurd (ground (arith, e))
  get_elem?-map_from (x ∷ xs) zero b e = (x, refl, ground (arith, e))
  get_elem?-map_from (x ∷ xs) (suc i) b e = get_elem?-map_from xs i b e

module _ (P : Payout → Type 0) (day isin : Text) where
  -- The candidate of a key that is taken, and those that are left.
  abbrev IsTaken : Option (ℕ × List Payout) → Type 0
  IsTaken none = Unit
  IsTaken (some (index, rest)) =
      All P rest × ((p : Payout) × P p × (p.index ≡ index) × (p.day ≡ day) × (p.isin ≡ isin))

  IsTaken-later :
      (p : Payout) (taken : Option (ℕ × List Payout))
      → P p
      → IsTaken taken
      → IsTaken (elim taken [ none ↦ none | some (index, rest) ↦ some (index, p ∷ rest) ])
  IsTaken-later p none h k = tt
  IsTaken-later p (some (index, rest)) h (hs, found) = ((h, hs), found)

  take_payout-IsTaken :
      (payouts : List Payout) → All P payouts → IsTaken (take_payout day isin payouts)
  unfolding take_payout
  take_payout-IsTaken [] h = tt
  take_payout-IsTaken (p ∷ payouts) (h, hs) =
      elim (Bool-cases (same p.day day && same p.isin isin)) [
        | inl y ↦
            rw (take_payout, y)
              (
                hs,
                (
                  p,
                  h,
                  refl,
                  (same_iff p.day day).0 (ground (arith, y)),
                  (same_iff p.isin isin).0 (ground (arith, y)),
                ),
              )
        | inr n ↦
            rw (take_payout, n)
              (IsTaken-later p (take_payout day isin payouts) h (take_payout-IsTaken payouts hs))
      ]

module _ {F D : Type 0} ⦃f : Float64 F⦄ (day : D → Text) where
  -- A row without what a close-out changes: its type, its quantity and its price.
  abbrev pub kept_of : Transaction F D → Transaction F D
  kept_of t = record t { type = []; quantity = nought; price = nought }

  change_at-kept_of :
      (j : ℕ) (quantity : F) (txns : List (Transaction F D))
      → map kept_of (change_at day j (sale_of day quantity) txns) ≡ map kept_of txns
  unfolding change_at
  change_at-kept_of j quantity [] = refl
  change_at-kept_of zero quantity (t ∷ txns) = refl
  change_at-kept_of (suc j) quantity (t ∷ txns) =
      ap (λ ts. kept_of t ∷ ts) (change_at-kept_of j quantity txns)

  drop_rows-map :
      (closeouts : List Closeout) (i : ℕ) (txns : List (Transaction F D))
      → map kept_of (drop_rows day closeouts i txns) ≡ drop_rows day closeouts i (map kept_of txns)
  unfolding drop_rows
  drop_rows-map closeouts i [] = refl
  drop_rows-map closeouts i (t ∷ txns) = elim (Bool-cases (is_dropped closeouts i)) [
    | inl y ↦ rw y (drop_rows-map closeouts (suc i) txns)
    | inr n ↦ rw n (ap (λ ts. kept_of t ∷ ts) (drop_rows-map closeouts (suc i) txns))
  ]

  module _ (txns : List (Transaction F D)) where
    -- A candidate is a dividend of its day and security.
    abbrev IsCandidate : Payout → Type 0
    IsCandidate p =
        (u : Transaction F D) × (get_elem? txns p.index ≡ some u)
        × (day u.date ≡ p.day)
        × (u.security_isin ≡ p.isin)
        × (u.type ≡ lit "dividend")

    -- The two rows of a close-out, before it: a dividend is sold for a row of its day and security.
    abbrev pub IsCloseout : Closeout → Type 0
    IsCloseout c =
        (t : Transaction F D) × (u : Transaction F D) × (get_elem? txns c.dropped_at ≡ some t)
        × (get_elem? txns c.payout_at ≡ some u)
        × (day t.date ≡ day u.date)
        × (t.security_isin ≡ u.security_isin)
        × (u.type ≡ lit "dividend")

    payouts_from-IsCandidate :
        (rest : List (Transaction F D)) (j : ℕ)
        → ((i : ℕ) (t : Transaction F D)
            → get_elem? rest i ≡ some t
            → get_elem? txns (i + j) ≡ some t)
        → All IsCandidate (payouts_from day j rest)
    unfolding payouts_from
    payouts_from-IsCandidate [] j h = tt
    payouts_from-IsCandidate (t ∷ rest) j h =
        let later : All IsCandidate (payouts_from day (suc j) rest) =
          payouts_from-IsCandidate rest (suc j)
            (λ i u e. ap (get_elem? txns) (omega arith) ∙ h (suc i) u e) in
        elim (Bool-cases (is_payout day t)) [
          | inl y ↦
              rw (payouts_from, y)
                (
                  (
                    t,
                    ap (get_elem? txns) (omega arith) ∙ h 0 t refl,
                    refl,
                    refl,
                    (same_iff t.type (lit "dividend")).0 (ground (arith, y)),
                  ),
                  later,
                )
          | inr n ↦ rw (payouts_from, n) later
        ]

    record Inv (s : Merging F D) : Type 0 where
      rows : map kept_of s.txns ≡ map kept_of txns
      candidates : All IsCandidate s.payouts
      pairs : All IsCloseout s.closeouts

    close_out-Inv :
        (i : ℕ) (t : Transaction F D) (taken : Option (ℕ × List Payout)) (s : Merging F D)
        → Inv s
        → get_elem? s.txns i ≡ some t
        → IsTaken IsCandidate (day t.date) t.security_isin taken
        → Inv (close_out day i t taken s)
    close_out-Inv i t none s inv e h = inv
    close_out-Inv i t (some (j, rest)) s inv e (hs, (p, (u, at, d, n, ty), index, pd, pn)) =
        let (t', at', same_t) =
          get_elem?-map_from kept_of txns i (kept_of t)
            (ap (λ ts. get_elem? ts i) (sym inv.rows) ∙ get_elem?-map kept_of s.txns i t e) in
        record {
          rows = change_at-kept_of j t.quantity s.txns ∙ inv.rows;
          candidates = hs;
          pairs = All-append IsCloseout s.closeouts _ inv.pairs (
            (
              t',
              u,
              at',
              ap (get_elem? txns) (sym index) ∙ at,
              ap (λ r. day r.date) same_t ∙ sym (d ∙ pd),
              ap (λ r. r.security_isin) same_t ∙ sym (n ∙ pn),
              ty,
            ),
            tt,
          );
        }

    merge_row-Inv :
        (i : ℕ) (non_trade : Bool) (o : Option (Transaction F D)) (s : Merging F D)
        → Inv s
        → get_elem? s.txns i ≡ o
        → Inv (merge_row day i non_trade o s)
    merge_row-Inv i non_trade none s inv e = inv
    merge_row-Inv i non_trade (some t) s inv e = elim (Bool-cases (is_closing day non_trade t)) [
      | inl y ↦ rw y (
          close_out-Inv i t (take_payout (day t.date) t.security_isin s.payouts) s inv e
            (take_payout-IsTaken IsCandidate (day t.date) t.security_isin s.payouts inv.candidates))
      | inr n ↦ rw n inv
    ]

    merge_from-Inv :
        (non_trade : List Bool) (i : ℕ) (s : Merging F D)
        → Inv s
        → Inv (merge_from day i non_trade s)
    unfolding merge_from
    merge_from-Inv [] i s inv = inv
    merge_from-Inv (b ∷ rest) i s inv =
        merge_from-Inv rest (suc i) (merge_row day i b (get_elem? s.txns i) s)
          (merge_row-Inv i b (get_elem? s.txns i) s inv refl)

    -- The rows that are left are the given ones without those that a close-out leaves out, with every
    -- field but the type, the quantity and the price; and a close-out is a row and a
    -- dividend of its day and its security.
    pub merge_closeouts-kept :
        (non_trade : List Bool)
        → let (rows, closeouts) = merge_closeouts day txns non_trade in
          (map kept_of rows ≡ drop_rows day closeouts 0 (map kept_of txns))
          × All IsCloseout closeouts
    unfolding merge_closeouts
    merge_closeouts-kept non_trade =
        let start : Merging F D = record {
          txns = txns;
          payouts = payouts_from day 0 txns;
          closeouts = [];
        } in
        let end = merge_from day 0 non_trade start in
        let inv = merge_from-Inv non_trade 0 start (record {
          rows = refl;
          candidates =
              payouts_from-IsCandidate txns 0 (λ i t e. ap (get_elem? txns) (omega arith) ∙ e);
          pairs = tt;
        }) in
        (
          drop_rows-map end.closeouts 0 end.txns ∙ ap (drop_rows day end.closeouts 0) inv.rows,
          inv.pairs,
        )
