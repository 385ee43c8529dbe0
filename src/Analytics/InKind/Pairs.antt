-- ===== src/Analytics/InKind/Pairs.antt =====
-- What is excluded is made of pairs: each of two rows that offset one another, and neither of which
-- an earlier pair of the same security has used.
use wealth.Prelude.{
  ==_iff, All, All-append, Among, Bool-cases, List, Option-cases, Text, [], ap, arith, contains,
  false, get_or, inl, inr, insert, is_empty, leb, ltb, none, not, refl, some, sym, true, ℕ, ◌&&◌,
  ◌++◌, ◌+◌, ◌-◌, ◌^◌, ◌==◌, ◌||◌, ◌∙◌, ◌∷◌, ◌≡◌, ◌≤◌, ◌⊎◌, text_eq, nat_eq,
}
use wealth.Prelude.Float.{Float64, magnitude, ◌<?◌, ◌⊖◌}
use wealth.Analytics.InKind.{
  InKindTransfer, by_date, by_isin, date_window, exceeds_window, gap, is_candidate, is_transfer,
  is_transfer_out, match_groups, match_in_kind_transfer_pairs, match_rows, max_duration, pick,
  place, span, quantity_tolerance,
}
use wealth.Analytics.InKind.Closest.{IsBest, pick_closest}

module _ {F : Type 0} ⦃f : Float64 F⦄ where
  -- At most five days apart, or the second half is earlier by 2 ^ 63 nanoseconds or more, which are
  -- 292 years.
  abbrev pub IsNear : InKindTransfer F → InKindTransfer F → Type 0
  IsNear out incoming =
      ((out.date ≤ incoming.date + date_window) × (incoming.date ≤ out.date + date_window))
      ⊎ (incoming.date + 2 ^ 63 ≤ out.date)

  gap-IsNear : (out t : InKindTransfer F) → exceeds_window (gap out t) ≡ false → IsNear out t
  unfolding gap
  gap-IsNear out t h = elim (Bool-cases (ltb t.date out.date)) [
    | inl e ↦ elim (Bool-cases (leb (2 ^ 63) (out.date - t.date))) [
      | inl far ↦ inr (ground arith)
      | inr n ↦ (let k = rw (gap, e, n) at h in inl (ground arith))
    ]
    | inr e ↦ elim (Bool-cases (ltb max_duration (t.date - out.date))) [
      | inl far ↦ (let k = rw (gap, e, far) at h in absurd (ground arith))
      | inr n ↦ (let k = rw (gap, e, n) at h in inl (ground arith))
    ]
  ]

  -- One half of a move in kind and the other.
  pub record IsOffset (out incoming : InKindTransfer F) : Type 0 where
    pub leaves : is_transfer_out out.type ≡ true
    pub arrives : is_transfer incoming.type ≡ true
    pub same_security : (out.isin ≡ incoming.isin) × (is_empty out.isin ≡ false)
    pub same_quantity : (quantity_tolerance <? magnitude (incoming.quantity ⊖ out.quantity)) ≡ false
    pub near : IsNear out incoming

  -- The list was built from the back by pairs of rows of `txns` that offset one another, each with
  -- identifiers that are not in use behind them.
  pub data IsPaired (txns : List (InKindTransfer F)) : List ℕ → Type 0 where
    none_yet : IsPaired txns []
    pair :
        (out incoming : InKindTransfer F) {used : List ℕ}
        → Among out txns
        → Among incoming txns
        → IsOffset out incoming
        → contains used out.id ≡ false
        → contains used incoming.id ≡ false
        → IsPaired txns used
        → IsPaired txns (out.id ∷ incoming.id ∷ used)

  -- A group: rows of `txns`, all of one security.
  abbrev IsGroup : List (InKindTransfer F) → Text → List (InKindTransfer F) → Type 0
  IsGroup txns isin = All (λ t. Among t txns × (t.isin ≡ isin) × (is_empty isin ≡ false))

  Among-All :
      (P : InKindTransfer F → Type 0) (t : InKindTransfer F) (ts : List (InKindTransfer F))
      → All P ts
      → Among t ts
      → P t
  Among-All P t [] h m = absurd m
  Among-All P t (u ∷ us) (h, hs) (inl e) = rw e h
  Among-All P t (u ∷ us) (h, hs) (inr m) = Among-All P t us hs m

  All-Among : (ts : List (InKindTransfer F)) → All (λ t. Among t ts) ts
  All-Among [] = tt
  All-Among (t ∷ ts) = (inl refl, later ts (All-Among ts))
    where
      later :
          (us : List (InKindTransfer F)) → All (λ u. Among u ts) us → All (λ u. Among u (t ∷ ts)) us
      later [] h = tt
      later (u ∷ us) (h, hs) = (inr h, later us hs)

  candidate_facts :
      (used : List ℕ) (out t : InKindTransfer F)
      → is_candidate used out t ≡ true
      → (contains used t.id ≡ false)
        × (is_transfer t.type ≡ true)
        × ((quantity_tolerance <? magnitude (t.quantity ⊖ out.quantity)) ≡ false)
        × (exceeds_window (gap out t) ≡ false)
  unfolding is_candidate
  candidate_facts used out t h = ground arith

  module _ (txns : List (InKindTransfer F)) (isin : Text) (group : List (InKindTransfer F)) where
    match_rows-IsPaired :
        (used : List ℕ) (rest : List (InKindTransfer F))
        → IsGroup txns isin group
        → IsGroup txns isin rest
        → IsPaired txns used
        → IsPaired txns (match_rows group used rest)
    unfolding match_rows
    match_rows-IsPaired used [] g r p = p
    match_rows-IsPaired used (out ∷ rest) g ((m, e, ne), r) p =
        elim (Bool-cases (not (is_transfer_out out.type) || contains used out.id)) [
          | inl skip ↦ rw skip (match_rows-IsPaired used rest g r p)
          | inr go ↦ elim (Option-cases (pick used out none (span max_duration) group)) [
            | inl alone ↦ rw (go, alone) (match_rows-IsPaired used rest g r p)
            | inr (t, found) ↦
                let best : IsBest used out group (some t) =
                  rw found at (pick_closest used out group) in
                let facts = candidate_facts used out t best.0 in
                let (among, same_isin, filled) =
                  Among-All (λ u. Among u txns × (u.isin ≡ isin) × (is_empty isin ≡ false)) t group
                    g best.1 in
                let offset : IsOffset out t = record {
                  leaves = ground arith;
                  arrives = facts.1;
                  same_security = (e ∙ sym same_isin, ap is_empty e ∙ ne);
                  same_quantity = facts.2;
                  near = gap-IsNear out t facts.3;
                } in
                rw (go, found)
                  (match_rows-IsPaired (out.id ∷ t.id ∷ used) rest g r
                    (pair out t m among offset (ground arith) facts.0 p))
          ]
        ]

  module _ (txns : List (InKindTransfer F)) where
    place-IsGroup :
        (isin : Text) (t : InKindTransfer F) (ts : List (InKindTransfer F))
        → IsGroup txns isin (t ∷ ts)
        → IsGroup txns isin (place t ts)
    unfolding place
    place-IsGroup isin t [] g = g
    place-IsGroup isin t (u ∷ us) (g, (gu, gs)) = elim (Bool-cases (ltb u.date t.date)) [
      | inl e ↦ rw e (gu, place-IsGroup isin t us (g, gs))
      | inr n ↦ rw n (g, (gu, gs))
    ]

    by_date-IsGroup :
        (isin : Text) (ts : List (InKindTransfer F))
        → IsGroup txns isin ts
        → IsGroup txns isin (by_date ts)
    unfolding by_date
    by_date-IsGroup isin [] g = tt
    by_date-IsGroup isin (t ∷ ts) (g, gs) =
        place-IsGroup isin t (by_date ts) (g, by_date-IsGroup isin ts gs)

    abbrev AreGroups : List (Text × List (InKindTransfer F)) → Type 0
    AreGroups [] = Unit
    AreGroups ((isin, rows) ∷ groups) = IsGroup txns isin rows × AreGroups groups

    get_or-IsGroup :
        (isin : Text) (groups : List (Text × List (InKindTransfer F)))
        → AreGroups groups
        → IsGroup txns isin (get_or isin [] groups)
    unfolding get_or
    get_or-IsGroup isin [] g = tt
    get_or-IsGroup isin ((j, rows) ∷ groups) (g, gs) = elim (Bool-cases (j == isin)) [
      | inl e ↦ rw e (rw ((==_iff j isin).0 e) at g)
      | inr n ↦ rw n (get_or-IsGroup isin groups gs)
    ]

    insert-AreGroups :
        (isin : Text) (rows : List (InKindTransfer F))
        (groups : List (Text × List (InKindTransfer F)))
        → IsGroup txns isin rows
        → AreGroups groups
        → AreGroups (insert isin rows groups)
    unfolding insert
    insert-AreGroups isin rows [] g gs = (g, tt)
    insert-AreGroups isin rows ((j, old) ∷ groups) g (h, hs) = elim (Bool-cases (j == isin)) [
      | inl e ↦ rw e (g, hs)
      | inr n ↦ rw n (h, insert-AreGroups isin rows groups g hs)
    ]

    by_isin-AreGroups :
        (ts : List (InKindTransfer F)) (groups : List (Text × List (InKindTransfer F)))
        → All (λ t. Among t txns) ts
        → AreGroups groups
        → AreGroups (by_isin ts groups)
    unfolding by_isin
    by_isin-AreGroups [] groups m g = g
    by_isin-AreGroups (t ∷ ts) groups (m, ms) g =
        by_isin-AreGroups ts _ ms (elim (Bool-cases (is_empty t.isin)) [
          | inl e ↦ rw e g
          | inr filled ↦
              elim (Bool-cases (not (is_transfer t.type) && not (is_transfer_out t.type))) [
                | inl e ↦ rw (filled, e) g
                | inr n ↦
                    rw (filled, n)
                      (insert-AreGroups t.isin _ groups
                        (All-append _ (get_or t.isin [] groups) (t ∷ [])
                          (get_or-IsGroup t.isin groups g) ((m, refl, filled), tt))
                        g)
              ]
        ])

  -- The lists of several groups, one behind the other.
  pub data IsExcluded (txns : List (InKindTransfer F)) : List ℕ → Type 0 where
    no_group : IsExcluded txns []
    group :
        {ids rest : List ℕ}
        → IsPaired txns ids
        → IsExcluded txns rest
        → IsExcluded txns (ids ++ rest)

  match_groups-IsExcluded :
      (txns : List (InKindTransfer F)) (groups : List (Text × List (InKindTransfer F)))
      → AreGroups txns groups
      → IsExcluded txns (match_groups groups)
  unfolding match_groups
  match_groups-IsExcluded txns [] g = no_group
  match_groups-IsExcluded txns ((isin, rows) ∷ groups) (g, gs) =
      let sorted = by_date-IsGroup txns isin rows g in
      group (match_rows-IsPaired txns isin (by_date rows) [] (by_date rows) sorted sorted none_yet)
        (match_groups-IsExcluded txns groups gs)

  -- Whatever is excluded from attribution is, security by security, made of pairs of rows of the
  -- input: a `transfer_out` and a `transfer` of the same ISIN and quantity, up to the tolerance, at
  -- most five days apart (or 292 years, where the code takes the distance for negative), neither of which another pair of that security has used.
  pub match_in_kind_transfer_pairs-IsExcluded :
      (txns : List (InKindTransfer F)) → IsExcluded txns (match_in_kind_transfer_pairs txns)
  unfolding match_in_kind_transfer_pairs
  match_in_kind_transfer_pairs-IsExcluded txns =
      match_groups-IsExcluded txns (by_isin txns [])
        (by_isin-AreGroups txns txns [] (All-Among txns) tt)
