-- ===== src/Analytics/InKind/Closest.antt =====
-- The inner loop finds a closest candidate, and finds one if there is one.
use native.Mathlib.Nat.{le_refl}
use wealth.Prelude.{
  All, Among, Bool-cases, List, Option, [], arith, false, inl, inr, ltb, none, refl, some, suc,
  true, ℕ, ◌&&◌, ◌<◌, ◌∷◌, ◌≡◌, ◌≤◌, ◌⊎◌, text_eq, nat_eq,
}
use wealth.Prelude.Float.{Float64}
use wealth.Analytics.InKind.{
  Gap, InKindTransfer, date_window, exceeds_window, gap, is_candidate, is_less, max_duration, pick,
  span, wrapped,
}

-- The gaps in their order: the wrapped one is the least.
abbrev rank : Gap → ℕ
rank wrapped = 0
rank (span n) = suc n

is_less-rank : (g h : Gap) → is_less g h ≡ ltb (rank g) (rank h)
is_less-rank wrapped wrapped = ground arith
is_less-rank wrapped (span n) = ground arith
is_less-rank (span m) wrapped = ground arith
is_less-rank (span m) (span n) = ground arith

exceeds_window-rank : (g : Gap) → exceeds_window g ≡ ltb (suc date_window) (rank g)
exceeds_window-rank wrapped = ground arith
exceeds_window-rank (span n) = ground arith

module _ {F : Type 0} ⦃f : Float64 F⦄ (used : List ℕ) (out : InKindTransfer F) where
  -- No candidate of the list is closer than `limit`.
  abbrev pub NoneCloser : Gap → List (InKindTransfer F) → Type 0
  NoneCloser limit = All (λ t. is_candidate used out t ≡ true → rank limit ≤ rank (gap out t))

  -- The loop keeps what it had, as nothing of the list is closer, or has found a closest candidate.
  abbrev Picked : Option (InKindTransfer F) → Gap → List (InKindTransfer F) → Type 0
  Picked best limit group =
      let r = pick used out best limit group in
      ((r ≡ best) × NoneCloser limit group)
      ⊎ ((t : InKindTransfer F) × (r ≡ some t)
          × (is_candidate used out t ≡ true)
          × Among t group
          × (rank (gap out t) < rank limit)
          × NoneCloser (gap out t) group)

  picked :
      (best : Option (InKindTransfer F)) (limit : Gap) (group : List (InKindTransfer F))
      → Picked best limit group
  unfolding pick
  picked best limit [] = inl (refl, tt)
  picked best limit (u ∷ us) =
      let order = is_less-rank (gap out u) limit in
      elim (Bool-cases (is_candidate used out u && is_less (gap out u) limit)) [
        | inl e ↦ elim (picked (some u) (gap out u) us) [
          | inl (r, none_closer) ↦
              inr (
                u,
                ground arith,
                ground arith,
                inl refl,
                ground arith,
                (λ c. le_refl _, none_closer),
              )
          | inr (t, r, c, among, closer, none_closer) ↦
              inr (t, ground arith, c, inr among, ground arith, (λ c'. omega arith, none_closer))
        ]
        | inr n ↦ elim (picked best limit us) [
          | inl (r, none_closer) ↦ inl (ground arith, (λ c. ground arith, none_closer))
          | inr (t, r, c, among, closer, none_closer) ↦
              inr (t, ground arith, c, inr among, closer, (λ c'. ground arith, none_closer))
        ]
      ]

  -- What the inner loop returns for a row: the closest candidate, or the news that there is none.
  abbrev pub IsBest : List (InKindTransfer F) → Option (InKindTransfer F) → Type 0
  IsBest group none = All (λ t. is_candidate used out t ≡ false) group
  IsBest group (some t) =
      (is_candidate used out t ≡ true)
      × Among t group
      × All (λ u. is_candidate used out u ≡ false ⊎ is_less (gap out u) (gap out t) ≡ false) group

  candidate_in_window :
      (u : InKindTransfer F) → is_candidate used out u ≡ true → rank (gap out u) ≤ suc date_window
  unfolding is_candidate
  candidate_in_window u e = ground (arith, exceeds_window-rank (gap out u))

  none_in_window :
      (group : List (InKindTransfer F))
      → NoneCloser (span max_duration) group
      → All (λ t. is_candidate used out t ≡ false) group
  none_in_window [] h = tt
  none_in_window (t ∷ ts) (h, hs) = (far t h, none_in_window ts hs)
    where
      far :
          (u : InKindTransfer F)
          → (is_candidate used out u ≡ true → rank (span max_duration) ≤ rank (gap out u))
          → is_candidate used out u ≡ false
      far u k = elim (Bool-cases (is_candidate used out u)) [
        | inl e ↦ absurd (omega (arith, k e, candidate_in_window u e))
        | inr n ↦ n
      ]

  NoneCloser-or :
      (limit : Gap) (group : List (InKindTransfer F))
      → NoneCloser limit group
      → All (λ u. is_candidate used out u ≡ false ⊎ is_less (gap out u) limit ≡ false) group
  NoneCloser-or limit [] h = tt
  NoneCloser-or limit (u ∷ us) (h, hs) =
      (ground (arith, h, is_less-rank (gap out u) limit), NoneCloser-or limit us hs)

  -- For every row the scan over its group returns a candidate, none of the others having a smaller
  -- gap, and returns nothing only if no row of the group is a candidate. The gap is the one the code
  -- computes: negative for a row that is 2 ^ 63 nanoseconds earlier or more, so that such a row counts
  -- as near.
  pub pick_closest :
      (group : List (InKindTransfer F))
      → IsBest group (pick used out none (span max_duration) group)
  pick_closest group = elim (picked none (span max_duration) group) [
    | inl (r, none_closer) ↦ rw r (none_in_window group none_closer)
    | inr (t, r, c, among, closer, none_closer) ↦ rw r (c, among, NoneCloser-or _ group none_closer)
  ]
