-- ===== src/Handler/Cashflow/Sorted.antt =====
-- The sort in `computeMedians` puts a slice into ascending order and keeps its elements.
use wealth.Prelude.{All, Bool-cases, List, [], arith, inl, inr, ◌++◌, ◌∷◌}
use wealth.Prelude.Float.{Float64, ◌<?◌}
use wealth.Prelude.Float.Order.{IsOrdered, ◌≼◌}
use mathlib.Core.List.{Perm, reverse_aux, reverse_perm}
use mathlib.Core.List.Perm
use mathlib.Core.List.Permᴰ
use wealth.Handler.Cashflow.{shallow_sort, sink, sort_from}

module _ {F : Type 0} ⦃f : Float64 F⦄ where
  abbrev pub IsAscending : List F → Type 0
  IsAscending [] = Unit
  IsAscending (x ∷ xs) = All (λ y. x ≼ y) xs × IsAscending xs

  abbrev IsDescending : List F → Type 0
  IsDescending [] = Unit
  IsDescending (x ∷ xs) = All (λ y. y ≼ x) xs × IsDescending xs

  All-sink : (P : F → Type 0) (x : F) (ys : List F) → P x → All P ys → All P (sink x ys)
  unfolding sink
  All-sink P x [] p q = (p, tt)
  All-sink P x (y ∷ ys) p (q, qs) = elim (Bool-cases (x <? y)) [
    | inl e ↦ rw e (q, All-sink P x ys p qs)
    | inr e ↦ rw e (p, (q, qs))
  ]

  sink-perm : (x : F) (ys : List F) → Perm (sink x ys) (x ∷ ys)
  unfolding sink
  sink-perm x [] = Perm.rfl
  sink-perm x (y ∷ ys) = elim (Bool-cases (x <? y)) [
    | inl e ↦ rw e (Perm.trans (Perm.cons y (sink-perm x ys)) (Perm.swap x y ys))
    | inr e ↦ rw e Perm.rfl
  ]

  All-imp : (P Q : F → Type 0) → ((y : F) → P y → Q y) → (ys : List F) → All P ys → All Q ys
  All-imp P Q h [] _ = tt
  All-imp P Q h (y ∷ ys) (p, ps) = (h y p, All-imp P Q h ys ps)

  -- An ascending list stays so behind the reverse of a descending one below it.
  reverse_aux-IsAscending :
      (done acc : List F)
      → IsDescending done
      → All (λ x. All (λ y. x ≼ y) acc) done
      → IsAscending acc
      → IsAscending (reverse_aux done acc)
  reverse_aux-IsAscending [] acc _ _ h = h
  reverse_aux-IsAscending (x ∷ done) acc (below, d) (p, ps) h =
      reverse_aux-IsAscending done (x ∷ acc) d (both done below ps) (p, h)
    where
      both :
          (xs : List F)
          → All (λ y. y ≼ x) xs
          → All (λ y. All (λ z. y ≼ z) acc) xs
          → All (λ y. All (λ z. y ≼ z) (x ∷ acc)) xs
      both [] _ _ = tt
      both (y ∷ xs) (b, bs) (q, qs) = ((b, q), both xs bs qs)

  sort_from-perm : (xs done : List F) → Perm (sort_from xs done) (xs ++ done)
  unfolding sort_from
  sort_from-perm [] done = reverse_perm done
  sort_from-perm (x ∷ xs) done =
      Perm.trans (sort_from-perm xs (sink x done))
        (Perm.trans (Perm.append_left xs (sink-perm x done)) ∣ Permᴰ.middle x xs done ∣₁)

  module _ (laws : IsOrdered F) where
    sink-IsDescending : (x : F) (ys : List F) → IsDescending ys → IsDescending (sink x ys)
    unfolding sink
    sink-IsDescending x [] _ = (tt, tt)
    sink-IsDescending x (y ∷ ys) (below, d) =
        let comparison = laws.lt-eq-not-le x y in
        elim (Bool-cases (x <? y)) [
          | inl e ↦ rw e (
            All-sink (λ z. z ≼ y) x ys (ground (arith, laws.le_total x y)) below,
            sink-IsDescending x ys d,
          )
          | inr e ↦
              let le : y ≼ x = ground arith in
              rw e (
                (le, All-imp (λ z. z ≼ y) (λ z. z ≼ x) (λ z h. laws.le_trans z y x h le) ys below),
                (below, d),
              )
        ]

    sort_from-IsAscending : (xs done : List F) → IsDescending done → IsAscending (sort_from xs done)
    unfolding sort_from
    sort_from-IsAscending [] done d = reverse_aux-IsAscending done [] d (nothing done) tt
      where
        nothing : (xs : List F) → All (λ x. All (λ y. x ≼ y) []) xs
        nothing [] = tt
        nothing (x ∷ xs) = (tt, nothing xs)
    sort_from-IsAscending (x ∷ xs) done d =
        sort_from-IsAscending xs (sink x done) (sink-IsDescending x done d)

    -- The two loops put a slice of numbers that are ordered, none of them NaN, into ascending
    -- order, and keep its elements.
    pub shallow_sort-IsAscending :
        (xs : List F) → IsAscending (shallow_sort xs) × Perm (shallow_sort xs) xs
    unfolding shallow_sort
    shallow_sort-IsAscending xs = (
      sort_from-IsAscending xs [] tt,
      Perm.trans (sort_from-perm xs []) (∣ Permᴰ.append-nil xs ∣₁),
    )
