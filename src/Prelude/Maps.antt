-- ===== src/Prelude/Maps.antt =====
-- Go's `map[K]V` as an association list: in the order in which a loop ranges over it.
use mathlib.Core.List.{List, [], ◌∷◌}
use mathlib.Core.Logic.{inl, inr}
use mathlib.Core.Option.{Option, none, some}
use mathlib.Core.Path.{◌≡◌, refl}
use native.Mathlib.Omega.{arith}
use wealth.Prelude.Tests.{==_iff, ==_refl, Bool-cases, Comparable, if◌then◌else◌, ◌==◌}

abbrev pub value_or {ℓ} : {A : Type ℓ} → A → Option A → A
value_or d none = d
value_or d (some a) = a

-- The keys of a table are compared, and its entries stand in some order.
module _ {ℓ κ} {K : Type ℓ} {V : Type κ} ⦃c : Comparable K⦄ where
  -- `delete(m, key)`
  unfoldable pub delete : K → List (K × V) → List (K × V)
  delete key [] = []
  delete key ((k, v) ∷ rest) = if k == key then delete key rest else (k, v) ∷ delete key rest

  -- `m[key] = new`
  unfoldable pub insert : K → V → List (K × V) → List (K × V)
  insert key new [] = (key, new) ∷ []
  insert key new ((k, v) ∷ rest) =
      if k == key then (key, new) ∷ rest else (k, v) ∷ insert key new rest

  -- `m[key]` with its `ok`
  unfoldable pub lookup : K → List (K × V) → Option V
  lookup key [] = none
  lookup key ((k, v) ∷ rest) = if k == key then some v else lookup key rest

  -- `m[key]`, with the zero value for a missing key
  unfoldable pub get_or : K → V → List (K × V) → V
  get_or key zero_value [] = zero_value
  get_or key zero_value ((k, v) ∷ rest) = if k == key then v else get_or key zero_value rest

  -- Each key stands once, as in a Go map.
  abbrev pub IsMap : List (K × V) → Type κ
  IsMap [] = Unit
  IsMap ((k, v) ∷ rest) = (lookup k rest ≡ none) × IsMap rest

  pub lookup-delete :
      (key other : K) (rest : List (K × V))
      → lookup other (delete key rest) ≡ (if key == other then none else lookup other rest)
  unfolding lookup delete
  lookup-delete key other [] = ground arith
  lookup-delete key other ((k, v) ∷ rest) =
      ground (arith, lookup-delete key other rest, ==_iff k key, ==_iff k other, ==_iff key other)

  pub lookup-insert :
      (key other : K) (new : V) (rest : List (K × V))
      → lookup other (insert key new rest) ≡ (if key == other then some new else lookup other rest)
  unfolding lookup insert
  lookup-insert key other new [] = refl
  lookup-insert key other new ((k, v) ∷ rest) =
      ground
        (arith, lookup-insert key other new rest, ==_iff k key, ==_iff k other, ==_iff key other)

  pub lookup-insert_self :
      (key : K) (new : V) (rest : List (K × V)) → lookup key (insert key new rest) ≡ some new
  lookup-insert_self key new rest = ground (arith, lookup-insert key key new rest, ==_refl key)

  pub get_or-lookup :
      (key : K) (d : V) (rest : List (K × V)) → get_or key d rest ≡ value_or d (lookup key rest)
  unfolding get_or lookup
  get_or-lookup key d [] = refl
  get_or-lookup key d ((k, v) ∷ rest) = ground (arith, get_or-lookup key d rest)

  pub get_or-insert :
      (key other : K) (d new : V) (rest : List (K × V))
      → get_or other d (insert key new rest) ≡ (if key == other then new else get_or other d rest)
  get_or-insert key other d new rest = ground (
    arith,
    get_or-lookup other d (insert key new rest),
    get_or-lookup other d rest,
    lookup-insert key other new rest,
  )

  pub get_or-delete :
      (key other : K) (d : V) (rest : List (K × V))
      → get_or other d (delete key rest) ≡ (if key == other then d else get_or other d rest)
  get_or-delete key other d rest = ground (
    arith,
    get_or-lookup other d (delete key rest),
    get_or-lookup other d rest,
    lookup-delete key other rest,
  )

  pub insert-IsMap :
      (key : K) (new : V) (rest : List (K × V)) → IsMap rest → IsMap (insert key new rest)
  unfolding insert
  insert-IsMap key new [] u = (unfold lookup in refl, tt)
  insert-IsMap key new ((k, v) ∷ rest) (once, u) = elim (Bool-cases (k == key)) [
    | inl e ↦ rw (e, ← (==_iff k key).0 e) (once, u)
    | inr n ↦ rw n (
      rw (lookup-insert key k new rest) (ground (arith, ==_iff key k, ==_iff k key)),
      insert-IsMap key new rest u,
    )
  ]

  pub delete-IsMap : (key : K) (rest : List (K × V)) → IsMap rest → IsMap (delete key rest)
  unfolding delete
  delete-IsMap key [] u = tt
  delete-IsMap key ((k, v) ∷ rest) (once, u) = elim (Bool-cases (k == key)) [
    | inl e ↦ rw e (delete-IsMap key rest u)
    | inr n ↦ rw n (rw (lookup-delete key k rest) (ground arith), delete-IsMap key rest u)
  ]
