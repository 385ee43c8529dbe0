-- ===== src/Scheduler/Backfill/History/Split.antt =====
-- The binary search ends between the points on or before the date and the others.
use wealth.Prelude.{
  All, Bool, Bool-cases, List, Option, [], ap, arith, false, get_elem?, inl, inr, leb, length, ltb,
  none, refl, some, suc, true, zero, ℕ, ◌+◌, ◌<◌, ◌∙◌, ◌∷◌, ◌≡◌, ◌≤◌, text_eq,
}
use wealth.Scheduler.Backfill.History.{Point, Search, middle, narrow, search, whole}

module _ {F : Type 0} where
  -- A history in the order of its dates.
  abbrev pub IsSorted : List (Point F) → Type 0
  IsSorted [] = Unit
  IsSorted (p ∷ ps) = All (λ q. p.date ≤ q.date) ps × IsSorted ps

  -- Whether the point at an index is on or before a date. Past the end there is none.
  abbrev pub is_before : ℕ → List (Point F) → ℕ → Bool
  is_before date [] i = false
  is_before date (p ∷ ps) zero = leb p.date date
  is_before date (p ∷ ps) (suc i) = is_before date ps i

  is_before-none :
      (date : ℕ) (ps : List (Point F)) (i : ℕ)
      → All (λ q. date < q.date) ps
      → is_before date ps i ≡ false
  is_before-none date [] i h = refl
  is_before-none date (p ∷ ps) zero (h, hs) = ground arith
  is_before-none date (p ∷ ps) (suc i) (h, hs) = is_before-none date ps i hs

  All-later :
      (a date : ℕ) (ps : List (Point F))
      → date < a
      → All (λ q. a ≤ q.date) ps
      → All (λ q. date < q.date) ps
  All-later a date [] l h = tt
  All-later a date (p ∷ ps) l (h, hs) = (omega arith, All-later a date ps l hs)

  -- In a sorted history no point behind one that is too new is on or before the date.
  pub is_before-sorted :
      (date : ℕ) (ps : List (Point F))
      → IsSorted ps
      → (i j : ℕ) → i ≤ j
      → is_before date ps i ≡ false
      → is_before date ps j ≡ false
  is_before-sorted date [] sorted i j le n = refl
  is_before-sorted date (p ∷ ps) (first, sorted) zero zero le n = n
  is_before-sorted date (p ∷ ps) (first, sorted) zero (suc j) le n =
      is_before-none date ps j (All-later p.date date ps (ground (arith, n)) first)
  is_before-sorted date (p ∷ ps) (first, sorted) (suc i) zero le n = absurd (omega arith)
  is_before-sorted date (p ∷ ps) (first, sorted) (suc i) (suc j) le n =
      is_before-sorted date ps sorted i j (omega arith) n

  get_elem?-in :
      (ps : List (Point F)) (i : ℕ) → i < length ps → (p : Point F) × (get_elem? ps i ≡ some p)
  get_elem?-in [] i h = absurd (omega arith)
  get_elem?-in (p ∷ ps) zero h = (p, refl)
  get_elem?-in (p ∷ ps) (suc i) h = get_elem?-in ps i (omega arith)

  is_before-get_elem? :
      (date : ℕ) (ps : List (Point F)) (i : ℕ) (p : Point F)
      → get_elem? ps i ≡ some p
      → is_before date ps i ≡ leb p.date date
  is_before-get_elem? date [] i p e = absurd (ground (arith, e))
  is_before-get_elem? date (q ∷ ps) zero p e = ground (arith, e)
  is_before-get_elem? date (q ∷ ps) (suc i) p e = is_before-get_elem? date ps i p e

  pub get_elem?-before :
      (date : ℕ) (ps : List (Point F)) (i : ℕ)
      → is_before date ps i ≡ true
      → (p : Point F) × (get_elem? ps i ≡ some p)
  get_elem?-before date [] i y = absurd (ground (arith, y))
  get_elem?-before date (p ∷ ps) zero y = (p, refl)
  get_elem?-before date (p ∷ ps) (suc i) y = get_elem?-before date ps i y

  is_before_end : (date : ℕ) (ps : List (Point F)) → is_before date ps (length ps) ≡ false
  is_before_end date [] = refl
  is_before_end date (p ∷ ps) = is_before_end date ps

  module _ (date : ℕ) (pts : List (Point F)) where
    -- `result` and `lo` in the loop.
    abbrev Agrees : ℕ → Option ℕ → Type 0
    Agrees lo none = lo ≡ 0
    Agrees lo (some i) = (lo ≡ suc i) × (is_before date pts i ≡ true)

    record Inv (s : Search) : Type 0 where
      ordered : s.lo ≤ s.top
      inside : s.top ≤ length pts
      below : Agrees s.lo s.result
      above : is_before date pts s.top ≡ false

    -- The index found is before the date, and the next one is not.
    abbrev pub IsSplit : Option ℕ → Type 0
    IsSplit none = is_before date pts 0 ≡ false
    IsSplit (some i) = (is_before date pts i ≡ true) × (is_before date pts (suc i) ≡ false)

    narrow-Inv :
        (s : Search)
        → Inv s
        → s.lo < s.top
        → (s' : Search) × (narrow pts date s ≡ some s') × Inv s' × (s'.top + s.lo < s.top + s'.lo)
    unfolding narrow
    narrow-Inv s inv h =
        let (p, e) = get_elem?-in pts (middle s) (ground (arith, inv.inside)) in
        let b = is_before-get_elem? date pts (middle s) p e in
        elim (Bool-cases (leb p.date date)) [
          | inl y ↦ (
            record s { lo = middle s + 1; result = some (middle s) },
            rw (narrow, e, y) refl,
            record {
              ordered = omega arith;
              inside = inv.inside;
              below = (omega arith, b ∙ y);
              above = inv.above;
            },
            omega arith,
          )
          | inr n ↦ (
            record s { top = middle s },
            rw (narrow, e, n) refl,
            record {
              ordered = omega arith;
              inside = omega (arith, inv.inside);
              below = inv.below;
              above = b ∙ n;
            },
            omega arith,
          )
        ]

    Agrees-IsSplit :
        (lo : ℕ) (r : Option ℕ) → Agrees lo r → is_before date pts lo ≡ false → IsSplit r
    Agrees-IsSplit lo none a n = rw a at n
    Agrees-IsSplit lo (some i) (a, y) n = (y, rw a at n)

    ended : (s : Search) → Inv s → ltb s.lo s.top ≡ false → IsSplit s.result
    ended s inv n =
        Agrees-IsSplit s.lo s.result inv.below
          (ap (is_before date pts) (ground (arith, n, inv.ordered)) ∙ inv.above)

    search-IsSplit :
        (fuel : ℕ) (s : Search)
        → Inv s
        → s.top ≤ s.lo + fuel
        → (r : Option ℕ) × (search fuel pts date s ≡ some r) × IsSplit r
    unfolding search
    search-IsSplit zero s inv enough =
        let n : ltb s.lo s.top ≡ false = ground arith in
        (s.result, rw (search, n) refl, ended s inv n)
    search-IsSplit (suc fuel) s inv enough = elim (Bool-cases (ltb s.lo s.top)) [
      | inl y ↦
          let (s', e, inv', less) = narrow-Inv s inv (ground (arith, y)) in
          let (r, found, split) = search-IsSplit fuel s' inv' (omega arith) in
          (r, rw (search, y, e) found, split)
      | inr n ↦ (s.result, rw (search, n) refl, ended s inv n)
    ]

    -- The loop from its start, with as many rounds as there are points.
    pub search-IsSplit-whole :
        (r : Option ℕ) × (search (length pts) pts date (whole pts) ≡ some r) × IsSplit r
    search-IsSplit-whole =
        search-IsSplit (length pts) (whole pts)
          (record {
            ordered = omega arith;
            inside = omega arith;
            below = refl;
            above = is_before_end date pts;
          })
          (omega arith)
