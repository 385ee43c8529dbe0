-- ===== src/Analytics/Performance.antt =====
-- internal/analytics/performance.go: time-weighted return and internal rate of return. A date is the
-- number of a day, and `pow` is `math.Pow`.
pub mod Periods
pub mod Bounds
use wealth.Prelude.{
  Bool, List, Option, [], false, get_or, if◌then◌else◌, insert, leb, length, ltb, none, not, some,
  suc, true, zero, ℕ, ◌*◌, ◌-◌, ◌||◌, ◌∷◌, nat_eq,
}
use wealth.Prelude.Float.{Float64, magnitude, negate, nought, ◌<?◌, ◌=?◌, ◌⊕◌, ◌⊖◌, ◌⊗◌, ◌⊘◌}

module _ (F : Type 0) where
  pub record CashFlow : Type 0 where
    pub date : ℕ
    pub amount : F

  pub record DailyValuation : Type 0 where
    pub date : ℕ
    pub value : F

  -- `period`
  pub record Period : Type 0 where
    pub start_value : F
    pub end_value : F
    pub net_flow : F

module _ {F : Type 0} ⦃f : Float64 F⦄ where
  -- `cfByDate`
  unfoldable pub flows_by_date : List (CashFlow F) → List (ℕ × F) → List (ℕ × F)
  flows_by_date [] table = table
  flows_by_date (cf ∷ cashflows) table =
      flows_by_date cashflows (insert cf.date (get_or cf.date nought table ⊕ cf.amount) table)

  abbrev pub is_last : List (DailyValuation F) → Bool
  is_last [] = true
  is_last _ = false

  -- The loop over the valuations behind the first.
  unfoldable pub split_from : List (ℕ × F) → List (DailyValuation F) → F → List (Period F)
  split_from flows [] start = []
  split_from flows (v ∷ valuations) start =
      let net_flow = get_or v.date nought flows in
      let closes = not (net_flow =? nought) || is_last valuations in
      let rest = split_from flows valuations (if closes then v.value else start) in
      if closes
      then record { start_value = start; end_value = v.value; net_flow = net_flow } ∷ rest
      else rest

  unfoldable pub split_by_cashflows : List (DailyValuation F) → List (CashFlow F) → List (Period F)
  unfolding split_from flows_by_date
  split_by_cashflows [] cashflows = []
  split_by_cashflows (v ∷ valuations) cashflows =
      split_from (flows_by_date cashflows []) valuations v.value

  unfoldable pub link_returns : List (Period F) → F → F
  link_returns [] twr = twr
  link_returns (p ∷ periods) twr = link_returns periods (
      if p.start_value =? nought
      then twr
      else twr ⊗ (f.literal 1 0 ⊕ (((p.end_value ⊖ p.start_value) ⊖ p.net_flow) ⊘ p.start_value)))

  unfoldable pub calculate_twr : List (DailyValuation F) → List (CashFlow F) → F
  unfolding split_by_cashflows link_returns
  calculate_twr valuations cashflows =
      if ltb (length valuations) 2
      then nought
      else link_returns (split_by_cashflows valuations cashflows) (f.literal 1 0) ⊖ f.literal 1 0

  -- `cf.Date.Sub(first).Hours() / (365.25 * 24)`, where the divisor is a constant
  abbrev years_since : ℕ → ℕ → F
  years_since first date =
      let hours =
        if leb first date
        then f.literal ((date - first) * 24) 0
        else negate (f.literal ((first - date) * 24) 0) in
      hours ⊘ f.literal 8766 0

  abbrev pub lowest : F
  lowest = negate (f.literal 99 2)

  abbrev pub highest : F
  highest = f.literal 5 0

  abbrev pub dampen : F → F
  dampen step =
      if f.literal 5 1 <? magnitude step then (f.literal 5 1 ⊗ step) ⊘ magnitude step else step

  abbrev pub clamp : F → F
  clamp rate =
      let above = if rate <? lowest then lowest else rate in
      if highest <? above then highest else above

  abbrev pub half_way : F × F → F
  half_way (lo, hi) = (lo ⊕ hi) ⊘ f.literal 2 0

  abbrev pub start_of : List (CashFlow F) → ℕ
  start_of [] = 0
  start_of (cf ∷ _) = cf.date

  module _ (pow : F → F → F) where
    abbrev discounted : ℕ → F → CashFlow F → F
    discounted first rate cf = cf.amount ⊘ pow (f.literal 1 0 ⊕ rate) (years_since first cf.date)

    -- `npv`, behind what is summed already
    unfoldable pub npv_from : ℕ → F → List (CashFlow F) → F → F
    npv_from first rate [] npv = npv
    npv_from first rate (cf ∷ cashflows) npv =
        npv_from first rate cashflows (npv ⊕ discounted first rate cf)

    -- `dnpv`, the derivative
    unfoldable pub dnpv_from : ℕ → F → List (CashFlow F) → F → F
    dnpv_from first rate [] dnpv = dnpv
    dnpv_from first rate (cf ∷ cashflows) dnpv =
        let t = years_since first cf.date in
        dnpv_from first rate cashflows
          (dnpv ⊕ ((negate t ⊗ cf.amount) ⊘ pow (f.literal 1 0 ⊕ rate) (t ⊕ f.literal 1 0)))

    -- One round, or none at its breaks.
    unfoldable pub newton_round : ℕ → List (CashFlow F) → F → Option F
    unfolding npv_from dnpv_from
    newton_round first cashflows rate =
        let npv = npv_from first rate cashflows nought in
        let dnpv = dnpv_from first rate cashflows nought in
        if magnitude npv <? f.literal 1 6
        then none
        else if dnpv =? nought
        then none
        else some (clamp (rate ⊖ dampen (npv ⊘ dnpv)))

    -- The loop, with the rounds that are left.
    unfoldable pub newton : ℕ → ℕ → List (CashFlow F) → F → F
    unfolding newton_round
    newton zero first cashflows rate = rate
    newton (suc n) first cashflows rate = elim (newton_round first cashflows rate) [
      | none ↦ rate
      | some rate' ↦ newton n first cashflows rate'
    ]

    -- A round of the bisection.
    unfoldable pub halve : ℕ → List (CashFlow F) → F × F → F × F
    unfolding npv_from
    halve first cashflows (lo, hi) =
        let mid = half_way (lo, hi) in
        if nought <? npv_from first mid cashflows nought then (mid, hi) else (lo, mid)

    unfoldable pub bisect : ℕ → ℕ → List (CashFlow F) → F × F → F × F
    unfolding halve
    bisect zero first cashflows range = range
    bisect (suc n) first cashflows range =
        let range' = halve first cashflows range in
        let rest = bisect n first cashflows range' in
        if (range'.1 ⊖ range'.0) <? f.literal 1 6 then range' else rest

    unfoldable pub calculate_irr : List (CashFlow F) → F → F
    unfolding newton bisect
    calculate_irr cashflows guess =
        let first = start_of cashflows in
        let rate = newton 200 first cashflows guess in
        if ltb (length cashflows) 2
        then nought
        else if f.literal 1 0 <? magnitude (npv_from first rate cashflows nought)
        then half_way (bisect 100 first cashflows (negate (f.literal 5 1), f.literal 2 0))
        else rate
