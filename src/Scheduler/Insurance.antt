-- ===== src/Scheduler/Insurance.antt =====
-- `checkDepositInsurance` of internal/scheduler/jobs.go: the institutions that are warned of. A month is
-- a number that counts the years in.
use wealth.Prelude.{
  Bool, List, Option, Text, [], any, get_or, has_prefix, if◌then◌else◌, insert, lit, none, same,
  some, ℕ, ◌&&◌, ◌++◌, ◌==◌, ◌||◌, ◌∷◌, text_eq, nat_eq,
}
use wealth.Prelude.Float.{Float64, nought, ◌<?◌, ◌≤?◌, ◌⊕◌}

module _ (F : Type 0) where
  -- An account with its cash balance, if the query gives one.
  pub record BankAccount : Type 0 where
    pub type : Text
    pub institution : Text
    pub balance : Option F

  -- The message of a notification: more than the limit, or close to it.
  pub record DepositWarning : Type 0 where
    pub institution : Text
    pub cash : F
    pub exceeds : Bool

pub record Notification : Type 0 where
  pub message : Text
  pub month : ℕ

abbrev pub has_cash : Text → Bool
has_cash type =
    same type (lit "checking") || same type (lit "savings") || same type (lit "brokerage")

-- A notification of this month with the prefix of the institution.
unfoldable pub already_sent : ℕ → Text → List Notification → Bool
already_sent month inst existing =
    any (λ n. has_prefix n.message (lit "[Deposit Insurance] " ++ inst) && (n.month == month))
      existing

module _ {F : Type 0} ⦃f : Float64 F⦄ where
  abbrev with_account : BankAccount F → List (Text × F) → List (Text × F)
  with_account a cash = elim a.balance [
    | none ↦ cash
    | some balance ↦
        if has_cash a.type
        then insert a.institution (get_or a.institution nought cash ⊕ balance) cash
        else cash
  ]

  -- `instCash`
  unfoldable pub cash_by_institution : List (BankAccount F) → List (Text × F) → List (Text × F)
  cash_by_institution [] cash = cash
  cash_by_institution (a ∷ accounts) cash = cash_by_institution accounts (with_account a cash)

  unfoldable pub warn_all : ℕ → List Notification → List (Text × F) → List (DepositWarning F)
  unfolding already_sent
  warn_all month existing [] = []
  warn_all month existing ((inst, cash) ∷ rest) =
      let others = warn_all month existing rest in
      if (cash <? f.literal 80000 0) || already_sent month inst existing
      then others
      else record { institution = inst; cash = cash; exceeds = f.literal 100000 0 ≤? cash } ∷ others

  unfoldable pub check_deposit_insurance :
      ℕ → List Notification → List (BankAccount F) → List (DepositWarning F)
  unfolding cash_by_institution warn_all
  check_deposit_insurance month existing accounts =
      warn_all month existing (cash_by_institution accounts [])
