-- ===== src/Examples/Jobs.antt =====
-- internal/scheduler/jobs.go: `evaluateAlerts` and `checkDepositInsurance`
use wealth.Prelude.{
  String, [], false, get_or, has_prefix, insert, lit, lookup, none, refl, same, some, ℕ, ◌∷◌, ◌≡◌,
  text_eq, nat_eq,
}
use wealth.Prelude.Float.Fixed.{Fixed, fixed_float}
use wealth.Scheduler.Alerts.{PriceAlert, evaluate_alerts}
use wealth.Scheduler.Insurance.{BankAccount, check_deposit_insurance}

abbrev euro : ℕ → Fixed
euro n = fixed_float.literal n 0

abbrev alert : String → ℕ → PriceAlert Fixed
alert type threshold = record {
  id = lit "a";
  alert_type = lit type;
  security_isin = some (lit "US0378331005");
  security_name = none;
  threshold = euro threshold;
}

triggered :
    evaluate_alerts
      (record { isin = lit "US0378331005"; close = some (euro 200) } ∷ [])
      none
      (alert "price_above" 200 ∷ alert "price_below" 199 ∷ alert "portfolio_milestone" 1 ∷ [])
    ≡ record { alert = alert "price_above" 200; name = lit "US0378331005"; value = euro 200 } ∷ []
unfolding evaluate_alerts same lookup insert
triggered = refl

abbrev account : String → ℕ → BankAccount Fixed
account institution balance = record {
  type = lit "savings";
  institution = lit institution;
  balance = some (euro balance);
}

-- Two accounts of one institution count together.
near_limit :
    check_deposit_insurance 24311 []
      (account "ING" 60000 ∷ account "N26" 10000 ∷ account "ING" 20000 ∷ [])
    ≡ record { institution = lit "ING"; cash = euro 80000; exceeds = false } ∷ []
unfolding check_deposit_insurance same insert get_or
near_limit = refl

-- The warning of another institution whose name begins alike suppresses this one.
suppressed :
    check_deposit_insurance 24311
      (record { message = lit "[Deposit Insurance] ING Austria: 90.000 EUR"; month = 24311 } ∷ [])
      (account "ING" 150000 ∷ [])
    ≡ []
unfolding check_deposit_insurance same insert get_or has_prefix
suppressed = refl
