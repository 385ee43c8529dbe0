-- ===== src/Auth/Token/RoundTrip.antt =====
-- A token that was signed is accepted until it expires.
use wealth.Prelude.{
  ==_iff, Text, [], arith, contains, false, if◌then◌else◌, leb, none, refl, some, ℕ, ◌++◌, ◌<◌, ◌^◌,
  ◌∷◌, ◌≡◌, text_eq, nat_eq,
}
use wealth.Auth.Decimal.{print_decimal, print_decimal-has_no, scan_int64-print_decimal}
use wealth.Auth.Token.{sign_token_with_user, split_first, split_last, verify_token_with_user}

split_first-append :
    (sep : ℕ) (s t : Text) → contains s sep ≡ false → split_first sep (s ++ (sep ∷ t)) ≡ some (s, t)
unfolding split_first
split_first-append sep [] t h = ground arith
split_first-append sep (c ∷ s) t h = ground (arith, split_first-append sep s t)

split_last-none : (sep : ℕ) (s : Text) → contains s sep ≡ false → split_last sep s ≡ none
unfolding split_last
split_last-none sep [] h = refl
split_last-none sep (c ∷ s) h = ground (arith, split_last-none sep s)

split_last-append :
    (sep : ℕ) (s t : Text) → contains t sep ≡ false → split_last sep (s ++ (sep ∷ t)) ≡ some (s, t)
unfolding split_last
split_last-append sep [] t h = ground (arith, split_last-none sep t h)
split_last-append sep (c ∷ s) t h = ground (arith, split_last-append sep s t h)

contains-append :
    (c : ℕ) (s t : Text) → contains s c ≡ false → contains t c ≡ false → contains (s ++ t) c ≡ false
contains-append c [] t h k = k
contains-append c (d ∷ s) t h k = ground (arith, contains-append c s t)

module _ (mac : Text → Text) where
  -- A token signed for a user whose identifier has no colon, with an expiry below 2 ^ 63, is verified
  -- as that user's before its expiry, and refused from then on.
  pub verify-sign :
      (now expiry : ℕ) (user : Text)
      → contains user b':' ≡ false
      → expiry < 2 ^ 63
      → verify_token_with_user mac now (sign_token_with_user mac expiry user)
        ≡ (if leb expiry now then none else some user)
  unfolding verify_token_with_user sign_token_with_user
  verify-sign now expiry user no_colon fits =
      let payload = user ++ (b'|' ∷ print_decimal expiry) in
      ground (
        arith,
        split_first-append b':' payload (mac payload),
        contains-append b':' user (b'|' ∷ print_decimal expiry) no_colon,
        print_decimal-has_no b':' expiry refl,
        print_decimal-has_no b'|' expiry refl,
        split_last-append b'|' user (print_decimal expiry),
        scan_int64-print_decimal expiry fits,
        ==_iff (mac payload) (mac payload),
      )
