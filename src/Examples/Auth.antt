-- ===== src/Examples/Auth.antt =====
-- internal/auth
use mathlib.Core.List.{reverse}
use wealth.Prelude.{
  List, Text, [], arith, delete, false, get_or, if◌then◌else◌, insert, keep, leb, length, lit, ltb,
  none, refl, same, some, ℕ, ◌++◌, ◌+◌, ◌<◌, ◌∷◌, ◌≡◌, text_eq, nat_eq,
}
use wealth.Auth.Decimal.{natural, negative, print_decimal, scan_int64}
use wealth.Auth.Limiter.{allow, is_live, new_login_limiter}
use wealth.Auth.Limiter.Window.{Event, allow-run, checked, cleared, failed, failures, run}
use wealth.Auth.Token.{
  parse_payload, session_cookie_for_user, session_duration, sign_token_with_user,
  user_id_from_request, validate_session, verify_token_with_user,
}
use wealth.Auth.Token.RoundTrip.{verify-sign}
use wealth.Auth.Token.Authentic.{session-cookie, verify_sound}

abbrev home : Text
home = lit "10.0.0.7"

-- Two failures, a check that prunes the first, another address, and a reset of that address.
abbrev attempts_seen : List Event
attempts_seen =
    failed 100 home
    ∷ failed 130 (lit "10.0.0.8")
    ∷ failed 150 home
    ∷ checked 170 home
    ∷ cleared (lit "10.0.0.8")
    ∷ failed 180 home
    ∷ []

allow_after : (allow (run (new_login_limiter 2 60) attempts_seen) 190 home).1 ≡ false
unfolding allow run new_login_limiter same get_or insert delete
allow_after = refl

allow-run_example :
    (allow (run (new_login_limiter 2 60) attempts_seen) 190 home).1
    ≡ ltb (length (keep (is_live 60 190) (failures home [] attempts_seen))) 2
allow-run_example = allow-run 2 60 attempts_seen 190 home (omega arith)

-- A stand-in for the signature.
abbrev backwards : Text → Text
backwards = reverse

abbrev user : Text
user = lit "5f0c-77"

printed : print_decimal 1764158955 ≡ lit "1764158955"
unfolding print_decimal
printed = refl

scanned :
    (scan_int64 (lit " +42abc") ≡ some (natural 42))
    × (scan_int64 (lit "-1") ≡ some (negative 0))
    × (scan_int64 (lit "x1") ≡ none)
    × (scan_int64 (lit "9223372036854775808") ≡ none)
unfolding scan_int64
scanned = (refl, refl, refl, refl)

verify-sign_example :
    verify_token_with_user backwards 1000 (sign_token_with_user backwards 2000 user)
    ≡ (if leb 2000 1000 then none else some user)
verify-sign_example = verify-sign backwards 1000 2000 user (unfold same in refl) (omega arith)

accepted :
    verify_token_with_user backwards 1000 (sign_token_with_user backwards 2000 user) ≡ some user
accepted = verify-sign_example

verify_sound_example :
    let token = sign_token_with_user backwards 2000 user in
    (payload : Text) × (token ≡ payload ++ (b':' ∷ backwards payload))
    × ((expiry : ℕ) × (parse_payload payload ≡ some (user, natural expiry)) × (1000 < expiry))
verify_sound_example =
    verify_sound backwards 1000 (sign_token_with_user backwards 2000 user) user accepted

session-cookie_example :
    let cookie = some (session_cookie_for_user backwards 1000 user) in
    (validate_session backwards 5000 cookie ≡ ltb 5000 (1000 + session_duration))
    × (user_id_from_request backwards 5000 cookie
        ≡ (if ltb 5000 (1000 + session_duration) then user else []))
session-cookie_example = session-cookie backwards 1000 5000 user refl (omega arith)
