-- ===== src/Auth/Token.antt =====
-- internal/auth/auth.go: session tokens `user|expiry:signature`. `mac` is the signature of a
-- payload under the session key, as hexadecimal digits: HMAC with SHA-256, from Go's library. Times are
-- in seconds since 1970, not before.
pub mod RoundTrip
pub mod Authentic
use wealth.Prelude.{
  Bool, Option, Text, [], false, if◌then◌else◌, leb, none, some, true, ℕ, ◌*◌, ◌++◌, ◌+◌, ◌==◌, ◌∷◌,
  text_eq, nat_eq,
}
use wealth.Auth.Decimal.{Int64, natural, negative, print_decimal, scan_int64}

-- 30 days
abbrev pub session_duration : ℕ
session_duration = 30 * 24 * 3600

-- `strings.SplitN(token, sep, 2)`, if it has two parts
unfoldable pub split_first : ℕ → Text → Option (Text × Text)
split_first sep [] = none
split_first sep (c ∷ s) =
    let rest = split_first sep s in
    if c == sep then some ([], s) else elim rest [ none ↦ none | some (a, b) ↦ some (c ∷ a, b) ]

-- The parts before and behind `strings.LastIndex(s, sep)`
unfoldable pub split_last : ℕ → Text → Option (Text × Text)
split_last sep [] = none
split_last sep (c ∷ s) = elim (split_last sep s) [
  | none ↦ if c == sep then some ([], s) else none
  | some (a, b) ↦ some (c ∷ a, b)
]

abbrev with_expiry : Text → Option Int64 → Option (Text × Int64)
with_expiry user none = none
with_expiry user (some e) = some (user, e)

-- `user_id|expiry`, or `expiry` alone in a token of the older form
unfoldable pub parse_payload : Text → Option (Text × Int64)
unfolding split_last
parse_payload payload = elim (split_last b'|' payload) [
  | none ↦ with_expiry [] (scan_int64 payload)
  | some (user, expiry) ↦ with_expiry user (scan_int64 expiry)
]

-- `time.Now().Unix() >= expiryUnix`
abbrev pub is_expired : ℕ → Int64 → Bool
is_expired now (natural e) = leb e now
is_expired now (negative e) = true

abbrev pub unless_expired : ℕ → Option (Text × Int64) → Option Text
unless_expired now none = none
unless_expired now (some (user, e)) = if is_expired now e then none else some user

module _ (mac : Text → Text) where
  unfoldable pub sign_token_with_user : ℕ → Text → Text
  sign_token_with_user expiry user =
      let payload = user ++ (b'|' ∷ print_decimal expiry) in payload ++ (b':' ∷ mac payload)

  unfoldable pub verify_token_with_user : ℕ → Text → Option Text
  unfolding split_first parse_payload
  verify_token_with_user now token = elim (split_first b':' token) [
    | none ↦ none
    | some (payload, sig) ↦
        if sig == mac payload then unless_expired now (parse_payload payload) else none
  ]

  -- The value of the cookie that `SetSessionCookieForUser` sets.
  unfoldable pub session_cookie_for_user : ℕ → Text → Text
  session_cookie_for_user now user = sign_token_with_user (now + session_duration) user

  -- The cookie of the request, if it has one.
  unfoldable pub validate_session : ℕ → Option Text → Bool
  validate_session now none = false
  validate_session now (some cookie) = elim (verify_token_with_user now cookie) [
    | none ↦ false
    | some _ ↦ true
  ]

  unfoldable pub user_id_from_request : ℕ → Option Text → Text
  user_id_from_request now none = []
  user_id_from_request now (some cookie) = elim (verify_token_with_user now cookie) [
    | none ↦ []
    | some user ↦ user
  ]
