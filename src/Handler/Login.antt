-- ===== src/Handler/Login.antt =====
-- `HandleLogin` and `AuthMiddleware` of internal/handler/auth.go, over the limiter of failed logins,
-- the table of users and the session tokens. A time is a number of nanoseconds.
pub mod Limited
pub mod TwoFactor
use wealth.Prelude.{
  Bool, Option, Text, [], false, if◌then◌else◌, is_empty, none, not, some, trim_space, value_or, ℕ,
  ◌&&◌, ◌*◌, ◌/◌, ◌^◌, ◌∷◌, text_eq, nat_eq,
}
use wealth.Auth.Limiter.{LoginLimiter, allow, new_login_limiter, record_failure, reset}
use wealth.Auth.Token.{session_cookie_for_user, split_first, user_id_from_request, validate_session}
use wealth.Auth.Secrets.{decrypt_secret}
use wealth.Handler.Users.{Services, User, UserTable, get_user_by_username}

pub record Credentials : Type 0 where
  pub username : Text
  pub password : Text
  pub totp_code : Text

-- What a login answers: the statuses 429, 400, 401 twice, and 200 with the cookie.
pub data Answer : Type 0 where
  too_many_attempts invalid_body totp_required invalid_credentials : Answer
  signed_in : Text → Answer

-- What the table of users says of the credentials.
pub data Verdict : Type 0 where
  lacks_code unknown : Verdict
  known : Text → Verdict

-- `clientIP`: the first address of the header, or the remote address without its port.
unfoldable pub client_ip : Text → Text → Text
unfolding split_first
client_ip forwarded remote =
    if not (is_empty forwarded)
    then elim (split_first b',' forwarded) [
      | none ↦ trim_space forwarded
      | some (ip, _) ↦ trim_space ip
    ]
    else elim (split_first b':' remote) [ none ↦ remote | some (ip, _) ↦ ip ]

-- The user of the session without a user of this name: the first of all.
abbrev pub first_id : UserTable → Text
first_id [] = []
first_id ((id, _) ∷ _) = id

-- `time.Now().Unix()`
abbrev pub seconds : ℕ → ℕ
seconds now = now / 10 ^ 9

-- The limiter of `NewAuthHandler`: five failures in fifteen minutes.
abbrev pub login_limiter : LoginLimiter
login_limiter = new_login_limiter 5 (15 * 60 * 10 ^ 9)

module _ (services : Services) where
  unfoldable pub has_valid_code : ℕ → Text → User → Bool
  has_valid_code now code user =
      elim (decrypt_secret services.cipher (value_or [] user.totp_secret)) [
        | none ↦ false
        | some secret ↦ not (is_empty code) && services.validate now code secret
      ]

  -- What is said of a user with the name.
  unfoldable pub judge : ℕ → Credentials → Text × User → Verdict
  unfolding has_valid_code
  judge now c (id, user) =
      if user.is_active && services.compare_hash_and_password user.password_hash c.password
      then (if user.totp_enabled && not (has_valid_code now c.totp_code user)
          then lacks_code
          else known id)
      else unknown

  unfoldable pub check_user : ℕ → Credentials → UserTable → Verdict
  unfolding judge
  check_user now c users =
      if is_empty c.username then unknown else elim (get_user_by_username c.username users) [
        | none ↦ unknown
        | some found ↦ judge now c found
      ]

  -- `admin_hash` is the hash of the one password that the program is started with, and `mac` signs
  -- the cookie.
  module _ (mac : Text → Text) (admin_hash : Text) where
    unfoldable pub authenticate : ℕ → Credentials → UserTable → Verdict
    unfolding check_user
    authenticate now c users = elim (check_user now c users) [
      | lacks_code ↦ lacks_code
      | known id ↦ known id
      | unknown ↦
          if services.compare_hash_and_password admin_hash c.password
          then known (first_id users)
          else unknown
    ]

    abbrev pub answer : LoginLimiter → ℕ → Text → Verdict → LoginLimiter × Answer
    answer l now ip lacks_code = (l, totp_required)
    answer l now ip unknown = (record_failure l now ip, invalid_credentials)
    answer l now ip (known id) =
        (reset l ip, signed_in (session_cookie_for_user mac (seconds now) id))

    -- The body is none if its JSON is invalid.
    unfoldable pub handle_login :
        ℕ → Text → Option Credentials → UserTable → LoginLimiter → LoginLimiter × Answer
    unfolding authenticate
    handle_login now ip body users l =
        let (l', allowed) = allow l now ip in
        if allowed
        then elim body [
          | none ↦ (l', invalid_body)
          | some c ↦ answer l' now ip (authenticate now c users)
        ]
        else (l', too_many_attempts)

-- `AuthMiddleware`: the user of a request that is passed on, and none for a request that is refused.
unfoldable pub auth_middleware : (Text → Text) → ℕ → Option Text → Option Text
auth_middleware mac now cookie =
    if validate_session mac now cookie then some (user_id_from_request mac now cookie) else none
