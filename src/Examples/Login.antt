-- ===== src/Examples/Login.antt =====
-- internal/handler/auth.go, internal/handler/users.go and internal/auth/crypto.go
use wealth.Prelude.{
  List, Option, Text, [], arith, false, get_or, if◌then◌else◌, insert, is_empty, lit, lookup, none,
  refl, same, some, true, ℕ, ◌*◌, ◌/◌, ◌^◌, ◌∷◌, ◌≡◌, text_eq, nat_eq,
}
use mathlib.Core.List.{reverse}
use wealth.Auth.Limiter.{allow, new_login_limiter, record_failure}
use wealth.Auth.Token.{session_cookie_for_user}
use wealth.Auth.Secrets.{Cipher, IsCipher}
use wealth.Handler.Users.{
  Request, Services, User, UserTable, delete_user, get_user_by_username, handle, remove_totp,
  setup_totp, toggle_user, verify_totp,
}
use wealth.Handler.Users.Members.{IsKept, ask, ask-IsKept}
use wealth.Handler.Login.{Credentials, handle_login, login_limiter, signed_in}
use wealth.Handler.Login.Limited.{Attempt, handle_login-limited, is_too_many, login, serve}
use wealth.Handler.Login.TwoFactor.{handle_login-two_factor}

-- A stand-in for the ciphers: two runes of nonce, and the plain text.
abbrev plain : Cipher
plain = record {
  nonce_size = 2;
  seal = λ nonce text. text;
  unseal = λ nonce text. some text;
  encode = λ text. text;
  decode = λ text. some text;
}

plain-IsCipher : IsCipher plain
plain-IsCipher = record { opens = λ nonce text n. refl; decodes = λ text. refl }

-- The code of a secret starts with the number of the half minute, and the hash of a password is the password.
abbrev services : Services
services = record {
  cipher = plain;
  compare_hash_and_password = same;
  generate_from_password = λ password. some password;
  validate = λ now code secret. same code (now / (30 * 10 ^ 9) ∷ secret);
  parse_uuid = λ text. if is_empty text then none else some text;
}

abbrev person : Text → Text → Text → User
person username password role = record {
  username = username;
  password_hash = password;
  role = role;
  is_active = true;
  totp_secret = some [];
  totp_enabled = false;
}

abbrev ann : User
ann = person (lit "ann") (lit "secret-a") (lit "admin")

abbrev bob : User
bob = person (lit "bob") (lit "secret-b") (lit "member")

abbrev people : UserTable
people = (lit "u1", ann) ∷ (lit "u2", bob) ∷ []

abbrev sign : Text → Text
sign = reverse

abbrev home : Text
home = lit "10.0.0.7"

abbrev as_bob : Text → Text → Option Credentials
as_bob password code = some (record { username = lit "bob"; password = password; totp_code = code })

abbrev attempt : ℕ → Text → Attempt
attempt second password = record {
  now = second * 10 ^ 9;
  ip = home;
  body = as_bob password [];
  users = people;
}

abbrev guesses : List Attempt
guesses =
    attempt 10 (lit "a")
    ∷ attempt 20 (lit "b")
    ∷ attempt 30 (lit "c")
    ∷ attempt 40 (lit "d")
    ∷ attempt 50 (lit "e")
    ∷ []

-- The sixth login is refused, although its password is right.
handle_login-limited_example :
    is_too_many
      (login services sign
        (lit "root")
        (attempt 60 (lit "secret-b"))
        (serve services sign (lit "root") login_limiter guesses).0).1
    ≡ true
unfolding handle_login allow get_or new_login_limiter get_user_by_username same record_failure
    insert
handle_login-limited_example =
    handle_login-limited services sign (lit "root") guesses (attempt 60 (lit "secret-b"))
      (omega arith)

handle_login-two_factor_example :
    let (set_up, s) =
      handle services 0 (some (lit "u2")) (setup_totp (lit "u2") (lit "no") (lit "JBSW")) people in
    let (enrolled, v) =
      handle services 10
        (some (lit "u2"))
        (verify_totp (lit "u2") (some (0 ∷ lit "JBSW")))
        set_up in
    (s ≡ 200)
    × (v ≡ 200)
    × ((handle_login services sign
          (lit "root")
          (60 * 10 ^ 9)
          home
          (as_bob (lit "secret-b") (2 ∷ lit "JBSW"))
          enrolled
          login_limiter).1
        ≡ signed_in (session_cookie_for_user sign 60 (lit "u2")))
unfolding allow lookup same get_user_by_username get_or new_login_limiter
handle_login-two_factor_example =
    handle_login-two_factor services plain-IsCipher (lit "no") (lit "JBSW") refl sign (lit "root")
      (lit "u2") (lit "u2") (0 ∷ lit "JBSW") bob people
      (record { username = lit "bob"; password = lit "secret-b"; totp_code = 2 ∷ lit "JBSW" }) 0 10
      (60 * 10 ^ 9) home login_limiter refl refl refl refl refl refl refl

-- Bob asks to remove Ann, to stop her, and to drop her second factor and his own.
abbrev asked : List (ℕ × Request)
asked =
    (0, delete_user (lit "u1"))
    ∷ (0, toggle_user (lit "u1"))
    ∷ (0, remove_totp (lit "u1"))
    ∷ (0, remove_totp (lit "u2"))
    ∷ []

ask-IsKept_example : IsKept (lit "u2") (lit "u1") people (ask services (lit "u2") asked people)
unfolding lookup same
ask-IsKept_example = ask-IsKept services (lit "u2") asked people (refl, refl) (lit "u1")
