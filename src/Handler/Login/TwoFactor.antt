-- ===== src/Handler/Login/TwoFactor.antt =====
-- A login with a second factor.
use wealth.Prelude.{
  Bool, Text, arith, false, if◌then◌else◌, insert, is_empty, length, lookup, lookup-insert_self,
  not, refl, some, true, ℕ, ◌&&◌, ◌≡◌, text_eq,
}
use wealth.Auth.Limiter.{LoginLimiter, allow}
use wealth.Auth.Token.{session_cookie_for_user}
use wealth.Auth.Secrets.{IsCipher, decrypt-encrypt, encrypt_secret}
use wealth.Handler.Users.{
  Services, User, UserTable, enable_totp, get_user_by_username, handle, set_totp_secret, setup_totp,
  verify_totp,
}
use wealth.Handler.Users.Enrolled.{
  get_user_by_username-insert, get_user_by_username-username, handle-setup, handle-verify,
}
use wealth.Handler.Login.{
  Credentials, authenticate, check_user, handle_login, has_valid_code, judge, known, lacks_code,
  seconds, signed_in, too_many_attempts, totp_required,
}

module _ (services : Services) (ok : IsCipher services.cipher) (nonce secret : Text)
    (fits : length nonce ≡ services.cipher.nonce_size) where
  -- The code of the login is judged by the secret that was set up.
  has_valid_code-with_secret :
      (now : ℕ) (code : Text) (user : User)
      → has_valid_code services now code
          (enable_totp (set_totp_secret (encrypt_secret services.cipher nonce secret) user))
        ≡ (not (is_empty code) && services.validate now code secret)
  unfolding has_valid_code
  has_valid_code-with_secret now code user =
      rw (has_valid_code, decrypt-encrypt services.cipher ok nonce secret fits) refl

  -- What a login answers, for a right password and a second factor.
  abbrev pub is_second_factor : ℕ → Text → Bool
  is_second_factor now code = not (is_empty code) && services.validate now code secret

  module _ (mac : Text → Text) (admin_hash : Text) where
    authenticate-enrolled :
        (now : ℕ) (c : Credentials) (id : Text) (user : User) (users : UserTable)
        → is_empty c.username ≡ false
        → get_user_by_username c.username users
          ≡ some
              (id, enable_totp (set_totp_secret (encrypt_secret services.cipher nonce secret) user))
        → user.is_active ≡ true
        → services.compare_hash_and_password user.password_hash c.password ≡ true
        → authenticate services mac admin_hash now c users
          ≡ (if is_second_factor now c.totp_code then known id else lacks_code)
    unfolding authenticate check_user judge
    authenticate-enrolled now c id user users named found active right =
        ground (arith, named, found, active, right, has_valid_code-with_secret now c.totp_code user)

    -- Let a user set up a second factor and verify it with a code that is valid for the new secret
    -- at that time. Then a login with the user's name and password, from an address that is not
    -- limited, is signed in as the user if it brings a code that is valid for the secret at the time
    -- of the login, and is otherwise asked for one.
    pub handle_login-two_factor :
        (param id first : Text) (user : User) (users : UserTable) (c : Credentials)
        (set_up_at verified_at now : ℕ) (ip : Text) (l : LoginLimiter)
        → services.parse_uuid param ≡ some id
        → lookup id users ≡ some user
        → get_user_by_username c.username users ≡ some (id, user)
        → is_empty c.username ≡ false
        → user.is_active ≡ true
        → services.compare_hash_and_password user.password_hash c.password ≡ true
        → services.validate verified_at first secret ≡ true
        → let (set_up, s) =
            handle services set_up_at (some id) (setup_totp param nonce secret) users in
          let (enrolled, v) =
            handle services verified_at (some id) (verify_totp param (some first)) set_up in
          (s ≡ 200)
          × (v ≡ 200)
          × ((handle_login services mac admin_hash now ip (some c) enrolled l).1 ≡ (
              if (allow l now ip).1
              then (if is_second_factor now c.totp_code
                  then signed_in (session_cookie_for_user mac (seconds now) id)
                  else totp_required)
              else too_many_attempts))
    unfolding handle_login
    handle_login-two_factor param id first user users c set_up_at verified_at now ip l parsed found
          named given active right valid =
        let with : User = set_totp_secret (encrypt_secret services.cipher nonce secret) user in
        let once = lookup-insert_self id with users in
        let name = get_user_by_username-username c.username id user users named in
        let named' = get_user_by_username-insert c.username id user with users found named name in
        let named'' =
          get_user_by_username-insert c.username id with (enable_totp with) (insert id with users)
            once named' name in
        rw
          (
            handle-setup services ok nonce secret fits param id user users parsed found set_up_at,
            handle-verify services ok nonce secret fits verified_at param id first user
                (insert id with users) parsed once valid,
          )
          (
            refl,
            refl,
            ground (
              arith,
              authenticate-enrolled now c id user
                  (insert id (enable_totp with) (insert id with users)) given named'' active right,
            ),
          )
