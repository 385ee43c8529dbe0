-- ===== src/Handler/Users/Enrolled.antt =====
-- Two-factor codes are set up and verified by the user.
use wealth.Prelude.{
  Bool-cases, Text, [], arith, false, inl, inr, insert, is_empty, length, lookup, refl, same,
  same_refl, some, true, ℕ, ◌∷◌, ◌≡◌, text_eq,
}
use wealth.Auth.Secrets.{IsCipher, decrypt-encrypt, encrypt_secret}
use wealth.Handler.Users.{
  Services, User, UserTable, check_code, enable_totp, get_user_by_username, handle, set_totp_secret,
  setup_totp, verify_totp,
}

pub get_user_by_username-username :
    (username id : Text) (user : User) (users : UserTable)
    → get_user_by_username username users ≡ some (id, user)
    → same user.username username ≡ true
unfolding get_user_by_username
get_user_by_username-username username id user [] g = absurd (ground (arith, g))
get_user_by_username-username username id user ((k, v) ∷ users) g =
    elim (Bool-cases (same v.username username)) [
      | inl y ↦ ground (arith, y, g)
      | inr n ↦ get_user_by_username-username username id user users (ground (arith, n, g))
    ]

-- A change that keeps the name is found under the name.
pub get_user_by_username-insert :
    (username id : Text) (user new : User) (users : UserTable)
    → lookup id users ≡ some user
    → get_user_by_username username users ≡ some (id, user)
    → same new.username username ≡ true
    → get_user_by_username username (insert id new users) ≡ some (id, new)
unfolding get_user_by_username lookup insert
get_user_by_username-insert username id user new [] l g name = absurd (ground (arith, g))
get_user_by_username-insert username id user new ((k, v) ∷ users) l g name =
    elim (Bool-cases (same k id)) [
      | inl y ↦ rw (y, name) refl
      | inr n ↦ elim (Bool-cases (same v.username username)) [
        | inl y ↦ absurd (ground (arith, n, y, g, same_refl id))
        | inr m ↦
            rw (n, m)
              (get_user_by_username-insert username id user new users (ground (arith, n, l))
                (ground (arith, m, g)) name)
      ]
    ]

module _ (services : Services) (ok : IsCipher services.cipher) (nonce secret : Text)
    (fits : length nonce ≡ services.cipher.nonce_size) where
  abbrev pub with_secret : User → User
  with_secret user = set_totp_secret (encrypt_secret services.cipher nonce secret) user

  module _ (param id : Text) (user : User) (users : UserTable)
      (parsed : services.parse_uuid param ≡ some id) (found : lookup id users ≡ some user) where
    pub handle-setup :
        (now : ℕ)
        → handle services now (some id) (setup_totp param nonce secret) users
          ≡ (insert id (with_secret user) users, 200)
    unfolding handle
    handle-setup now = ground (arith, parsed, found, same_refl id)

  stored : is_empty (encrypt_secret services.cipher nonce secret) ≡ false
  unfolding encrypt_secret
  stored = refl

  check_code-with_secret :
      (now : ℕ) (code : Text) (user : User)
      → services.validate now code secret ≡ true
      → check_code services now code (with_secret user) ≡ 200
  check_code-with_secret now code user valid =
      rw (decrypt-encrypt services.cipher ok nonce secret fits, valid, stored) refl

  pub handle-verify :
      (now : ℕ) (param id code : Text) (user : User) (users : UserTable)
      → services.parse_uuid param ≡ some id
      → lookup id users ≡ some (with_secret user)
      → services.validate now code secret ≡ true
      → handle services now (some id) (verify_totp param (some code)) users
        ≡ (insert id (enable_totp (with_secret user)) users, 200)
  unfolding handle
  handle-verify now param id code user users parsed found valid =
      ground (arith, parsed, found, same_refl id, check_code-with_secret now code user valid)
