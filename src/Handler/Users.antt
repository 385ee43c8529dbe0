-- ===== src/Handler/Users.antt =====
-- internal/handler/users.go over the table of users in the order of its creation, by their ids. The
-- queries of internal/database/queries.sql are written out; the database answers each of them.
pub mod Enrolled
pub mod Members
use wealth.Prelude.{
  Bool, List, Option, Text, [], delete, false, if◌then◌else◌, inl, inr, insert, is_empty, lit,
  lookup, ltb, nat_beq, none, not, same, some, true, value_or, ℕ, ◌&&◌, ◌++◌, ◌+◌, ◌||◌, ◌∷◌, ◌⊎◌,
  text_eq,
}
use wealth.Auth.Secrets.{Cipher, decrypt_secret, encrypt_secret}

pub record User : Type 0 where
  pub username : Text
  pub password_hash : Text
  pub role : Text
  pub is_active : Bool
  pub totp_secret : Option Text
  pub totp_enabled : Bool

-- By the id, as `uuid.UUID.String` prints it.
abbrev pub UserTable : Type 0
UserTable = List (Text × User)

-- The packages `bcrypt`, `totp` and `uuid`, and the ciphers. A code is valid at a time, in nanoseconds
-- since 1970.
pub record Services : Type 0 where
  pub cipher : Cipher
  pub compare_hash_and_password : Text → Text → Bool
  pub generate_from_password : Text → Option Text
  pub validate : ℕ → Text → Text → Bool
  pub parse_uuid : Text → Option Text

-- The length in bytes of a string.
abbrev pub byte_length : Text → ℕ
byte_length [] = 0
byte_length (c ∷ s) =
    let rest = byte_length s in
    if ltb c 0x80
    then 1 + rest
    else if ltb c 0x800
    then 2 + rest
    else if ltb c 0x10000
    then 3 + rest
    else 4 + rest

-- `GetUserByUsername`
unfoldable pub get_user_by_username : Text → UserTable → Option (Text × User)
get_user_by_username username [] = none
get_user_by_username username ((id, user) ∷ users) =
    let rest = get_user_by_username username users in
    if same user.username username then some (id, user) else rest

-- `UPDATE users SET ... WHERE id = ...`
unfoldable pub update_user : Text → (User → User) → UserTable → UserTable
update_user id change users = elim (lookup id users) [
  | none ↦ users
  | some user ↦ insert id (change user) users
]

-- `SetUserTOTPSecret`, `EnableUserTOTP`, `DisableUserTOTP`, `UpdateUserActive`
abbrev pub set_totp_secret : Text → User → User
set_totp_secret secret user = record user { totp_secret = some secret }

abbrev pub enable_totp : User → User
enable_totp user = record user { totp_enabled = true }

abbrev pub disable_totp : User → User
disable_totp user = record user { totp_enabled = false; totp_secret = some [] }

abbrev pub set_active : Bool → User → User
set_active active user = record user { is_active = active }

-- The user of the session: none if the program runs without sessions, and empty if the session
-- has no user.
abbrev pub Caller : Type 0
Caller = Option Text

abbrev pub has_admin_role : Option User → Bool
has_admin_role none = false
has_admin_role (some user) = same user.role (lit "admin")

-- The requests, with what the handlers draw at random: the id of a new user, the secret and the
-- nonce of a setup. A body is none if its JSON is invalid.
pub data Request : Type 0 where
  create_user : Text → Option (Text × Text × Text) → Request
  delete_user toggle_user remove_totp : Text → Request
  setup_totp : Text → Text → Text → Request
  verify_totp : Text → Option Text → Request

module _ (services : Services) where
  -- Whether the id is that of a user with the role of an admin.
  abbrev pub is_admin_id : Text → UserTable → Bool
  is_admin_id id users = elim (services.parse_uuid id) [
    | none ↦ false
    | some uid ↦ has_admin_role (lookup uid users)
  ]

  unfoldable pub require_admin : Caller → UserTable → Bool
  require_admin none users = true
  require_admin (some id) users = is_empty id || is_admin_id id users

  unfoldable pub require_self_or_admin : Caller → Text → UserTable → Bool
  require_self_or_admin none target users = true
  require_self_or_admin (some id) target users =
      is_empty id || same id target || is_admin_id id users

  -- The user that is stored, if the request is valid, or the status that refuses it.
  abbrev new_user : Text × Text × Text → User ⊎ ℕ
  new_user (username, password, role) =
      let role' = if is_empty role then lit "member" else role in
      if is_empty username || is_empty password
      then inr 400
      else if not (same role' (lit "admin")) && not (same role' (lit "member"))
      then inr 400
      else if ltb (byte_length password) 8
      then inr 400
      else elim (services.generate_from_password password) [
        | none ↦ inr 500
        | some hash ↦ inl (record {
          username = username;
          password_hash = hash;
          role = role';
          is_active = true;
          totp_secret = some [];
          totp_enabled = false;
        })
      ]

  -- The insertion, which a name in use refuses.
  abbrev insert_user : Text → User ⊎ ℕ → UserTable → UserTable × ℕ
  insert_user fresh (inr status) users = (users, status)
  insert_user fresh (inl user) users = elim (get_user_by_username user.username users) [
    | none ↦ (users ++ (fresh, user) ∷ [], 201)
    | some _ ↦ (users, 409)
  ]

  abbrev handle_create_user : Text → Option (Text × Text × Text) → UserTable → UserTable × ℕ
  handle_create_user fresh none users = (users, 400)
  handle_create_user fresh (some body) users = insert_user fresh (new_user body) users

  -- The handlers of a user, as it is found.
  abbrev pub handle_toggle_user : Text → Option User → UserTable → UserTable × ℕ
  handle_toggle_user id none users = (users, 404)
  handle_toggle_user id (some user) users =
      (update_user id (set_active (not user.is_active)) users, 200)

  abbrev pub handle_setup_totp : Text → Text → Text → Option User → UserTable → UserTable × ℕ
  handle_setup_totp id nonce secret none users = (users, 404)
  handle_setup_totp id nonce secret (some user) users =
      (update_user id (set_totp_secret (encrypt_secret services.cipher nonce secret)) users, 200)

  -- The code against the secret that is stored, at the time of the request.
  abbrev pub check_code : ℕ → Text → User → ℕ
  check_code now code user =
      let stored = value_or [] user.totp_secret in
      if is_empty stored then 400 else elim (decrypt_secret services.cipher stored) [
        | none ↦ 500
        | some secret ↦ if services.validate now code secret then 200 else 401
      ]

  abbrev pub handle_verify_totp : ℕ → Text → Option Text → Option User → UserTable → UserTable × ℕ
  handle_verify_totp now id none found users = (users, 400)
  handle_verify_totp now id (some code) none users = (users, 404)
  handle_verify_totp now id (some code) (some user) users =
      let status = check_code now code user in
      if nat_beq status 200 then (update_user id enable_totp users, 200) else (users, status)

  -- A handler behind its guard.
  abbrev pub guarded : Bool → UserTable × ℕ → UserTable → UserTable × ℕ
  guarded allowed answer users = if allowed then answer else (users, 403)

  -- A handler of the user that the path names.
  abbrev pub with_id : Option Text → (Text → UserTable × ℕ) → UserTable → UserTable × ℕ
  with_id none handler users = (users, 400)
  with_id (some id) handler users = handler id

  -- Each request, at its time, with the table afterwards and the status of the answer.
  unfoldable pub handle : ℕ → Caller → Request → UserTable → UserTable × ℕ
  unfolding require_admin require_self_or_admin update_user get_user_by_username
  handle now caller (create_user fresh body) users =
      guarded (require_admin caller users) (handle_create_user fresh body users) users
  handle now caller (delete_user param) users =
      guarded (require_admin caller users)
        (with_id (services.parse_uuid param) (λ id. (delete id users, 200)) users) users
  handle now caller (toggle_user param) users =
      guarded (require_admin caller users)
        (with_id (services.parse_uuid param) (λ id. handle_toggle_user id (lookup id users) users)
          users)
        users
  handle now caller (setup_totp param nonce secret) users =
      with_id (services.parse_uuid param)
        (λ id.
          guarded (require_self_or_admin caller id users)
            (handle_setup_totp id nonce secret (lookup id users) users) users)
        users
  handle now caller (verify_totp param body) users =
      with_id (services.parse_uuid param)
        (λ id.
          guarded (require_self_or_admin caller id users)
            (handle_verify_totp now id body (lookup id users) users) users)
        users
  handle now caller (remove_totp param) users =
      with_id (services.parse_uuid param)
        (λ id.
          guarded (require_self_or_admin caller id users) (update_user id disable_totp users, 200)
            users)
        users
