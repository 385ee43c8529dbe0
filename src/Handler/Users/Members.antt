-- ===== src/Handler/Users/Members.antt =====
-- What a user who is no admin can change.
use wealth.Prelude.{
  ==_iff, Bool-cases, List, Option, Option-cases, Text, [], ap, false, inl, inr, is_empty, lookup,
  lookup-insert, nat_beq, none, refl, same, same_iff, some, sym, ℕ, ◌==◌, ◌∙◌, ◌∷◌, ◌≡◌, ◌⊎◌,
  text_eq,
}
use wealth.Auth.Secrets.{encrypt_secret}
use wealth.Handler.Users.{
  Request, Services, User, UserTable, check_code, create_user, delete_user, disable_totp,
  enable_totp, guarded, handle, handle_setup_totp, handle_verify_totp, has_admin_role, is_admin_id,
  remove_totp, require_admin, require_self_or_admin, set_totp_secret, setup_totp, toggle_user,
  update_user, verify_totp, with_id,
}

-- A user without the second factor.
abbrev pub account : User → User
account user = record user { totp_secret = none; totp_enabled = false }

abbrev pub account_of : Option User → Option User
account_of none = none
account_of (some user) = some (account user)

-- At `key` nothing but the second factor differs, and nothing at all if it is not `id`.
abbrev pub IsKept : Text → Text → UserTable → UserTable → Type 0
IsKept id key users after =
    (account_of (lookup key after) ≡ account_of (lookup key users))
    × ((key ≡ id) ⊎ (lookup key after ≡ lookup key users))

IsKept-trans :
    (id key : Text) (a b c : UserTable) → IsKept id key a b → IsKept id key b c → IsKept id key a c
IsKept-trans id key a b c (p, _) (q, inl e) = (q ∙ p, inl e)
IsKept-trans id key a b c (p, inl e) (q, inr _) = (q ∙ p, inl e)
IsKept-trans id key a b c (p, inr e) (q, inr d) = (q ∙ p, inr (d ∙ e))

update_user-IsKept :
    (id key : Text) (change : User → User) (users : UserTable)
    → ((user : User) → account (change user) ≡ account user)
    → IsKept id key users (update_user id change users)
unfolding update_user
update_user-IsKept id key change users same_account = elim (Option-cases (lookup id users)) [
  | inl n ↦ rw (update_user, n) (refl, inr refl)
  | inr (user, e) ↦
      rw (update_user, e, lookup-insert id key (change user) users)
        (elim (Bool-cases (id == key)) [
          | inl y ↦ rw (y, ← (==_iff id key).0 y, e) (ap some (same_account user), inl refl)
          | inr n ↦ rw n (refl, inr refl)
        ])
]

module _ (services : Services) (id : Text) where
  -- A session of a user who is no admin.
  abbrev pub IsMember : UserTable → Type 0
  IsMember users = (is_empty id ≡ false) × (is_admin_id services id users ≡ false)

  has_admin_role-account_of : (o : Option User) → has_admin_role (account_of o) ≡ has_admin_role o
  has_admin_role-account_of none = refl
  has_admin_role-account_of (some user) = refl

  module _ (users : UserTable) (member : IsMember users) (key : Text) where
    guarded-IsKept :
        (target : Text) (answer : UserTable × ℕ)
        → IsKept target key users answer.0
        → IsKept id key users
            (guarded services
              (require_self_or_admin services (some id) target users)
              answer
              users).0
    unfolding require_self_or_admin
    guarded-IsKept target answer kept = elim (Bool-cases (same id target)) [
      | inl y ↦ rw (require_self_or_admin, member.0, y, (same_iff id target).0 y) kept
      | inr n ↦ rw (require_self_or_admin, member.0, member.1, n) (refl, inr refl)
    ]

    with_id-IsKept :
        (param : Option Text) (handler : Text → UserTable × ℕ)
        → ((target : Text) → IsKept target key users (handler target).0)
        → IsKept id key users
            (with_id services param
              (λ target.
                guarded services
                  (require_self_or_admin services (some id) target users)
                  (handler target)
                  users)
              users).0
    with_id-IsKept none handler kept = (refl, inr refl)
    with_id-IsKept (some target) handler kept = guarded-IsKept target (handler target) (kept target)

    setup-IsKept :
        (nonce secret target : Text) (found : Option User)
        → IsKept target key users (handle_setup_totp services target nonce secret found users).0
    setup-IsKept nonce secret target none = (refl, inr refl)
    setup-IsKept nonce secret target (some user) =
        update_user-IsKept target key
          (set_totp_secret (encrypt_secret services.cipher nonce secret)) users (λ user. refl)

    verify-IsKept :
        (now : ℕ) (body : Option Text) (target : Text) (found : Option User)
        → IsKept target key users (handle_verify_totp services now target body found users).0
    verify-IsKept now none target found = (refl, inr refl)
    verify-IsKept now (some code) target none = (refl, inr refl)
    verify-IsKept now (some code) target (some user) =
        elim (Bool-cases (nat_beq (check_code services now code user) 200)) [
          | inl y ↦ rw y (update_user-IsKept target key enable_totp users (λ user. refl))
          | inr n ↦ rw n (refl, inr refl)
        ]

    handle-IsKept :
        (now : ℕ) (r : Request) → IsKept id key users (handle services now (some id) r users).0
    unfolding handle require_admin
    handle-IsKept now (create_user fresh body) =
        rw (require_admin, member.0, member.1) (refl, inr refl)
    handle-IsKept now (delete_user param) = rw (require_admin, member.0, member.1) (refl, inr refl)
    handle-IsKept now (toggle_user param) = rw (require_admin, member.0, member.1) (refl, inr refl)
    handle-IsKept now (setup_totp param nonce secret) =
        with_id-IsKept (services.parse_uuid param)
          (λ target. handle_setup_totp services target nonce secret (lookup target users) users)
          (λ target. setup-IsKept nonce secret target (lookup target users))
    handle-IsKept now (verify_totp param body) =
        with_id-IsKept (services.parse_uuid param)
          (λ target. handle_verify_totp services now target body (lookup target users) users)
          (λ target. verify-IsKept now body target (lookup target users))
    handle-IsKept now (remove_totp param) =
        with_id-IsKept (services.parse_uuid param)
          (λ target. (update_user target disable_totp users, 200))
          (λ target. update_user-IsKept target key disable_totp users (λ user. refl))

  -- The table after requests of the session, each with its time.
  abbrev pub ask : List (ℕ × Request) → UserTable → UserTable
  ask [] users = users
  ask ((now, r) ∷ rs) users = ask rs (handle services now (some id) r users).0

  is_admin_id-same :
      (users after : UserTable)
      → ((key : Text) → IsKept id key users after)
      → is_admin_id services id after ≡ is_admin_id services id users
  is_admin_id-same users after kept = elim (Option-cases (services.parse_uuid id)) [
    | inl n ↦ rw (is_admin_id, n) refl
    | inr (uid, e) ↦
        rw (is_admin_id, e)
          (sym (has_admin_role-account_of (lookup uid after))
            ∙ ap has_admin_role (kept uid).0
            ∙ has_admin_role-account_of (lookup uid users))
  ]

  -- Whatever the users of a session ask who are no admins: no account is made, removed, switched or
  -- given another name, password or role, and only their own second factor changes.
  pub ask-IsKept :
      (rs : List (ℕ × Request)) (users : UserTable)
      → IsMember users
      → (key : Text) → IsKept id key users (ask rs users)
  ask-IsKept [] users member key = (refl, inr refl)
  ask-IsKept ((now, r) ∷ rs) users member key =
      let after = (handle services now (some id) r users).0 in
      let kept : (key : Text) → IsKept id key users after =
        λ key. handle-IsKept users member key now r in
      IsKept-trans id key users after (ask rs after) (kept key)
        (ask-IsKept rs after (member.0, is_admin_id-same users after kept ∙ member.1) key)
