-- ===== src/Auth/Token/Authentic.antt =====
-- What an accepted token says, and for how long a session lasts.
use wealth.Prelude.{
  ==_iff, Bool-cases, Option, Option-cases, Text, [], arith, contains, false, if◌then◌else◌, inl,
  inr, ltb, none, some, ℕ, ◌++◌, ◌+◌, ◌<◌, ◌==◌, ◌^◌, ◌∷◌, ◌≡◌, text_eq, nat_eq,
}
use wealth.Auth.Decimal.{Int64, natural, negative}
use wealth.Auth.Token.{
  parse_payload, session_cookie_for_user, session_duration, split_first, unless_expired,
  user_id_from_request, validate_session, verify_token_with_user,
}
use wealth.Auth.Token.RoundTrip.{verify-sign}

split_first_sound :
    (sep : ℕ) (s a b : Text)
    → split_first sep s ≡ some (a, b)
    → (s ≡ a ++ (sep ∷ b)) × (contains a sep ≡ false)
unfolding split_first
split_first_sound sep [] a b h = absurd (cc)
split_first_sound sep (c ∷ s) a b h = elim (Bool-cases (c == sep)) [
  | inl e ↦ ground arith
  | inr n ↦ elim (Option-cases (split_first sep s)) [
    | inl e ↦ absurd (ground arith)
    | inr (p, e) ↦ ground (arith, split_first_sound sep s p.0 p.1)
  ]
]

unless_expired_sound :
    (now : ℕ) (p : Option (Text × Int64)) (user : Text)
    → unless_expired now p ≡ some user
    → (expiry : ℕ) × (p ≡ some (user, natural expiry)) × (now < expiry)
unless_expired_sound now none user h = absurd (cc)
unless_expired_sound now (some (u, natural e)) user h = (e, ground arith, ground arith)
unless_expired_sound now (some (u, negative e)) user h = absurd (ground arith)

module _ (mac : Text → Text) where
  -- An accepted token is a payload, a colon and the signature of that payload, and the payload
  -- holds the user that is returned and an expiry that lies ahead.
  pub verify_sound :
      (now : ℕ) (token user : Text)
      → verify_token_with_user mac now token ≡ some user
      → (payload : Text) × (token ≡ payload ++ (b':' ∷ mac payload))
        × ((expiry : ℕ) × (parse_payload payload ≡ some (user, natural expiry)) × (now < expiry))
  unfolding verify_token_with_user
  verify_sound now token user h = elim (Option-cases (split_first b':' token)) [
    | inl e ↦ absurd (ground arith)
    | inr (p, e) ↦ (
      p.0,
      ground (arith, split_first_sound b':' token p.0 p.1, ==_iff p.1 (mac p.0)),
      unless_expired_sound now (parse_payload p.0) user (ground arith),
    )
  ]

  -- The cookie set at a login is that user's session for thirty days and no session afterwards.
  pub session-cookie :
      (start now : ℕ) (user : Text)
      → contains user b':' ≡ false
      → start + session_duration < 2 ^ 63
      → let cookie = some (session_cookie_for_user mac start user) in
        (validate_session mac now cookie ≡ ltb now (start + session_duration))
        × (user_id_from_request mac now cookie
            ≡ (if ltb now (start + session_duration) then user else []))
  unfolding session_cookie_for_user validate_session user_id_from_request
  session-cookie start now user no_colon fits =
      ground (arith, verify-sign mac now (start + session_duration) user no_colon fits)
