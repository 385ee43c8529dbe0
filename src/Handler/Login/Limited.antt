-- ===== src/Handler/Login/Limited.antt =====
-- When a login is refused for too many attempts.
use wealth.Prelude.{
  Bool, Bool-cases, List, Option, Option-cases, Text, [], ap, arith, false, if◌then◌else◌, inl, inr,
  keep, length, ltb, not, refl, sym, true, ℕ, ◌*◌, ◌++◌, ◌==◌, ◌^◌, ◌∙◌, ◌∷◌, ◌≡◌, ◌≤◌, text_eq,
  nat_eq,
}
use wealth.Auth.Limiter.{LoginLimiter, allow, is_live}
use wealth.Auth.Limiter.Window.{
  Event, IsChronological, allow-run, apply, checked, cleared, failed, failures, run,
}
use wealth.Handler.Users.{Services, UserTable}
use wealth.Handler.Login.{
  Answer, Credentials, Verdict, answer, authenticate, handle_login, invalid_body,
  invalid_credentials, known, lacks_code, login_limiter, signed_in, too_many_attempts,
  totp_required, unknown,
}

-- A login: its time, its address, its body, and the users at the time.
pub record Attempt : Type 0 where
  pub now : ℕ
  pub ip : Text
  pub body : Option Credentials
  pub users : UserTable

abbrev pub is_too_many : Answer → Bool
is_too_many too_many_attempts = true
is_too_many _ = false

-- The times at which logins of an address had wrong credentials since it was last signed in, behind
-- those before.
abbrev pub wrong : Text → List ℕ → List (Attempt × Answer) → List ℕ
wrong ip past [] = past
wrong ip past ((a, invalid_credentials) ∷ log) =
    wrong ip (if a.ip == ip then past ++ a.now ∷ [] else past) log
wrong ip past ((a, signed_in _) ∷ log) = wrong ip (if a.ip == ip then [] else past) log
wrong ip past (_ ∷ log) = wrong ip past log

-- The clock does not go back.
abbrev pub AreInOrder : ℕ → List Attempt → ℕ → Type 0
AreInOrder t [] end = t ≤ end
AreInOrder t (a ∷ attempts) end = (t ≤ a.now) × AreInOrder a.now attempts end

-- What an answer does to the limiter.
abbrev events_of : Attempt × Answer → List Event
events_of (a, invalid_credentials) = checked a.now a.ip ∷ failed a.now a.ip ∷ []
events_of (a, signed_in _) = checked a.now a.ip ∷ cleared a.ip ∷ []
events_of (a, _) = checked a.now a.ip ∷ []

abbrev history : List (Attempt × Answer) → List Event
history [] = []
history (entry ∷ log) = events_of entry ++ history log

run-append : (l : LoginLimiter) (es more : List Event) → run l (es ++ more) ≡ run (run l es) more
unfolding run
run-append l [] more = refl
run-append l (e ∷ es) more = run-append (apply l e) es more

failures-history :
    (ip : Text) (log : List (Attempt × Answer)) (past : List ℕ)
    → failures ip past (history log) ≡ wrong ip past log
unfolding failures
failures-history ip [] past = refl
failures-history ip ((a, invalid_credentials) ∷ log) past = failures-history ip log _
failures-history ip ((a, signed_in cookie) ∷ log) past = failures-history ip log _
failures-history ip ((a, too_many_attempts) ∷ log) past = failures-history ip log past
failures-history ip ((a, invalid_body) ∷ log) past = failures-history ip log past
failures-history ip ((a, totp_required) ∷ log) past = failures-history ip log past

events_of-IsChronological :
    (t : ℕ) (a : Attempt) (x : Answer) (es : List Event) (end : ℕ)
    → t ≤ a.now
    → IsChronological a.now es end
    → IsChronological t (events_of (a, x) ++ es) end
events_of-IsChronological t a invalid_credentials es end h c = (h, (omega arith, c))
events_of-IsChronological t a (signed_in cookie) es end h c = (h, c)
events_of-IsChronological t a too_many_attempts es end h c = (h, c)
events_of-IsChronological t a invalid_body es end h c = (h, c)
events_of-IsChronological t a totp_required es end h c = (h, c)

module _ (services : Services) (mac : Text → Text) (admin_hash : Text) where
  abbrev pub login : Attempt → LoginLimiter → LoginLimiter × Answer
  login a l = handle_login services mac admin_hash a.now a.ip a.body a.users l

  -- Logins one after another, each with its answer.
  abbrev pub serve : LoginLimiter → List Attempt → LoginLimiter × List (Attempt × Answer)
  serve l [] = (l, [])
  serve l (a ∷ attempts) =
      let (end, log) = serve (login a l).0 attempts in (end, (a, (login a l).1) ∷ log)

  answer-run :
      (a : Attempt) (l : LoginLimiter) (v : Verdict)
      → let (l', x) = answer services mac admin_hash (allow l a.now a.ip).0 a.now a.ip v in
        (l' ≡ run l (events_of (a, x))) × (is_too_many x ≡ false)
  unfolding run apply
  answer-run a l lacks_code = (refl, refl)
  answer-run a l unknown = (refl, refl)
  answer-run a l (known id) = (refl, refl)

  login-run :
      (a : Attempt) (l : LoginLimiter)
      → let (l', x) = login a l in
        (l' ≡ run l (events_of (a, x))) × (is_too_many x ≡ not (allow l a.now a.ip).1)
  unfolding handle_login run apply
  login-run a l = elim (Bool-cases (allow l a.now a.ip).1) [
    | inl y ↦ elim (Option-cases a.body) [
      | inl n ↦ rw (y, n) (refl, refl)
      | inr (c, e) ↦
          rw (y, e) (answer-run a l (authenticate services mac admin_hash a.now c a.users))
    ]
    | inr n ↦ rw n (refl, refl)
  ]

  serve-run :
      (attempts : List Attempt) (l : LoginLimiter)
      → (serve l attempts).0 ≡ run l (history (serve l attempts).1)
  unfolding run
  serve-run [] l = refl
  serve-run (a ∷ attempts) l =
      serve-run attempts (login a l).0
      ∙ ap (λ s. run s (history (serve (login a l).0 attempts).1)) (login-run a l).0
      ∙ sym (run-append l (events_of (a, (login a l).1)) (history (serve (login a l).0 attempts).1))

  serve-IsChronological :
      (t : ℕ) (attempts : List Attempt) (end : ℕ) (l : LoginLimiter)
      → AreInOrder t attempts end
      → IsChronological t (history (serve l attempts).1) end
  serve-IsChronological t [] end l h = h
  serve-IsChronological t (a ∷ attempts) end l (h, hs) =
      events_of-IsChronological t a (login a l).1 (history (serve (login a l).0 attempts).1) end h
        (serve-IsChronological a.now attempts end (login a l).0 hs)

  -- After any logins whose clock does not go back, a login not before their end is refused for too
  -- many attempts exactly when five or more of them that came from its address, since the last
  -- one from there that succeeded, were refused for wrong credentials in the fifteen minutes before it.
  -- The credentials it brings itself do not matter.
  pub handle_login-limited :
      (attempts : List Attempt) (a : Attempt)
      → AreInOrder 0 attempts a.now
      → let (l, log) = serve login_limiter attempts in
        is_too_many (login a l).1
        ≡ not (ltb (length (keep (is_live (15 * 60 * 10 ^ 9) a.now) (wrong a.ip [] log))) 5)
  handle_login-limited attempts a order =
      let (l, log) = serve login_limiter attempts in
      (login-run a l).1
      ∙ ap (λ s. not (allow s a.now a.ip).1) (serve-run attempts login_limiter)
      ∙ ap not (
          allow-run 5 (15 * 60 * 10 ^ 9) (history log) a.now a.ip
            (serve-IsChronological 0 attempts a.now login_limiter order))
      ∙ ap (λ ts. not (ltb (length (keep (is_live (15 * 60 * 10 ^ 9) a.now) ts)) 5))
          (failures-history a.ip log [])
