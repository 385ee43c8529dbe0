-- ===== src/Auth/Limiter/Window.antt =====
-- The limiter against the history of what was done with it: pruning is unobservable, and `allow`
-- counts the failures of the address since its last reset that are younger than the window.
use wealth.Prelude.{
  ==_iff, List, Text, [], arith, get_or, get_or-delete, get_or-insert, if◌then◌else◌, keep,
  keep-append, length, ltb, refl, ℕ, ◌++◌, ◌==◌, ◌∷◌, ◌≡◌, ◌≤◌, text_eq,
}
use wealth.Auth.Limiter.{
  LoginLimiter, allow, is_live, new_login_limiter, prune, record_failure, reset,
}

-- The calls of the login handler.
pub data Event : Type 0 where
  checked : ℕ → Text → Event
  failed : ℕ → Text → Event
  cleared : Text → Event

unfoldable pub apply : LoginLimiter → Event → LoginLimiter
unfolding allow record_failure reset
apply l (checked t ip) = (allow l t ip).0
apply l (failed t ip) = record_failure l t ip
apply l (cleared ip) = reset l ip

unfoldable pub run : LoginLimiter → List Event → LoginLimiter
unfolding apply
run l [] = l
run l (e ∷ es) = run (apply l e) es

-- The failures of an address since it was last cleared, behind those before the history.
unfoldable pub failures : Text → List ℕ → List Event → List ℕ
failures ip past [] = past
failures ip past (checked t j ∷ es) = failures ip past es
failures ip past (failed t j ∷ es) = failures ip (if j == ip then past ++ t ∷ [] else past) es
failures ip past (cleared j ∷ es) = failures ip (if j == ip then [] else past) es

-- The clock does not go back: the times do not fall, from `t` up to `end`.
abbrev pub IsChronological : ℕ → List Event → ℕ → Type 0
IsChronological t [] end = t ≤ end
IsChronological t (checked u ip ∷ es) end = (t ≤ u) × IsChronological u es end
IsChronological t (failed u ip ∷ es) end = (t ≤ u) × IsChronological u es end
IsChronological t (cleared ip ∷ es) end = IsChronological t es end

-- The live part of what is stored for an address is that of the list `past`, now and later.
abbrev Agrees : Text → ℕ → LoginLimiter → List ℕ → Type 0
Agrees ip t l past =
    (now : ℕ)
    → t ≤ now
    → keep (is_live l.window now) (get_or ip [] l.attempts) ≡ keep (is_live l.window now) past

keep_again :
    (w u now : ℕ) (ts : List ℕ)
    → u ≤ now
    → keep (is_live w now) (keep (is_live w u) ts) ≡ keep (is_live w now) ts
keep_again w u now [] h = refl
keep_again w u now (t ∷ ts) h = ground (arith, keep_again w u now ts h)

module _ (ip : Text) (l : LoginLimiter) (past : List ℕ) {t : ℕ} (agrees : Agrees ip t l past) where
  Agrees-checked : (u : ℕ) (j : Text) → t ≤ u → Agrees ip u (apply l (checked u j)) past
  unfolding apply prune
  Agrees-checked u j h now k = ground (
    arith,
    get_or-insert j ip [] (prune l u j) l.attempts,
    ==_iff j ip,
    keep_again l.window u now (get_or ip [] l.attempts) k,
    agrees now,
  )

  Agrees-failed :
      (u : ℕ) (j : Text)
      → t ≤ u
      → Agrees ip u (apply l (failed u j)) (if j == ip then past ++ u ∷ [] else past)
  unfolding apply
  Agrees-failed u j h now k =
      let kept = get_or ip [] l.attempts in
      ground (
        arith,
        get_or-insert j ip [] (get_or j [] l.attempts ++ u ∷ []) l.attempts,
        ==_iff j ip,
        keep-append (is_live l.window now) kept (u ∷ []),
        keep-append (is_live l.window now) past (u ∷ []),
        agrees now,
      )

  Agrees-cleared : (j : Text) → Agrees ip t (apply l (cleared j)) (if j == ip then [] else past)
  unfolding apply
  Agrees-cleared j now k = ground (arith, get_or-delete j ip [] l.attempts, agrees now)

run-Agrees :
    (ip : Text) (es : List Event) (l : LoginLimiter) (past : List ℕ) {t end : ℕ}
    → IsChronological t es end
    → Agrees ip t l past
    → Agrees ip end (run l es) (failures ip past es)
unfolding run failures
run-Agrees ip [] l past c a = λ now k. a now (omega arith)
run-Agrees ip (checked u j ∷ es) l past (h, c) a =
    run-Agrees ip es (apply l (checked u j)) past c (Agrees-checked ip l past a u j h)
run-Agrees ip (failed u j ∷ es) l past (h, c) a =
    run-Agrees ip es (apply l (failed u j)) _ c (Agrees-failed ip l past a u j h)
run-Agrees ip (cleared j ∷ es) l past c a =
    run-Agrees ip es (apply l (cleared j)) _ c (Agrees-cleared ip l past a j)

apply_config :
    (l : LoginLimiter) (e : Event)
    → ((apply l e).window ≡ l.window) × ((apply l e).max_fails ≡ l.max_fails)
unfolding apply
apply_config l (checked t ip) = (refl, refl)
apply_config l (failed t ip) = (refl, refl)
apply_config l (cleared ip) = (refl, refl)

run_config :
    (es : List Event) (l : LoginLimiter)
    → ((run l es).window ≡ l.window) × ((run l es).max_fails ≡ l.max_fails)
unfolding run
run_config [] l = (refl, refl)
run_config (e ∷ es) l = ground (arith, run_config es (apply l e), apply_config l e)

-- In any history of a new limiter whose clock does not go back, `Allow` at a time not before the
-- end answers yes exactly when fewer than `maxFails` failures of the address, counted since its
-- last `Reset`, lie within the window. What `Allow` has pruned, and other addresses, change nothing.
pub allow-run :
    (max_fails window : ℕ) (es : List Event) (now : ℕ) (ip : Text)
    → IsChronological 0 es now
    → (allow (run (new_login_limiter max_fails window) es) now ip).1
      ≡ ltb (length (keep (is_live window now) (failures ip [] es))) max_fails
unfolding allow prune new_login_limiter get_or
allow-run max_fails window es now ip c =
    let start = new_login_limiter max_fails window in
    let agreed = run-Agrees ip es start [] c (λ u k. refl) now in
    ground (arith, agreed, run_config es start)
