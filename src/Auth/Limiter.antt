-- ===== src/Auth/Limiter.antt =====
-- internal/auth/ratelimit.go. A time is a number of nanoseconds. Each method holds the mutex from
-- start to end, so that it is one step on the state.
pub mod Window
use wealth.Prelude.{
  Bool, List, Text, [], delete, get_or, insert, keep, length, ltb, ℕ, ◌++◌, ◌+◌, ◌∷◌, text_eq,
}

-- `LoginLimiter` without its mutex
pub record LoginLimiter : Type 0 where
  pub attempts : List (Text × List ℕ)
  pub max_fails : ℕ
  pub window : ℕ

unfoldable pub new_login_limiter : ℕ → ℕ → LoginLimiter
new_login_limiter max_fails window = record {
  attempts = [];
  max_fails = max_fails;
  window = window;
}

-- `t.After(cutoff)` for `cutoff = now - window`, with the window on the other side
abbrev pub is_live : ℕ → ℕ → ℕ → Bool
is_live window now t = ltb now (t + window)

-- The loop that builds `recent` writes into the slice that it ranges over, behind its position.
pub prune : LoginLimiter → ℕ → Text → List ℕ
prune l now ip = keep (is_live l.window now) (get_or ip [] l.attempts)

unfoldable pub allow : LoginLimiter → ℕ → Text → LoginLimiter × Bool
unfolding prune
allow l now ip =
    let recent = prune l now ip in
    (record l { attempts = insert ip recent l.attempts }, ltb (length recent) l.max_fails)

unfoldable pub record_failure : LoginLimiter → ℕ → Text → LoginLimiter
record_failure l now ip = record l {
  attempts = insert ip (get_or ip [] l.attempts ++ now ∷ []) l.attempts;
}

unfoldable pub reset : LoginLimiter → Text → LoginLimiter
reset l ip = record l { attempts = delete ip l.attempts }
