-- ===== src/Handler/RateLimit.antt =====
-- internal/handler/ratelimit.go: requests counted per key in windows of fixed length. A time is a
-- number of nanoseconds; `now.Sub(t) >= d` is written `t + d <= now`. `Allow` and one round of the
-- cleaning goroutine hold the mutex from start to end, so that each is one step on the state.
pub mod Cleaning
pub mod Burst
use wealth.Prelude.{
  Bool, List, Option, Text, [], false, if◌then◌else◌, insert, leb, lookup, ltb, none, some, true, ℕ,
  ◌*◌, ◌+◌, ◌-◌, ◌∷◌, text_eq,
}

pub record Bucket : Type 0 where
  pub tokens : ℕ
  pub last_reset : ℕ

-- `RateLimiter` without its mutex
pub record RateLimiter : Type 0 where
  pub buckets : List (Text × Bucket)
  pub rate : ℕ
  pub window : ℕ
  pub clean_ttl : ℕ

unfoldable pub new_rate_limiter : ℕ → ℕ → RateLimiter
new_rate_limiter rate window = record {
  buckets = [];
  rate = rate;
  window = window;
  clean_ttl = window * 2;
}

-- A bucket that has just granted its first request. For a rate of 0 the source stores -1 tokens,
-- which like 0 grant nothing more.
abbrev pub fresh : RateLimiter → ℕ → Bucket
fresh rl now = record { tokens = rl.rate - 1; last_reset = now }

-- What `Allow` does with the bucket of its key.
unfoldable pub draw : RateLimiter → ℕ → Option Bucket → Bucket × Bool
draw rl now none = (fresh rl now, true)
draw rl now (some b) =
    if leb (b.last_reset + rl.window) now
    then (fresh rl now, true)
    else if ltb 0 b.tokens
    then (record b { tokens = b.tokens - 1 }, true)
    else (b, false)

unfoldable pub allow : RateLimiter → ℕ → Text → RateLimiter × Bool
unfolding draw
allow rl now key =
    let (b, granted) = draw rl now (lookup key rl.buckets) in
    (record rl { buckets = insert key b rl.buckets }, granted)

-- `now.Sub(b.lastReset) > rl.cleanTTL`
abbrev pub is_stale : RateLimiter → ℕ → Bucket → Bool
is_stale rl now b = ltb (b.last_reset + rl.clean_ttl) now

unfoldable pub drop_stale : RateLimiter → ℕ → List (Text × Bucket) → List (Text × Bucket)
drop_stale rl now [] = []
drop_stale rl now ((key, b) ∷ m) =
    if is_stale rl now b then drop_stale rl now m else (key, b) ∷ drop_stale rl now m

-- One round of the cleaning goroutine.
unfoldable pub clean : RateLimiter → ℕ → RateLimiter
unfolding drop_stale
clean rl now = record rl { buckets = drop_stale rl now rl.buckets }
