-- ===== src/Handler/RateLimit/Burst.antt =====
-- How many requests of one key are granted within one window, whatever other keys ask in between.
use Prim.Native.Nat.{min}
use wealth.Prelude.{
  ==_iff, All, Bool-cases, List, Text, [], arith, false, if◌then◌else◌, inl, inr, insert, keep,
  length, lookup, lookup-insert, lookup-insert_self, ltb, none, refl, some, true, ℕ, ◌&&◌, ◌+◌, ◌-◌,
  ◌<◌, ◌≤◌, ◌⊎◌, ◌==◌, ◌∙◌, ◌∷◌, ◌≡◌, text_eq,
}
use wealth.Handler.RateLimit.{Bucket, RateLimiter, allow, draw, fresh}

-- A request is a time and a key.
unfoldable pub granted : RateLimiter → List (ℕ × Text) → Text → ℕ
unfolding allow
granted rl [] key = 0
granted rl ((t, j) ∷ rs) key =
    let (after, ok) = allow rl t j in (if j == key && ok then 1 else 0) + granted after rs key

abbrev pub asked : Text → List (ℕ × Text) → ℕ
asked key rs = length (keep (λ r. r.1 == key) rs)

abbrev spend : Bucket → Bucket
spend b = record b { tokens = b.tokens - 1 }

allow_own :
    (rl : RateLimiter) (t : ℕ) (key : Text) (b : Bucket)
    → lookup key rl.buckets ≡ some b
    → t < b.last_reset + rl.window
    → ((allow rl t key).1 ≡ ltb 0 b.tokens)
      × (lookup key (allow rl t key).0.buckets ≡ some (spend b))
unfolding allow
allow_own rl t key b h early =
    ground (arith, lookup-insert_self key (draw rl t (some b)).0 rl.buckets)

allow_other :
    (rl : RateLimiter) (t : ℕ) (j key : Text)
    → (j == key) ≡ false
    → lookup key (allow rl t j).0.buckets ≡ lookup key rl.buckets
unfolding allow
allow_other rl t j key n =
    ground (arith, lookup-insert j key (draw rl t (lookup j rl.buckets)).0 rl.buckets)

granted-min :
    (rs : List (ℕ × Text)) (rl : RateLimiter) (key : Text) (b : Bucket)
    → lookup key rl.buckets ≡ some b
    → All (λ r. r.0 < b.last_reset + rl.window) rs
    → granted rl rs key ≡ min (asked key rs) b.tokens
unfolding granted
granted-min [] rl key b h in_window = omega arith
granted-min ((t, j) ∷ rs) rl key b h (early, in_window) = elim (Bool-cases (j == key)) [
  | inl e ↦
      let (granted_eq, after) = allow_own rl t key b h early in
      let later = granted-min rs (allow rl t key).0 key (spend b) after in_window in
      rw (e, (==_iff j key).0 e, granted_eq) (ground (arith, later))
  | inr n ↦
      let later = granted-min rs (allow rl t j).0 key b (allow_other rl t j key n ∙ h) in_window in
      rw n (ground (arith, later))
]

-- A request of the key at `start` opens a window: it has no bucket, or that of a window that is over.
abbrev pub OpensWindow : RateLimiter → ℕ → Text → Type 0
OpensWindow rl start key =
    (lookup key rl.buckets ≡ none)
    ⊎ ((b : Bucket) × (lookup key rl.buckets ≡ some b) × (b.last_reset + rl.window ≤ start))

draw-opened :
    (rl : RateLimiter) (start : ℕ) (key : Text)
    → OpensWindow rl start key
    → draw rl start (lookup key rl.buckets) ≡ (fresh rl start, true)
unfolding draw
draw-opened rl start key (inl e) = rw e refl
draw-opened rl start key (inr (b, e, over)) = rw e (ground (arith, over))

-- In every window that a request of a key opens, the first one or a later one, as many of its
-- requests are granted as it makes, up to the rate, which is at least one.
pub granted_in_window :
    (rs : List (ℕ × Text)) (rl : RateLimiter) (key : Text) (start : ℕ)
    → OpensWindow rl start key
    → 0 < rl.rate
    → All (λ r. r.0 < start + rl.window) rs
    → granted rl ((start, key) ∷ rs) key ≡ min (asked key ((start, key) ∷ rs)) rl.rate
unfolding granted allow
granted_in_window rs rl key start opens positive in_window =
    let first = fresh rl start in
    let later =
      granted-min rs (record rl { buckets = insert key first rl.buckets }) key first
        (lookup-insert_self key first rl.buckets) in_window in
    rw (draw-opened rl start key opens) (ground (arith, later, ==_iff key key))
