-- ===== src/Handler/RateLimit/Cleaning.antt =====
-- Cleaning is unobservable: what it drops, the next request of the key would have renewed.
use wealth.Prelude.{
  ==_iff, IsMap, List, Option, Text, [], arith, if◌then◌else◌, lookup, lookup-insert_self, none,
  refl, some, ℕ, ◌∷◌, ◌≡◌, ◌≤◌, text_eq,
}
use wealth.Handler.RateLimit.{Bucket, RateLimiter, allow, clean, draw, drop_stale, is_stale}

lookup-drop_stale-none :
    (rl : RateLimiter) (now : ℕ) (key : Text) (m : List (Text × Bucket))
    → lookup key m ≡ none
    → lookup key (drop_stale rl now m) ≡ none
unfolding lookup drop_stale
lookup-drop_stale-none rl now key [] h = refl
lookup-drop_stale-none rl now key ((j, b) ∷ m) h =
    ground (arith, lookup-drop_stale-none rl now key m)

abbrev without_stale : RateLimiter → ℕ → Option Bucket → Option Bucket
without_stale rl now none = none
without_stale rl now (some b) = if is_stale rl now b then none else some b

lookup-drop_stale :
    (rl : RateLimiter) (now : ℕ) (key : Text) (m : List (Text × Bucket))
    → IsMap m
    → lookup key (drop_stale rl now m) ≡ without_stale rl now (lookup key m)
unfolding lookup drop_stale
lookup-drop_stale rl now key [] u = refl
lookup-drop_stale rl now key ((j, b) ∷ m) (new, u) =
    ground
      (arith, ==_iff j key, lookup-drop_stale-none rl now key m, lookup-drop_stale rl now key m u)

draw-without_stale :
    (rl : RateLimiter) (before now : ℕ) (o : Option Bucket)
    → rl.window ≤ rl.clean_ttl
    → before ≤ now
    → draw rl now (without_stale rl before o) ≡ draw rl now o
unfolding draw
draw-without_stale rl before now none w h = refl
draw-without_stale rl before now (some b) w h = ground arith

draw-clean :
    (rl : RateLimiter) (before now : ℕ) (o : Option Bucket)
    → draw (clean rl before) now o ≡ draw rl now o
unfolding draw clean
draw-clean rl before now none = refl
draw-clean rl before now (some b) = refl

-- A request after a round of cleaning gets the answer that it would get without it, and leaves the
-- same bucket for its key, whatever the buckets are, if no key has two.
pub allow-clean :
    (rl : RateLimiter) (before now : ℕ) (key : Text)
    → IsMap rl.buckets
    → rl.window ≤ rl.clean_ttl
    → before ≤ now
    → ((allow (clean rl before) now key).1 ≡ (allow rl now key).1)
      × (lookup key (allow (clean rl before) now key).0.buckets
          ≡ lookup key (allow rl now key).0.buckets)
unfolding allow clean
allow-clean rl before now key u w h =
    let found = lookup key rl.buckets in
    let renewed = draw (clean rl before) now (lookup key (drop_stale rl before rl.buckets)) in
    ground (
      arith,
      lookup-drop_stale rl before key rl.buckets u,
      draw-clean rl before now (without_stale rl before found),
      draw-without_stale rl before now found w h,
      lookup-insert_self key renewed.0 (drop_stale rl before rl.buckets),
      lookup-insert_self key (draw rl now found).0 rl.buckets,
    )
