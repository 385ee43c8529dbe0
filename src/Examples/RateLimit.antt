-- ===== src/Examples/RateLimit.antt =====
-- internal/handler/ratelimit.go
use Prim.Native.Nat.{min}
use wealth.Prelude.{
  List, Text, [], arith, false, inr, lit, lookup, refl, same, true, ℕ, ◌∷◌, ◌≡◌, text_eq, nat_eq,
}
use wealth.Handler.RateLimit.{RateLimiter, allow, clean}
use wealth.Handler.RateLimit.Cleaning.{allow-clean}
use wealth.Handler.RateLimit.Burst.{asked, granted, granted_in_window}

abbrev client : Text
client = lit "10.0.0.7"

abbrev limiter : RateLimiter
limiter = record { buckets = []; rate = 2; window = 60; clean_ttl = 120 }

abbrev busy : RateLimiter
busy = record limiter { buckets = (client, record { tokens = 0; last_reset = 10 }) ∷ [] }

refused : ((allow busy 69 client).1 ≡ false) × ((allow busy 70 client).1 ≡ true)
unfolding allow lookup same
refused = (refl, refl)

allow-clean_example :
    ((allow (clean busy 200) 201 client).1 ≡ (allow busy 201 client).1)
    × (lookup client (allow (clean busy 200) 201 client).0.buckets
        ≡ lookup client (allow busy 201 client).0.buckets)
allow-clean_example =
    allow-clean busy 200 201 client (unfold lookup in refl, tt) (omega arith) (omega arith)

abbrev requests : List (ℕ × Text)
requests = (80, client) ∷ (90, lit "10.0.0.8") ∷ (100, client) ∷ []

-- The window of `busy` is over at 70, and it is used up.
granted_in_window_example :
    granted busy ((70, client) ∷ requests) client ≡ min (asked client ((70, client) ∷ requests)) 2
granted_in_window_example =
    granted_in_window requests busy client 70
      (inr (record { tokens = 0; last_reset = 10 }, unfold lookup same in refl, omega arith))
      (omega arith) (omega arith)
