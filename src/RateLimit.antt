-- ===== src/RateLimit.antt =====
-- rateLimiter of internal/api/middleware.go: a token bucket for each client. Times are nanoseconds.
-- Tokens are counted in units of 1 / window, so that what the code computes in float64 is exact
-- here: a token is `window` units, and a nanosecond earns `limit` of them.
pub mod Bound
use lumenvec.Base.{
  ℕ, zero, suc, ◌+◌, ◌-◌, ◌*◌, Bool, true, false, List, [], ◌∷◌, Option, none, some, Text, Text-Eq,
  Map, lookup, insert, ltb, if◌then◌else◌,
}

pub record TokenBucket : Type 0 where
  pub tokens : ℕ
  pub last : ℕ

pub record RateLimiter : Type 0 where
  pub buckets : Map Text TokenBucket
  pub limit : ℕ
  pub window : ℕ

-- `none` is the nil limiter, which the middleware does not ask
unfoldable pub new_rate_limiter : ℕ → ℕ → Option RateLimiter
new_rate_limiter zero window = none
new_rate_limiter (suc n) window = some (record { buckets = []; limit = suc n; window = window })

abbrev pub burst : RateLimiter → ℕ
burst rl = rl.limit * rl.window

-- The bucket with what the time since its last use has earned.
unfoldable pub refill : RateLimiter → ℕ → TokenBucket → TokenBucket
refill rl now b =
    let tokens = b.tokens + (now - b.last) * rl.limit in
    let full : TokenBucket = record {
      tokens = if ltb (burst rl) tokens then burst rl else tokens;
      last = now;
    } in
    if ltb b.last now then full else b

-- The rest of allow, on the bucket of the key: the answer and the bucket to store.
unfoldable pub take_token : RateLimiter → ℕ → Option TokenBucket → Bool × TokenBucket
take_token rl now none = (true, record { tokens = burst rl - rl.window; last = now })
take_token rl now (some bucket) =
    let b = refill rl now bucket in
    if ltb b.tokens rl.window
    then (false, b)
    else (true, record { tokens = b.tokens - rl.window; last = b.last })

unfoldable pub allow : Text → ℕ → RateLimiter → Bool × RateLimiter
allow key now rl =
    let (answer, bucket) = take_token rl now (lookup key rl.buckets) in
    (answer, record rl { buckets = insert key bucket rl.buckets })
