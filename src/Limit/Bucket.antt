-- ===== src/Limit/Bucket.antt =====
-- internal/grpc/interceptor/token_bucket.go, and the interceptors of rate_limit.go. The source
-- counts tokens in `float64`; here a token is sixty thousand million parts, so that the refill of
-- a nanosecond at one request per minute is one part and every value is exact. The rounding of the
-- floats is left out. Times are nanoseconds on the monotonic clock.
pub mod Rate
use central_auth.Common.{
  ℕ, ◌+◌, ◌-◌, ◌*◌, String, Bool, true, false, Option, none, some, List, [], ◌∷◌, ltb, ◌==◌,
  if◌then◌else◌,
}
use central_auth.Common.Assoc.{Assoc, lookup, insert}

-- The parts of one token: nanoseconds in a minute.
abbrev pub token : ℕ
token = 60_000_000_000

pub record TokenBucket : Type 0 where
  pub tokens : ℕ
  pub max : ℕ
  pub refill : ℕ  -- parts per nanosecond
  pub last_tick : ℕ

-- `newTokenBucket`
unfoldable pub new : ℕ → ℕ → TokenBucket
new now requests_per_minute = record {
  tokens = requests_per_minute * token;
  max = requests_per_minute * token;
  refill = requests_per_minute;
  last_tick = now;
}

-- The tokens after the refill, capped.
refilled : ℕ → TokenBucket → ℕ
refilled now tb =
    let tokens = tb.tokens + (now - tb.last_tick) * tb.refill in
    if ltb tb.max tokens then tb.max else tokens

-- `Allow`
unfoldable pub allow : ℕ → TokenBucket → TokenBucket × Bool
unfolding refilled
allow now tb =
    let tokens = refilled now tb in
    if ltb tokens token
    then (record tb { tokens = tokens; last_tick = now }, false)
    else (record tb { tokens = tokens - token; last_tick = now }, true)

-- What an interceptor does with a call: it passes it on to the handler or rejects it with
-- `ResourceExhausted`.
pub data Verdict : Type 0 where
  passed exhausted : Verdict

abbrev pub verdict : Bool → Verdict
verdict true = passed
verdict false = exhausted

-- `RateLimit`: no bucket where the limit is not positive.
unfoldable pub rate_limit : ℕ → Option TokenBucket → Option TokenBucket × Verdict
rate_limit now none = (none, passed)
rate_limit now (some tb) = let (tb', ok) = allow now tb in (some tb', verdict ok)

abbrev pub limiter : ℕ → ℕ → Option TokenBucket
limiter now requests_per_minute =
    if requests_per_minute == 0 then none else some (new now requests_per_minute)

-- The table that `RateLimitMethods` builds: a bucket for each method with a positive limit.
unfoldable pub method_buckets : ℕ → List (String × ℕ) → Assoc TokenBucket
method_buckets now [] = []
method_buckets now ((method, rpm) ∷ limits) =
    let rest = method_buckets now limits in
    if ltb 0 rpm then insert method (new now rpm) rest else rest

-- `RateLimitMethods`: a method without a bucket passes.
unfoldable pub rate_limit_method : ℕ → String → Assoc TokenBucket → Assoc TokenBucket × Verdict
rate_limit_method now method buckets = elim (lookup method buckets) [
  | none ↦ (buckets, passed)
  | some tb ↦ let (tb', ok) = allow now tb in (insert method tb' buckets, verdict ok)
]
