-- ===== src/Limit/Bucket/Rate.antt =====
-- The rate that a token bucket keeps.
use Prim.Native.Nat.{min}
use central_auth.Common.{
  ℕ, zero, suc, ◌+◌, ◌-◌, ◌*◌, ◌≤◌, ◌≡◌, refl, true, List, [], ◌∷◌, ltb, if◌then◌else◌, arith,
}
use central_auth.Limit.Bucket.{TokenBucket, token, new, allow}

abbrev pub Ordered : ℕ → List ℕ → Type 0
Ordered start [] = Unit
Ordered start (now ∷ later) = (start ≤ now) × Ordered now later

-- The calls of `Allow` at the given times, and how many are let through.
unfoldable pub admit : TokenBucket → List ℕ → TokenBucket × ℕ
admit tb [] = (tb, 0)
admit tb (now ∷ later) =
    let (tb', ok) = allow now tb in
    let (tb'', n) = admit tb' later in (tb'', if ok then n + 1 else n)

-- One call pays for what it lets through out of the tokens and the refill.
allow_pays :
    (now : ℕ) (tb : TokenBucket)
    → tb.tokens ≤ tb.max
    → ((allow now tb).0.tokens + (if (allow now tb).1 then token else 0)
        ≤ tb.tokens + (now - tb.last_tick) * tb.refill)
      × ((allow now tb).0.tokens ≤ tb.max)
      × ((allow now tb).0.max ≡ tb.max)
      × ((allow now tb).0.refill ≡ tb.refill)
      × ((allow now tb).0.last_tick ≡ now)
unfolding allow
allow_pays now tb h = ground arith

split_time :
    (start now end rate : ℕ)
    → start ≤ now
    → now ≤ end
    → (end - start) * rate ≡ (end - now) * rate + (now - start) * rate
split_time start now end rate h k =
    let e : end - start ≡ (end - now) + (now - start) = omega arith in rw e (omega arith)

-- The same for a history: what is let through, with the tokens that are left, never exceeds the
-- tokens at the start and the refill of the time that has passed.
admit_pays :
    (tb : TokenBucket) (times : List ℕ)
    → tb.tokens ≤ tb.max
    → Ordered tb.last_tick times
    → ((admit tb times).1 * token + (admit tb times).0.tokens
        ≤ tb.tokens + ((admit tb times).0.last_tick - tb.last_tick) * tb.refill)
      × (tb.last_tick ≤ (admit tb times).0.last_tick)
unfolding admit
admit_pays tb [] h o = (omega arith, omega arith)
admit_pays tb (now ∷ later) h o =
    let (pays, capped, same_max, same_refill, at_now) = allow_pays now tb h in
    let (ih, passed) = admit_pays (allow now tb).0 later (rw same_max capped) (rw at_now o.1) in
    let ih' = rw (same_refill, at_now) at ih in
    let passed' = rw at_now at passed in
    ground (arith, split_time tb.last_tick now (admit (allow now tb).0 later).0.last_tick tb.refill)

-- From a new bucket, the calls that are let through up to any moment number at most the burst and
-- the share of the time that has passed: `requests_per_minute` for each minute.
pub new-rate :
    (start requests_per_minute : ℕ) (times : List ℕ)
    → Ordered start times
    → (admit (new start requests_per_minute) times).1 * token
      ≤ requests_per_minute * token
        + ((admit (new start requests_per_minute) times).0.last_tick - start) * requests_per_minute
unfolding new
new-rate start rpm times o = omega (arith, (admit_pays (new start rpm) times (omega arith) o).0)

-- A caller that waits until one token has been refilled is let through.
allow_recovers :
    (tb : TokenBucket) (now : ℕ)
    → token ≤ tb.max
    → token ≤ (now - tb.last_tick) * tb.refill
    → (allow now tb).1 ≡ true
unfolding allow
allow_recovers tb now h k = ground arith

abbrev pub at_once : ℕ → ℕ → List ℕ
at_once zero now = []
at_once (suc n) now = now ∷ at_once n now

allow_at_once :
    (k now : ℕ) (tb : TokenBucket)
    → tb.tokens ≡ k * token
    → tb.tokens ≤ tb.max
    → tb.last_tick ≡ now
    → ((allow now tb).1 ≡ ltb 0 k)
      × ((allow now tb).0.tokens ≡ (k - 1) * token)
      × ((allow now tb).0.tokens ≤ (allow now tb).0.max)
      × ((allow now tb).0.last_tick ≡ now)
unfolding allow
allow_at_once k now tb t m l = ground arith

admit_burst :
    (n k now : ℕ) (tb : TokenBucket)
    → tb.tokens ≡ k * token
    → tb.tokens ≤ tb.max
    → tb.last_tick ≡ now
    → (admit tb (at_once n now)).1 ≡ min n k
unfolding admit
admit_burst zero k now tb t m l = omega arith
admit_burst (suc n) k now tb t m l =
    let (ok, left, capped, at_now) = allow_at_once k now tb t m l in
    let ih = admit_burst n (k - 1) now (allow now tb).0 left capped at_now in ground arith

-- A burst of simultaneous calls on a new bucket is let through up to the limit, exactly.
pub new-burst :
    (n now requests_per_minute : ℕ)
    → (admit (new now requests_per_minute) (at_once n now)).1 ≡ min n requests_per_minute
unfolding new
new-burst n now rpm = admit_burst n rpm now (new now rpm) (omega arith) (omega arith) refl
