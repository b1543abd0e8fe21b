-- ===== src/Limit/Window/Middleware.antt =====
-- The rest of internal/http/middleware/rate_limit.go: the limit from the environment, and
-- `RateLimitMiddleware` around the limiter. The address is what gin takes for that of the client.
use central_auth.Common.{ℕ, ◌≡◌, refl, String, Option, none, some, if◌then◌else◌, str_eq}
use central_auth.Common.Assoc.{Assoc}
use central_auth.Common.Int.{ℤ, pos, negsuc}
use central_auth.Config.{Env, atoi}
use central_auth.Limit.Window.{Slot, allow}

abbrev requests_of : Option ℤ → ℕ
requests_of none = 20
requests_of (some (pos n)) = n
requests_of (some (negsuc n)) = 20

-- `rateLimitRequests`
unfoldable pub rate_limit_requests : Env → ℕ
rate_limit_requests env =
    let v = env "RATE_LIMIT_REQUESTS_PER_MIN" in if str_eq v "" then 20 else requests_of (atoi v)

-- What ends a request: its status, and `Retry-After`
pub record Refusal : Type 0 where
  pub status : ℕ
  pub retry_after : String

abbrev pub too_many_requests : Refusal
too_many_requests = record { status = 429; retry_after = "1m0s" }

-- `RateLimitMiddleware`; `none` is `c.Next()`.
unfoldable pub rate_limit_middleware :
    Env → (client_ip : String) → (now : ℕ) → Assoc Slot → Assoc Slot × Option Refusal
rate_limit_middleware env client_ip now m =
    let (m', allowed) = allow (rate_limit_requests env) client_ip now m in
    (m', if allowed then none else some too_many_requests)

-- The middleware lets every request pass where the variable is 0, and keeps no bucket then.
pub rate_limit_middleware-disabled :
    (env : Env) (client_ip : String) (now : ℕ) (m : Assoc Slot)
    → env "RATE_LIMIT_REQUESTS_PER_MIN" ≡ "0"
    → rate_limit_middleware env client_ip now m ≡ (m, none)
unfolding rate_limit_middleware rate_limit_requests allow atoi
rate_limit_middleware-disabled env client_ip now m off = rw off refl
