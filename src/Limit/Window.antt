-- ===== src/Limit/Window.antt =====
-- internal/http/middleware/rate_limit.go: `allow` and one sweep of `evictLoop`. Times are
-- nanoseconds on the monotonic clock. A call of `allow` is one step, and so is a sweep: the lookup
-- of a bucket and its update are not interleaved with the sweep that deletes it.
pub mod Quota
pub mod Sweep
pub mod Middleware
use central_auth.Common.{
  ℕ, ◌+◌, ◌-◌, ◌*◌, String, Bool, true, Option, none, some, [], ◌∷◌, ltb, leb, ◌==◌, if◌then◌else◌,
}
use central_auth.Common.Assoc.{Assoc, lookup, insert, erase}

-- `rateLimitWindow`, one minute
abbrev pub window : ℕ
window = 60_000_000_000

pub record Slot : Type 0 where
  pub count : ℕ
  pub window_start : ℕ

-- The bucket that a request starts from: loaded or stored anew, and reset when its window is over.
unfoldable pub current : ℕ → Option Slot → Slot
current now none = record { count = 0; window_start = now }
current now (some b) =
    if leb window (now - b.window_start) then record { count = 0; window_start = now } else b

-- `b.count++`
abbrev pub bump : Slot → Slot
bump b = record b { count = b.count + 1 }

-- `allow`
unfoldable pub allow : ℕ → String → ℕ → Assoc Slot → Assoc Slot × Bool
unfolding current
allow limit ip now m =
    if limit == 0
    then (m, true)
    else let b = bump (current now (lookup ip m)) in (insert ip b m, leb b.count limit)

-- `stale`
abbrev pub is_stale : ℕ → Slot → Bool
is_stale now b = ltb (2 * window) (now - b.window_start)

-- One tick of `evictLoop`: `Delete` of each key whose bucket is stale.
unfoldable pub evict : ℕ → Assoc Slot → Assoc Slot
evict now [] = []
evict now ((ip, b) ∷ m) =
    let rest = evict now m in if is_stale now b then erase ip rest else (ip, b) ∷ rest
