-- ===== src/Breaker.antt =====
-- internal/resilience/circuit_breaker.go: the three states, `Allow`, `RecordSuccess`,
-- `RecordFailure` and the backoff. A method that runs without interference is one step; what a
-- call reads of the clock and draws from the random generator are its arguments. `none` is the
-- panic of `rand.Int63n` at a bound that is not positive. Gauges and log lines are left out; the
-- calls of `onStateChange` and `captureFunc` are returned as a list of reports, in their order.
mod Word
pub mod Machine
pub mod Backoff
pub mod Trip
pub mod Failing
pub mod Probe
pub mod Recovery
unfoldable pub use Word.{lt64, add64, sub64, mul64, div64, widen}
use Word.{int32, int64}
use central_auth.Common.{
  ℕ, ◌+◌, Bool, true, false, not, Option, none, some, List, [], ◌∷◌, ◌==◌, if◌then◌else◌, ◌>>=◌,
}

pub data State : Type 0 where
  closed opened half_open : State

-- `FailureThreshold` is an `int`; the rest are `int64`.
pub record Config : Type 0 where
  pub failure_threshold : ℕ
  pub probe_base_nanos : ℕ
  pub probe_max_nanos : ℕ
  pub jitter_pct : ℕ

pub record Breaker : Type 0 where
  pub state : State
  pub failures : ℕ  -- int32
  pub probe_in_flight : ℕ  -- int32
  pub next_probe_at : ℕ  -- int64
  pub backoff_nanos : ℕ  -- int64
  pub config : Config
  pub open config use *

-- A call of `onStateChange`, or of `captureFunc`.
pub data Report : Type 0 where
  changed : (from to : State) → Report
  captured : Report

-- `NewCircuitBreaker`
unfoldable pub new : Config → Breaker
new c = record {
  state = closed;
  failures = 0;
  probe_in_flight = 0;
  next_probe_at = 0;
  backoff_nanos = 0;
  config = c;
}

-- `probeInFlight.CompareAndSwap(0, 1)`
claim_probe : Breaker → Breaker × Bool
claim_probe b =
    if b.probe_in_flight == 0 then (record b { probe_in_flight = 1 }, true) else (b, false)

-- The branch of `Allow` at `StateOpen`, with its `fallthrough`. The swap of the state succeeds, as
-- the state was read in the same step.
allow_open : ℕ → Breaker → Breaker × Bool × List Report
unfolding claim_probe
allow_open now b =
    if lt64 now b.next_probe_at
    then (b, false, [])
    else let (b', won) = claim_probe (record b { state = half_open }) in
      (b', won, changed opened half_open ∷ [])

-- The `switch` of `Allow`.
allow_at : State → ℕ → Breaker → Breaker × Bool × List Report
unfolding allow_open claim_probe
allow_at closed now b = (b, true, [])
allow_at opened now b = allow_open now b
allow_at half_open now b = let (b', won) = claim_probe b in (b', won, [])

-- `Allow`
unfoldable pub allow : ℕ → Breaker → Breaker × Bool × List Report
unfolding allow_at
allow now b = allow_at b.state now b

abbrev report_closing : State → List Report
report_closing closed = []
report_closing from = changed from closed ∷ []

-- `RecordSuccess`
unfoldable pub record_success : Breaker → Breaker × List Report
record_success b =
    (record b { probe_in_flight = 0; failures = 0; state = closed }, report_closing b.state)

-- `applyJitter`; `draw n` is what `Int63n(n)` returns.
unfoldable pub apply_jitter : (ℕ → ℕ) → ℕ → ℕ → Option ℕ
apply_jitter draw pct base =
    let range = div64 (mul64 base pct) 100 in
    let bound = add64 (mul64 range 2) 1 in
    if range == 0
    then some base
    else if lt64 0 bound
    then some (add64 base (sub64 (draw bound) range))
    else none

-- `resetBackoff`
reset_backoff : (ℕ → ℕ) → Breaker → Option Breaker
reset_backoff draw b = do
  nanos ← apply_jitter draw b.jitter_pct b.probe_base_nanos
  some (record b { backoff_nanos = nanos })

-- `doubled`, after its cap
unfoldable pub doubled : Breaker → ℕ
doubled b =
    let twice = mul64 b.backoff_nanos 2 in
    if lt64 b.probe_max_nanos twice then b.probe_max_nanos else twice

-- `extendBackoff`
extend_backoff : (ℕ → ℕ) → Breaker → Option Breaker
extend_backoff draw b = do
  nanos ← apply_jitter draw b.jitter_pct (doubled b)
  some (record b { backoff_nanos = nanos })

-- A failed probe: the branch of `RecordFailure` at `StateHalfOpen`.
fail_probe : ℕ → (ℕ → ℕ) → Breaker → Option (Breaker × List Report)
unfolding extend_backoff
fail_probe now draw b = do
  b' ← extend_backoff draw (record b { probe_in_flight = 0 })
  some (
    record b' { next_probe_at = add64 now b'.backoff_nanos; state = opened },
    changed half_open opened ∷ captured ∷ [],
  )

-- `int(n) >= cb.cfg.FailureThreshold`
reaches_threshold : Breaker → ℕ → Bool
reaches_threshold b n = not (lt64 (widen n) b.failure_threshold)

-- CLOSED to OPEN; the state is swapped before the backoff is reset.
trip : ℕ → (ℕ → ℕ) → Breaker → Option (Breaker × List Report)
unfolding reset_backoff
trip now draw b = do
  b' ← reset_backoff draw (record b { state = opened })
  some (
    record b' { next_probe_at = add64 now b'.backoff_nanos },
    changed closed opened ∷ captured ∷ [],
  )

-- The branch of `RecordFailure` at `StateClosed`.
count_failure : ℕ → (ℕ → ℕ) → Breaker → Option (Breaker × List Report)
unfolding trip reaches_threshold
count_failure now draw b =
    let n = int32 (b.failures + 1) in
    let b' = record b { failures = n } in
    if reaches_threshold b' n then trip now draw b' else some (b', [])

-- The `switch` of `RecordFailure`.
fail_at : State → ℕ → (ℕ → ℕ) → Breaker → Option (Breaker × List Report)
unfolding fail_probe count_failure
fail_at half_open now draw b = fail_probe now draw b
fail_at closed now draw b = count_failure now draw b
fail_at opened now draw b = some (b, [])

-- `RecordFailure`
unfoldable pub record_failure : ℕ → (ℕ → ℕ) → Breaker → Option (Breaker × List Report)
unfolding fail_at
record_failure now draw b = fail_at b.state now draw b
