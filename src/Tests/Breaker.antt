-- ===== src/Tests/Breaker.antt =====
-- The circuit breaker at a threshold of two, with a jitter of twenty percent.
use central_auth.Common.{
  ℕ, ◌+◌, ◌%◌, ◌^◌, ◌≡◌, refl, String, true, false, none, some, List, [], ◌∷◌, arith, length,
}
use central_auth.Failure.{
  ok, sentinel, econnrefused, is_infra_error, is_infra, is, as_net, net_sentinel,
}
use central_auth.Ports.{Blacklist}
use central_auth.Resilient.{L1Cache, BlacklistPgRepository}
use central_auth.Resilient.Blacklist.Shared.{checks, checks-state_after}
use central_auth.Breaker.{
  Config, Breaker, closed, opened, half_open, changed, captured, Report, new, allow, record_success,
  record_failure, apply_jitter, lt64, widen, add64, sub64, mul64, div64,
}
use central_auth.Breaker.Backoff.{Draws, IsSane, next_interval, Within, reopen_backoff}
use central_auth.Breaker.Machine.{
  Call, allows, succeeds, fails, IsCoherent, run, changes, Leads, run-Leads, run-IsCoherent, step,
}
use central_auth.Breaker.Trip.{Fault, IsRegular, fail_all, state_after, trip_exact}
use central_auth.Breaker.Recovery.{recovers}
use central_auth.Breaker.Probe.{admit}

abbrev config : Config
config = record {
  failure_threshold = 2;
  probe_base_nanos = 1000;
  probe_max_nanos = 5000;
  jitter_pct = 20;
}

abbrev breaker : Breaker
breaker = new config

-- The generator that always answers 0.
abbrev low : ℕ → ℕ
low n = 0

abbrev low-Draws : Draws low
low-Draws n h = h

abbrev one_failed : Breaker
one_failed = record {
  state = closed;
  failures = 1;
  probe_in_flight = 0;
  next_probe_at = 0;
  backoff_nanos = 0;
  config = config;
}

abbrev open_breaker : Breaker
open_breaker = record {
  state = opened;
  failures = 2;
  probe_in_flight = 0;
  next_probe_at = 900;
  backoff_nanos = 800;
  config = config;
}

abbrev probing : Breaker
probing = record open_breaker { state = half_open; probe_in_flight = 1 }

breaker-IsCoherent : IsCoherent breaker
unfolding new
breaker-IsCoherent = record {
  threshold_pos = omega arith;
  threshold_small = omega arith;
  probing = λ h. ground arith;
  free_closed = λ h. refl;
  free_opened = λ h. refl;
  below = λ h. omega arith;
}

breaker-IsSane : IsSane breaker
unfolding new
breaker-IsSane = record {
  pct = omega arith;
  base = omega arith;
  max = omega arith;
  backoff = omega arith;
}

one_failed-IsSane : IsSane one_failed
one_failed-IsSane = record {
  pct = omega arith;
  base = omega arith;
  max = omega arith;
  backoff = omega arith;
}

probing-IsSane : IsSane probing
probing-IsSane = record {
  pct = omega arith;
  base = omega arith;
  max = omega arith;
  backoff = omega arith;
}

-- Two failures, a call after the backoff, and a success of it.
abbrev history : List Call
history = fails 100 low ∷ fails 100 low ∷ allows 1000 ∷ succeeds ∷ []

abbrev recovered : Breaker
recovered = record {
  state = closed;
  failures = 0;
  probe_in_flight = 0;
  next_probe_at = 900;
  backoff_nanos = 800;
  config = config;
}

abbrev reports : List Report
reports =
    changed closed opened ∷ captured ∷ changed opened half_open ∷ changed half_open closed ∷ []

runs : run breaker history ≡ some (recovered, reports)
unfolding run step new allow record_failure record_success apply_jitter lt64 widen add64 sub64 mul64
    div64
runs = refl

run-IsCoherent_example : IsCoherent recovered
run-IsCoherent_example = run-IsCoherent breaker history breaker-IsCoherent runs

run-Leads_example : Leads closed (changes reports) closed
unfolding new
run-Leads_example = run-Leads breaker history runs

abbrev fault : Fault
fault = record { now = 100; draw = low }

fault-IsRegular : IsRegular fault
fault-IsRegular = record { early = omega arith; draws = low-Draws }

trip_exact_example :
    (b' : Breaker) × (fail_all (record_success breaker).0 (fault ∷ fault ∷ []) ≡ some b')
    × (b'.state ≡ state_after 2 (length (fault ∷ fault ∷ [])))
unfolding new
trip_exact_example =
    trip_exact breaker (fault ∷ fault ∷ []) (omega arith) (omega arith) breaker-IsSane
      (fault-IsRegular, (fault-IsRegular, tt))

reopen_backoff_example :
    (b' : Breaker) × (record_failure 1000 low probing
      ≡ some (b', changed half_open opened ∷ captured ∷ []))
    × (b'.state ≡ opened)
    × (b'.probe_in_flight ≡ 0)
    × Within 20 (next_interval probing) b'.backoff_nanos
    × (b'.next_probe_at ≡ 1000 + b'.backoff_nanos)
    × IsSane b'
reopen_backoff_example = reopen_backoff 1000 low low-Draws probing probing-IsSane (omega arith) refl

open_breaker-IsCoherent : IsCoherent open_breaker
open_breaker-IsCoherent = record {
  threshold_pos = omega arith;
  threshold_small = omega arith;
  probing = λ h. ground arith;
  free_closed = λ h. ground arith;
  free_opened = λ h. refl;
  below = λ h. ground arith;
}

recovers_example :
    (let (probe, admitted, _) = allow 950 open_breaker in
      let (b', _) = record_success probe in
      (admitted ≡ true) × (admit b' (960 ∷ 970 ∷ []) ≡ (b', 2)))
unfolding lt64
recovers_example = recovers open_breaker 950 (960 ∷ 970 ∷ []) open_breaker-IsCoherent refl refl

abbrev reopened_breaker : Breaker
reopened_breaker = record open_breaker { backoff_nanos = 1280; next_probe_at = 2280 }

-- A Redis that refuses every check, in four hundred nanoseconds, and a cache that takes three hundred.
abbrev refusing : Blacklist ℕ
refusing = record {
  add = λ id ttl w. (none, w);
  is_blacklisted = λ id w. ((true, some (sentinel econnrefused)), w + 400);
  add_batch = λ ids ttl w. (none, w);
}

abbrev slow_cache : L1Cache ℕ
slow_cache = record { get = λ id w. (none, w + 300); set = λ id b ttl w. (tt, w) }

abbrev no_rows : BlacklistPgRepository ℕ
no_rows = record {
  is_blacklisted = λ id w. (ok false, w);
  add = λ id t w. (none, w);
  delete_expired = λ w. (none, w);
  list_active = λ w. (ok [], w);
}

-- A clock that starts again after a long time
abbrev clock : ℕ → ℕ
clock w = w % 2 ^ 60

-- With six checks a probe falls due and fails.
abbrev six : List String
six = "s1" ∷ "s2" ∷ "s3" ∷ "s4" ∷ "s5" ∷ "s6" ∷ []

checks-state_after_example :
    (let s =
        checks clock (λ w. low) refusing slow_cache no_rows six ((record_success breaker).0, 0) in
      (s.0.state ≡ opened) × (s.0.probe_in_flight ≡ 0))
unfolding is_infra_error is_infra is as_net net_sentinel new
checks-state_after_example =
    checks-state_after clock (λ w. low) refusing slow_cache no_rows (λ id w. refl) breaker 0 six
      (omega arith) (omega arith) breaker-IsSane (λ w. omega arith) (λ w. low-Draws)
