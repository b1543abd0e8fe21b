-- ===== src/Breaker/Trip.antt =====
-- When the breaker trips: at the threshold of consecutive failures, and not before.
use central_auth.Common.{
  ℕ, ◌+◌, ◌-◌, ◌≤◌, ◌<◌, ◌^◌, ◌≡◌, refl, List, [], ◌∷◌, Option, some, arith, ltb, leb, length,
  if◌then◌else◌, ◌>>=◌, All, inl, inr, Bool-cases,
}
use central_auth.Breaker.Word.{widen, add64-small, lt64}
use central_auth.Breaker.{
  Breaker, State, closed, opened, changed, captured, record_failure, record_success,
}
use central_auth.Breaker.Backoff.{
  Draws, IsSane, jittered, jittered_lt, apply_jitter-eq, Within, jittered_bounds,
}

-- A failure, with the time at which it is recorded and the generator's answers.
pub record Fault : Type 0 where
  pub now : ℕ
  pub draw : ℕ → ℕ

-- The time is far from the overflow of an `int64`, and the generator keeps to its contract.
pub record IsRegular (f : Fault) : Type 0 where
  pub early : f.now < 2 ^ 61
  pub draws : Draws f.draw

-- Failures recorded one after the other, with no success between them.
unfoldable pub fail_all : Breaker → List Fault → Option Breaker
fail_all b [] = some b
fail_all b (f ∷ fs) = do (b', reports) ← record_failure f.now f.draw b; fail_all b' fs

-- The breaker after the failure that trips it.
abbrev pub tripped : Fault → Breaker → Breaker
tripped f b =
    let nanos = jittered f.draw b.jitter_pct b.probe_base_nanos in
    record b {
      state = opened;
      failures = b.failures + 1;
      backoff_nanos = nanos;
      next_probe_at = f.now + nanos;
    }

module _ (f : Fault) (b : Breaker) (small : b.failure_threshold < 2 ^ 31) where
  pub count_eq :
      b.state ≡ closed
      → b.failures + 1 < b.failure_threshold
      → record_failure f.now f.draw b ≡ some (record b { failures = b.failures + 1 }, [])
  unfolding record_failure widen lt64
  count_eq c h = ground arith

  pub trip_eq :
      IsRegular f
      → IsSane b
      → b.state ≡ closed
      → b.failures < 2 ^ 31 - 1
      → b.failure_threshold ≤ b.failures + 1
      → record_failure f.now f.draw b ≡ some (tripped f b, changed closed opened ∷ captured ∷ [])
  unfolding record_failure widen lt64
  trip_eq r s c k h = ground (
    arith,
    apply_jitter-eq f.draw r.draws b.jitter_pct b.probe_base_nanos s.pct (omega arith),
    add64-small f.now (jittered f.draw b.jitter_pct b.probe_base_nanos) (omega arith)
        (omega (arith, jittered_lt f.draw r.draws b.jitter_pct b.probe_base_nanos s.pct s.base)),
  )

fail_all-opened : (b : Breaker) (fs : List Fault) → b.state ≡ opened → fail_all b fs ≡ some b
unfolding fail_all record_failure
fail_all-opened b [] h = refl
fail_all-opened b (f ∷ fs) h = ground (arith, fail_all-opened b fs h)

-- What a closed breaker becomes after `n` failures in a row.
abbrev pub state_after : ℕ → ℕ → State
state_after threshold n = if leb threshold n then opened else closed

trip_from :
    (b : Breaker) (fs : List Fault)
    → b.state ≡ closed
    → b.failures < b.failure_threshold
    → b.failure_threshold < 2 ^ 31
    → IsSane b
    → All IsRegular fs
    → (b' : Breaker) × (fail_all b fs ≡ some b')
      × (b'.state ≡ state_after b.failure_threshold (b.failures + length fs))
unfolding fail_all
trip_from b [] c k s v r = (b, refl, ground arith)
trip_from b (f ∷ fs) c k s v r = elim (Bool-cases (ltb (b.failures + 1) b.failure_threshold)) [
  | inl more ↦
      let (b', e, h) =
        trip_from (record b { failures = b.failures + 1 }) fs c (ground arith) s
          (record { pct = v.pct; base = v.base; max = v.max; backoff = v.backoff }) r.1 in
      (b', rw (count_eq f b s c (ground arith)) e, ground (arith))
  | inr last ↦ (
    tripped f b,
    rw (trip_eq f b s r.0 v c (omega arith) (ground arith)) (fail_all-opened (tripped f b) fs refl),
    ground arith,
  )
]

-- Under a sane configuration with a positive threshold below 2 ^ 31, and at times far from the
-- overflow: after a success, any number of failures in a row leave the breaker closed while they
-- are fewer than the threshold, and open from the threshold on; none of them panics.
pub trip_exact :
    (b : Breaker) (fs : List Fault)
    → 0 < b.failure_threshold
    → b.failure_threshold < 2 ^ 31
    → IsSane b
    → All IsRegular fs
    → (b' : Breaker) × (fail_all (record_success b).0 fs ≡ some b')
      × (b'.state ≡ state_after b.failure_threshold (length fs))
unfolding record_success
trip_exact b fs p s v r =
    let (b', e, h) =
      trip_from (record_success b).0 fs refl (omega arith) s
        (record { pct = v.pct; base = v.base; max = v.max; backoff = v.backoff }) r in
    (b', e, ground arith)

-- Under a sane configuration the failure that brings a closed breaker to its threshold opens it and
-- reports it; the first interval lies within the jitter of the configured base, and the next probe
-- is due when it has passed.
pub trip_backoff :
    (f : Fault) (b : Breaker)
    → IsRegular f
    → IsSane b
    → b.state ≡ closed
    → b.failures + 1 ≡ b.failure_threshold
    → b.failure_threshold < 2 ^ 31
    → (b' : Breaker) × (record_failure f.now f.draw b
        ≡ some (b', changed closed opened ∷ captured ∷ []))
      × (b'.state ≡ opened)
      × Within b.jitter_pct b.probe_base_nanos b'.backoff_nanos
      × (b'.next_probe_at ≡ f.now + b'.backoff_nanos)
trip_backoff f b r v c k s = (
  tripped f b,
  trip_eq f b s r v c (omega arith) (omega arith),
  refl,
  jittered_bounds f.draw r.draws b.jitter_pct b.probe_base_nanos v.pct (omega arith),
  refl,
)
