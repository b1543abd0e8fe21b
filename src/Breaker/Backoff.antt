-- ===== src/Breaker/Backoff.antt =====
-- The backoff: no panic and no overflow under a sane configuration, and its bounds.
use central_auth.Common.{
  [], ◌∷◌, ℕ, ◌+◌, ◌-◌, ◌*◌, ◌/◌, ◌≤◌, ◌<◌, ◌^◌, ◌≡◌, true, refl, some, arith, ◌==◌, if◌then◌else◌,
  ltb,
}
use central_auth.Breaker.Word.{
  add64, sub64, mul64, div64, small, add64-small, mul64-small, div64-small,
}
use central_auth.Breaker.{
  Breaker, opened, half_open, changed, captured, apply_jitter, doubled, lt64, record_failure,
}

-- The random generator answers below its bound, as `Int63n` documents.
abbrev pub Draws : (ℕ → ℕ) → Type 0
Draws draw = (n : ℕ) → 0 < n → draw n < n

scaled_lt : (base pct : ℕ) → pct ≤ 100 → base < 2 ^ 54 → base * pct < small
scaled_lt base pct h k = grind arith

scaled_le : (base pct : ℕ) → pct ≤ 100 → base * pct ≤ base * 100
scaled_le base pct h = grind arith

range_small :
    (base pct : ℕ) → pct ≤ 100 → base < 2 ^ 54 → div64 (mul64 base pct) 100 ≡ base * pct / 100
range_small base pct h k =
    rw (mul64-small base pct (scaled_lt base pct h k)) (div64-small _ 100 (scaled_lt base pct h k))

range_le : (base pct : ℕ) → pct ≤ 100 → base * pct / 100 ≤ base
range_le base pct h = omega (arith, scaled_le base pct h)

bound_small : (range : ℕ) → range < 2 ^ 54 → add64 (mul64 range 2) 1 ≡ range * 2 + 1
unfolding add64 mul64
bound_small range h = omega arith

shift_small :
    (base range d : ℕ)
    → base < 2 ^ 54
    → range ≤ base
    → d < range * 2 + 1
    → add64 base (sub64 d range) ≡ base + d - range
unfolding add64 sub64
shift_small base range d h k l = omega arith

bound_pos : (range : ℕ) → range < 2 ^ 54 → lt64 0 (range * 2 + 1) ≡ true
unfolding lt64
bound_pos range h = ground arith

-- What `applyJitter` computes when nothing wraps, on the natural numbers.
abbrev pub jittered : (ℕ → ℕ) → ℕ → ℕ → ℕ
jittered draw pct base =
    let range = base * pct / 100 in if range == 0 then base else base + draw (range * 2 + 1) - range

module _ (draw : ℕ → ℕ) (draws : Draws draw) (pct base : ℕ) (h : pct ≤ 100)
    (k : base < 2 ^ 54) where
  -- Under a sane configuration the jitter neither panics nor overflows.
  pub apply_jitter-eq : apply_jitter draw pct base ≡ some (jittered draw pct base)
  unfolding apply_jitter
  apply_jitter-eq = rw (range_small base pct h k) (
      rw
        (
          bound_small range small_range,
          bound_pos range small_range,
          shift_small base range (draw (range * 2 + 1)) k (range_le base pct h)
              (draws (range * 2 + 1) (omega arith)),
        )
        (ground arith))
    where
      range : ℕ
      range = base * pct / 100

      small_range : range < 2 ^ 54
      small_range = omega (arith, range_le base pct h)

  pub jittered_bounds :
      (base - base * pct / 100 ≤ jittered draw pct base)
      × (jittered draw pct base ≤ base + base * pct / 100)
  jittered_bounds = ground (arith, draws (base * pct / 100 * 2 + 1), range_le base pct h)

-- A configuration and an interval that are far from the overflow of an `int64`.
pub record IsSane (b : Breaker) : Type 0 where
  pub pct : b.jitter_pct ≤ 100
  pub base : b.probe_base_nanos < 2 ^ 52
  pub max : b.probe_max_nanos < 2 ^ 52
  pub backoff : b.backoff_nanos < 2 ^ 53

-- The interval that a failed probe starts from, before jitter.
abbrev pub next_interval : Breaker → ℕ
next_interval b =
    if ltb b.probe_max_nanos (2 * b.backoff_nanos) then b.probe_max_nanos else 2 * b.backoff_nanos

doubled_lem : (b : Breaker) → IsSane b → doubled b ≡ next_interval b
unfolding doubled mul64 lt64
doubled_lem b s = ground arith

pub next_interval_lt : (b : Breaker) → IsSane b → next_interval b < 2 ^ 52
next_interval_lt b s = ground arith

-- `n` lies within `pct` percent of `base`.
abbrev pub Within : ℕ → ℕ → ℕ → Type 0
Within pct base n = (base - base * pct / 100 ≤ n) × (n ≤ base + base * pct / 100)

pub jittered_lt :
    (draw : ℕ → ℕ)
    → Draws draw
    → (pct base : ℕ) → pct ≤ 100
    → base < 2 ^ 52
    → jittered draw pct base < 2 ^ 53
jittered_lt draw draws pct base h k =
    omega (arith, (jittered_bounds draw draws pct base h (omega arith)).1, range_le base pct h)

-- A breaker that is open until the interval has passed.
abbrev pub reopened : ℕ → ℕ → Breaker → Breaker
reopened now nanos b = record b {
  state = opened;
  probe_in_flight = 0;
  backoff_nanos = nanos;
  next_probe_at = now + nanos;
}

module _ (now : ℕ) (draw : ℕ → ℕ) (draws : Draws draw) (b : Breaker) (sane : IsSane b)
    (early : now < 2 ^ 61) where
  pub reopen_eq :
      b.state ≡ half_open
      → record_failure now draw b
        ≡ some (
          reopened now (jittered draw b.jitter_pct (next_interval b)) b,
          changed half_open opened ∷ captured ∷ [],
        )
  unfolding record_failure
  reopen_eq h = ground (
    arith,
    apply_jitter-eq draw draws b.jitter_pct (next_interval b) sane.pct
        (omega (arith, next_interval_lt b sane)),
    doubled_lem (record b { probe_in_flight = 0 })
        (record { pct = sane.pct; base = sane.base; max = sane.max; backoff = sane.backoff }),
    add64-small now (jittered draw b.jitter_pct (next_interval b)) (omega arith) (
        omega (
          arith,
          jittered_lt draw draws b.jitter_pct (next_interval b) sane.pct (next_interval_lt b sane),
        )),
  )

  -- Under a sane configuration, a failure in HALF-OPEN reopens the breaker and frees the probe
  -- slot. The new interval is twice the old one or the maximum, whichever is less, within the
  -- jitter; the next probe is due when it has passed, and nothing overflows.
  pub reopen_backoff :
      b.state ≡ half_open
      → (b' : Breaker) × (record_failure now draw b
          ≡ some (b', changed half_open opened ∷ captured ∷ []))
        × (b'.state ≡ opened)
        × (b'.probe_in_flight ≡ 0)
        × Within b.jitter_pct (next_interval b) b'.backoff_nanos
        × (b'.next_probe_at ≡ now + b'.backoff_nanos)
        × IsSane b'
  reopen_backoff h = (
    reopened now (jittered draw b.jitter_pct (next_interval b)) b,
    reopen_eq h,
    refl,
    refl,
    jittered_bounds draw draws b.jitter_pct (next_interval b) sane.pct
        (omega (arith, next_interval_lt b sane)),
    refl,
    record {
      pct = sane.pct;
      base = sane.base;
      max = sane.max;
      backoff =
          jittered_lt draw draws b.jitter_pct (next_interval b) sane.pct (next_interval_lt b sane);
    },
  )
