-- ===== src/Breaker/Failing.antt =====
-- Calls that fail one after the other, each from its admission to the record of its failure, with
-- the probes that fall due in between.
use central_auth.Common.{
  ℕ, ◌+◌, ◌≤◌, ◌<◌, ◌^◌, ◌≡◌, refl, sym, ap, ◌∙◌, true, false, Option, none, some, List, arith,
  if◌then◌else◌, ltb, Bool-cases, inl, inr,
}
use mathlib.Core.Path.{subst}
use central_auth.Breaker.{Breaker, Report, closed, opened, half_open, allow, record_failure, lt64}
use central_auth.Breaker.Backoff.{IsSane, jittered_lt, reopen_eq, next_interval, next_interval_lt}
use central_auth.Breaker.Trip.{Fault, IsRegular, count_eq, trip_eq, state_after}

-- The breaker after a failure is recorded. A panic of the generator, which a sane configuration
-- excludes, is taken to leave it as it was.
abbrev pub recorded : Breaker → Option (Breaker × List Report) → Breaker
recorded b none = b
recorded b (some (b', reports)) = b'

-- What a call does to the breaker when it fails, from its admission to the record of the failure
unfoldable pub failed_call : (asked : ℕ) → Fault → Breaker → Breaker
failed_call asked f b =
    let (b', admitted, _) = allow asked b in
    if admitted then recorded b' (record_failure f.now f.draw b') else b'

-- The breaker of a caller that has won the probe
abbrev probing : Breaker → Breaker
probing b = record b { state = half_open; probe_in_flight = 1 }

module _ (asked : ℕ) (f : Fault) (b : Breaker) where
  failed_call-closed :
      b.state ≡ closed → failed_call asked f b ≡ recorded b (record_failure f.now f.draw b)
  unfolding failed_call allow
  failed_call-closed c = ground arith

  failed_call-early :
      b.state ≡ opened → lt64 asked b.next_probe_at ≡ true → failed_call asked f b ≡ b
  unfolding failed_call allow
  failed_call-early o early = ground arith

  failed_call-due :
      b.state ≡ opened
      → lt64 asked b.next_probe_at ≡ false
      → b.probe_in_flight ≡ 0
      → failed_call asked f b ≡ recorded (probing b) (record_failure f.now f.draw (probing b))
  unfolding failed_call allow
  failed_call-due o due free = ground arith

-- The breaker when `n` calls have failed, none of them still under way
pub data Failed (n threshold : ℕ) (b : Breaker) : Type 0 where
  counting : b.state ≡ closed → b.failures ≡ n → n < threshold → Failed n threshold b
  waiting : b.state ≡ opened → threshold ≤ n → Failed n threshold b

pub record HasFailed (n threshold : ℕ) (b : Breaker) : Type 0 where
  pub limit : b.failure_threshold ≡ threshold
  pub free : b.probe_in_flight ≡ 0
  pub sane : IsSane b
  pub phase : Failed n threshold b

module _ (n threshold asked : ℕ) (f : Fault) (b : Breaker) (small : threshold < 2 ^ 31)
    (r : IsRegular f) (h : HasFailed n threshold b) where
  after_counting :
      b.state ≡ closed
      → b.failures ≡ n
      → n < threshold
      → HasFailed (n + 1) threshold (failed_call asked f b)
  after_counting c k below = elim (Bool-cases (ltb (n + 1) threshold)) [
    | inl more ↦
        subst (HasFailed (n + 1) threshold)
          (sym (
            failed_call-closed asked f b c
            ∙ ap (recorded b) (
                count_eq f b (omega (arith, small, h.limit)) c (ground (arith, k, more, h.limit)))))
          (record {
            limit = h.limit;
            free = h.free;
            sane = record {
              pct = h.sane.pct;
              base = h.sane.base;
              max = h.sane.max;
              backoff = h.sane.backoff;
            };
            phase = counting c (ap (λ m. m + 1) k) (ground (arith, more));
          })
    | inr last ↦
        subst (HasFailed (n + 1) threshold)
          (sym (
            failed_call-closed asked f b c
            ∙ ap (recorded b) (
                trip_eq f b (omega (arith, small, h.limit)) r h.sane c
                  (omega (arith, k, below, small)) (ground (arith, k, last, h.limit)))))
          (record {
            limit = h.limit;
            free = h.free;
            sane = record {
              pct = h.sane.pct;
              base = h.sane.base;
              max = h.sane.max;
              backoff =
                  jittered_lt f.draw r.draws b.jitter_pct b.probe_base_nanos h.sane.pct h.sane.base;
            };
            phase = waiting refl (ground (arith, last));
          })
  ]

  after_waiting :
      b.state ≡ opened → threshold ≤ n → HasFailed (n + 1) threshold (failed_call asked f b)
  after_waiting o over = elim (Bool-cases (lt64 asked b.next_probe_at)) [
    | inl early ↦
        subst (HasFailed (n + 1) threshold) (sym (failed_call-early asked f b o early)) (record {
          limit = h.limit;
          free = h.free;
          sane = h.sane;
          phase = waiting o (omega arith);
        })
    | inr due ↦
        let p = probing b in
        let sane : IsSane p = record {
          pct = h.sane.pct;
          base = h.sane.base;
          max = h.sane.max;
          backoff = h.sane.backoff;
        } in
        subst (HasFailed (n + 1) threshold)
          (sym (
            failed_call-due asked f b o due h.free
            ∙ ap (recorded p) (reopen_eq f.now f.draw r.draws p sane r.early refl)))
          (record {
            limit = h.limit;
            free = refl;
            sane = record {
              pct = h.sane.pct;
              base = h.sane.base;
              max = h.sane.max;
              backoff =
                  jittered_lt f.draw r.draws b.jitter_pct (next_interval p) h.sane.pct
                    (next_interval_lt p sane);
            };
            phase = waiting refl (omega arith);
          })
  ]

  pub failed_call-HasFailed : HasFailed (n + 1) threshold (failed_call asked f b)
  failed_call-HasFailed = elim h.phase [
    | counting c k below ↦ after_counting c k below
    | waiting o over ↦ after_waiting o over
  ]

pub HasFailed-state_after :
    (n threshold : ℕ) (b : Breaker)
    → HasFailed n threshold b
    → (b.state ≡ state_after threshold n) × (b.probe_in_flight ≡ 0)
HasFailed-state_after n threshold b h = elim h.phase [
  | counting c k below ↦ (c ∙ ground (arith, below), h.free)
  | waiting o over ↦ (o ∙ ground (arith, over), h.free)
]
