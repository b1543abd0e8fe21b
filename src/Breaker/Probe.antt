-- ===== src/Breaker/Probe.antt =====
-- Who may probe: one caller after the backoff, until somebody records an outcome.
use central_auth.Common.{
  ℕ, ◌+◌, ◌≡◌, refl, List, [], ◌∷◌, some, arith, if◌then◌else◌, not, Bool, true, false, ◌||◌,
}
use central_auth.Breaker.Word.{lt64}
use central_auth.Breaker.{Breaker, opened, half_open, Report, allow, record_failure}

-- Callers that ask one after the other, and how many are admitted.
unfoldable pub admit : Breaker → List ℕ → Breaker × ℕ
admit b [] = (b, 0)
admit b (now ∷ later) =
    let (b', admitted, reports) = allow now b in
    let (b'', n) = admit b' later in (b'', if admitted then n + 1 else n)

-- Some caller asks when the backoff has passed.
abbrev pub is_due : Breaker → List ℕ → Bool
is_due b [] = false
is_due b (now ∷ later) = not (lt64 now b.next_probe_at) || is_due b later

admit-half_open :
    (b : Breaker) (times : List ℕ)
    → b.state ≡ half_open
    → b.probe_in_flight ≡ 1
    → admit b times ≡ (b, 0)
unfolding admit allow
admit-half_open b [] h k = refl
admit-half_open b (now ∷ later) h k = ground (arith, admit-half_open b later h k)

-- However many callers ask an open breaker whose probe slot is free, one is admitted if some
-- caller asks after the backoff has passed, and none otherwise. With one admitted the breaker is
-- half open and the slot taken; with none it is as before.
pub admit-opened :
    (b : Breaker) (times : List ℕ)
    → b.state ≡ opened
    → b.probe_in_flight ≡ 0
    → admit b times ≡ (
        if is_due b times then (record b { state = half_open; probe_in_flight = 1 }, 1) else (b, 0))
unfolding admit allow
admit-opened b [] h k = refl
admit-opened b (now ∷ later) h k = ground (
  arith,
  admit-opened b later h k,
  admit-half_open (record b { state = half_open; probe_in_flight = 1 }) later refl refl,
)

-- A failure that is recorded while a probe is in flight frees the slot: once the new backoff has
-- passed, a second probe is admitted.
pub probes_overlap :
    (b b' : Breaker) (now later : ℕ) (draw : ℕ → ℕ) (reports : List Report)
    → b.state ≡ half_open
    → b.probe_in_flight ≡ 1
    → record_failure now draw b ≡ some (b', reports)
    → lt64 later b'.next_probe_at ≡ false
    → ((allow later b').1 ≡ true) × ((allow later b').0.probe_in_flight ≡ 1)
unfolding allow record_failure
probes_overlap b b' now later draw reports h k f due = ground arith
