-- ===== src/Breaker/Recovery.antt =====
-- An open breaker recovers.
use central_auth.Common.{ℕ, ◌≡◌, refl, List, [], ◌∷◌, arith, true, false, length}
use central_auth.Breaker.Word.{lt64}
use central_auth.Breaker.{Breaker, closed, opened, allow, record_success}
use central_auth.Breaker.Machine.{IsCoherent}
use central_auth.Breaker.Probe.{admit}

admit-closed : (b : Breaker) (times : List ℕ) → b.state ≡ closed → admit b times ≡ (b, length times)
unfolding admit allow
admit-closed b [] h = refl
admit-closed b (now ∷ later) h = ground (arith, admit-closed b later h)

-- A breaker that is open and in order does not stay open: the first caller that asks once the
-- backoff has passed is admitted, and when its call succeeds, every caller from then on is admitted,
-- at whatever time, until a failure is recorded.
pub recovers :
    (b : Breaker) (now : ℕ) (times : List ℕ)
    → IsCoherent b
    → b.state ≡ opened
    → lt64 now b.next_probe_at ≡ false
    → (let (probing, admitted, _) = allow now b in
        let (b', _) = record_success probing in
        (admitted ≡ true) × (admit b' times ≡ (b', length times)))
unfolding allow record_success
recovers b now times coherent is_open due =
    let (probing, _, _) = allow now b in
    let (b', _) = record_success probing in
    (ground (arith, is_open, due, coherent.free_opened is_open), admit-closed b' times refl)
