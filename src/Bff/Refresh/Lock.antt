-- ===== src/Bff/Refresh/Lock.antt =====
-- The refresh under the lock: what a caller without the lock does, and that its loop ends.
use central_auth.Common.{
  ℕ, zero, suc, ◌+◌, ◌*◌, ◌/◌, ◌≤◌, ◌≡◌, refl, String, true, none, arith, ◌≢◌,
}
use central_auth.Common.Eff.{Eff}
use central_auth.Common.Int.{pos}
use central_auth.Failure.{ok}
use central_auth.Ports.Types.{BffSession}
use central_auth.Bff.{BffService}
use central_auth.Bff.Refresh.{do_refresh, poll, poll_interval, poll_fuel, lock_ttl, reread}

-- Time does not run back in a read, and passes in a wait that is not cut short.
pub record TimeLaws {W : Type 0} (s : BffService W) : Type 0 where
  pub get_later :
      (id : String) (w : W) → s.runtime.now w ≤ s.runtime.now (s.session_store.get id w).1
  pub wait_passes :
      (d : ℕ) (w : W)
      → (s.runtime.wait d w).0 ≡ none
      → s.runtime.now w + d ≤ s.runtime.now (s.runtime.wait d w).1

module _ {W : Type 0} (s : BffService W) (laws : TimeLaws s) (sess : BffSession)
    (deadline : ℕ) where
  poll-done :
      (fuel : ℕ) (w : W)
      → deadline ≤ s.runtime.now w
      → poll s fuel deadline sess w ≡ reread s sess w
  unfolding poll
  poll-done zero w h = refl
  poll-done (suc fuel) w h = ground arith

  poll-enough :
      (fuel more : ℕ) (w : W)
      → fuel ≤ more
      → deadline ≤ s.runtime.now w + fuel * poll_interval
      → poll s more deadline sess w ≡ poll s fuel deadline sess w
  unfolding poll
  poll-enough zero more w f h = poll-done more w (omega arith)
  poll-enough (suc fuel) zero w f h = absurd (omega arith)
  poll-enough (suc fuel) (suc more) w f h =
      let w₁ = (s.session_store.get sess.session_id w).1 in
      let w₂ = (s.runtime.wait poll_interval w₁).1 in
      let later = laws.get_later sess.session_id w in
      let passed = laws.wait_passes poll_interval w₁ in ground (arith, poll-enough fuel more w₂)

-- If time does not run back in a read and passes in a wait that is not cut short, the loop of a
-- caller without the lock ends by its deadline: ten rounds are enough, and any more would give the
-- same result and the same world.
pub poll_fuel_enough :
    {W : Type 0} (s : BffService W) (sess : BffSession) (fuel : ℕ) (w : W)
    → TimeLaws s
    → poll_fuel ≤ fuel
    → poll s fuel (s.runtime.now w + lock_ttl / 2) sess w
      ≡ poll s poll_fuel (s.runtime.now w + lock_ttl / 2) sess w
poll_fuel_enough s sess fuel w laws h =
    poll-enough s laws sess (s.runtime.now w + lock_ttl / 2) poll_fuel fuel w h (omega arith)

-- What a call leaves as it was.
abbrev pub Leaves : {W A : Type 0} → (W → Type 0) → Eff W A → Type 0
Leaves {W} P m = (w : W) → P w → P (m w).1

module _ {W : Type 0} (s : BffService W) (P : W → Type 0)
    (reads : (id : String) → Leaves P (s.session_store.get id))
    (waits : (d : ℕ) → Leaves P (s.runtime.wait d))
    (locks : (id : String) → Leaves P (s.session_store.acquire_refresh_lock id (pos lock_ttl)))
    (sess : BffSession) where
  poll-Leaves : (fuel deadline : ℕ) → Leaves P (poll s fuel deadline sess)
  unfolding poll reread
  poll-Leaves zero deadline w p = reads sess.session_id w p
  poll-Leaves (suc fuel) deadline w p =
      let w₁ = (s.session_store.get sess.session_id w).1 in
      let p₁ : P w₁ = reads sess.session_id w p in
      let w₂ = (s.runtime.wait poll_interval w₁).1 in
      let p₂ : P w₂ = waits poll_interval w₁ p₁ in
      let p₃ : P (poll s fuel deadline sess w₂).1 = poll-Leaves fuel deadline w₂ p₂ in ground arith

  -- A `doRefresh` that does not get the lock only reads the store and waits: what the reads, the
  -- waits and the attempt at the lock leave as it was, it leaves as it was.
  pub do_refresh_without_lock :
      (w : W)
      → (s.session_store.acquire_refresh_lock sess.session_id (pos lock_ttl) w).0 ≢ ok true
      → P w
      → P (do_refresh s sess w).1
  unfolding do_refresh
  do_refresh_without_lock w h p =
      let w' = (s.session_store.acquire_refresh_lock sess.session_id (pos lock_ttl) w).1 in
      let p' : P w' = locks sess.session_id w p in
      let p'' = poll-Leaves poll_fuel (s.runtime.now w' + lock_ttl / 2) w' p' in ground arith
