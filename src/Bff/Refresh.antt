-- ===== src/Bff/Refresh.antt =====
-- `doRefresh` of internal/service/bff_service.go.
pub mod Lock
use central_auth.Common.{
  ℕ, zero, suc, ◌+◌, ◌*◌, ◌/◌, String, Bool, true, false, not, Option, none, some, List, [], ◌∷◌,
  map, ltb, if◌then◌else◌, str_eq,
}
use central_auth.Common.Int.{ℤ, pos, sub_ℕ, lt_ℤ, max_ℤ}
use central_auth.Common.Eff.{
  Eff, Try, return, fail, wrapping, wrapped_result, checked_result, logged, checked, lift, ◌>>=◌,
  ◌>>◌,
}
use central_auth.Failure.{
  Failure, Result, ok, err, sentinel, wrap, is, redis_unavailable, session_not_found,
  session_blacklisted, session_gone,
}
use central_auth.Ports.{
  Blacklist, SessionStore, HydraClient, KratosClient, RedisRepo, DeviceSessionRepository,
  EventPublisher, Runtime,
}
use central_auth.Ports.Types.{BffSession, TokenSet, AccessTokenClaims, AuthSessionEvent}
use central_auth.Bff.{
  BffService, second, refresh_ttl_short, refresh_ttl_long, deref, expiry, is_fatal,
}

abbrev pub lock_ttl : ℕ
lock_ttl = 5 * second

abbrev pub poll_interval : ℕ
poll_interval = 250_000_000

-- `err == nil && updated.AccessTokenExp.After(sess.AccessTokenExp)`
abbrev pub is_newer : BffSession → Result BffSession → Bool
is_newer sess (ok updated) = ltb sess.access_token_exp updated.access_token_exp
is_newer sess (err e) = false

-- Ten waits of a quarter of a second pass the deadline.
abbrev pub poll_fuel : ℕ
poll_fuel = 10

module _ {W : Type 0} (s : BffService W) where
  open s use {
    hydra, kratos_client, session_store, blacklist, redis_repo, device_session_repo, publisher,
    runtime,
  }

  -- The store is read once more; the caller's session stands in if that fails.
  unfoldable pub reread : BffSession → Try W BffSession
  reread sess w =
      let (r, w') = session_store.get sess.session_id w in
      (elim r [ ok updated ↦ ok updated | err e ↦ ok sess ], w')

  -- The loop of a caller that did not get the lock, on fuel.
  unfoldable pub poll : ℕ → ℕ → BffSession → Try W BffSession
  poll zero deadline sess w = reread sess w
  poll (suc fuel) deadline sess w = elim (ltb (runtime.now w) deadline) [
    | false ↦ reread sess w
    | true ↦
        let (r, w₁) = session_store.get sess.session_id w in
        elim (is_newer sess r) [
          | true ↦ (r, w₁)
          | false ↦
              let (e, w₂) = runtime.wait poll_interval w₁ in
              elim e [ none ↦ poll fuel deadline sess w₂ | some c ↦ (err c, w₂) ]
        ]
  ]

  -- The part of `doRefresh` that runs under the lock.
  unfoldable pub rotate : BffSession → Try W BffSession
  rotate sess = do
    tokens ← wrapping (hydra.refresh_token sess.hydra_refresh_token)
    claims ← wrapping (hydra.validate_access_token tokens.access_token)
    now ← lift (λ w. (runtime.now w, w))
    let sess' = record sess {
      hydra_access_token = tokens.access_token;
      hydra_refresh_token = tokens.refresh_token;
      access_token_exp = expiry claims now;
    }
    wrapping (checked (session_store.update sess'))
    logged (
        redis_repo.rotate_refresh_token sess.kratos_id sess.device_id tokens.refresh_token
          (pos refresh_ttl_long))
    logged (device_session_repo.update_last_used_at sess.kratos_id sess.device_id)
    return sess'

  -- After `AcquireRefreshLock`; the lock is released when `rotate` returns.
  unfoldable pub refresh_with : BffSession → Result Bool → Try W BffSession
  refresh_with sess (err e) w = (err (wrap e), w)
  refresh_with sess (ok false) w = poll poll_fuel (runtime.now w + lock_ttl / 2) sess w
  refresh_with sess (ok true) w =
      let (r, w₁) = rotate sess w in
      let (e, w₂) = session_store.release_refresh_lock sess.session_id w₁ in (r, w₂)

  -- `doRefresh`
  unfoldable pub do_refresh : BffSession → Try W BffSession
  unfolding refresh_with
  do_refresh sess w =
      let (r, w') = session_store.acquire_refresh_lock sess.session_id (pos lock_ttl) w in
      refresh_with sess r w'
