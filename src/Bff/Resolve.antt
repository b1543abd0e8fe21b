-- ===== src/Bff/Resolve.antt =====
-- `ResolveSession` and `WhoAmI` of internal/service/bff_service.go.
pub mod Guard
use central_auth.Common.{
  ℕ, zero, suc, ◌+◌, ◌*◌, ◌/◌, String, Bool, true, false, not, Option, none, some, List, [], ◌∷◌,
  map, ltb, if◌then◌else◌, str_eq,
}
use central_auth.Common.Int.{ℤ, pos, sub_ℕ, lt_ℤ, max_ℤ}
use central_auth.Common.Eff.{
  Eff, Try, return, fail, wrapping, wrapped_result, checked_result, logged, checked, lift, ◌>>=◌,
  ◌>>◌,
}
use central_auth.Failure.{
  Failure, Result, ok, err, sentinel, wrap, is, redis_unavailable, session_not_found,
  session_blacklisted, session_gone,
}
use central_auth.Ports.{
  Blacklist, SessionStore, HydraClient, KratosClient, RedisRepo, DeviceSessionRepository,
  EventPublisher, Runtime,
}
use central_auth.Ports.Types.{BffSession, TokenSet, AccessTokenClaims, AuthSessionEvent}
use central_auth.Bff.{
  BffService, second, refresh_ttl_short, refresh_ttl_long, deref, expiry, is_fatal,
}
use central_auth.Bff.Refresh.{do_refresh}

-- The check that `ResolveSession` and `WhoAmI` begin with.
check_revoked : Bool × Option Failure → Result (Unit {0})
check_revoked (b, some e) = err (wrap e)
check_revoked (true, none) = err (sentinel session_blacklisted)
check_revoked (false, none) = ok tt

abbrev lookup_result : Result BffSession → Result BffSession
lookup_result (ok sess) = ok sess
lookup_result (err e) = err (if is session_not_found e then sentinel session_gone else wrap e)

abbrev pub or_stale : BffSession → Result BffSession → BffSession
or_stale sess (ok refreshed) = refreshed
or_stale sess (err e) = sess

module _ {W : Type 0} (s : BffService W) where
  open s use {
    hydra, kratos_client, session_store, blacklist, redis_repo, device_session_repo, publisher,
    runtime,
  }

  -- The session of a request that is not revoked.
  unfoldable pub lookup_session : String → Try W BffSession
  unfolding check_revoked
  lookup_session session_id = do
    (λ w. let (r, w') = blacklist.is_blacklisted session_id w in (check_revoked r, w'))
    (λ w. let (r, w') = session_store.get session_id w in (lookup_result r, w'))

  -- A token near its expiry is refreshed; a refresh that fails leaves the old one.
  unfoldable pub refresh_if_due : BffSession → Eff W BffSession
  refresh_if_due sess w =
      let due = lt_ℤ (sub_ℕ sess.access_token_exp (runtime.now w)) s.access_token_refresh_buffer in
      let (r, w') = do_refresh s sess w in if due then (or_stale sess r, w') else (sess, w)

  -- `ResolveSession`: the access token, the identity and the device
  unfoldable pub resolve_session : String → Try W (String × String × String)
  resolve_session session_id = do
    sess ← lookup_session session_id
    fresh ← lift (refresh_if_due sess)
    return (fresh.hydra_access_token, fresh.kratos_id, fresh.device_id)

  -- `WhoAmI`
  unfoldable pub who_am_i : String → Try W (String × String)
  who_am_i session_id = do sess ← lookup_session session_id; return (sess.kratos_id, sess.device_id)
