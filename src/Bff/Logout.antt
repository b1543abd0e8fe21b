-- ===== src/Bff/Logout.antt =====
-- `Logout` and `LogoutAll` of internal/service/bff_service.go.
pub mod Order
use central_auth.Common.{
  ℕ, zero, suc, ◌+◌, ◌*◌, ◌/◌, String, Bool, true, false, not, Option, none, some, List, [], ◌∷◌,
  map, ltb, if◌then◌else◌, str_eq,
}
use central_auth.Common.Int.{ℤ, pos, sub_ℕ, lt_ℤ, max_ℤ}
use central_auth.Common.Eff.{
  Eff, Try, return, fail, wrapping, wrapped_result, checked_result, logged, checked, lift, ◌>>=◌,
  ◌>>◌,
}
use central_auth.Failure.{
  Failure, Result, ok, err, sentinel, wrap, is, redis_unavailable, session_not_found,
  session_blacklisted, session_gone,
}
use central_auth.Ports.{
  Blacklist, SessionStore, HydraClient, KratosClient, RedisRepo, DeviceSessionRepository,
  EventPublisher, Runtime,
}
use central_auth.Ports.Types.{BffSession, TokenSet, AccessTokenClaims, AuthSessionEvent}
use central_auth.Bff.{
  BffService, second, refresh_ttl_short, refresh_ttl_long, deref, expiry, is_fatal,
}

-- `blacklist.Add` or `AddBatch` as the logouts read its error
abbrev pub accepted : Option Failure → Result (Unit {0})
accepted none = ok tt
accepted (some e) = if is redis_unavailable e then ok tt else err (wrap e)

-- The longest time that any of the sessions has left, from `max` on.
abbrev pub max_ttl : ℕ → ℤ → List BffSession → ℤ
max_ttl now max [] = max
max_ttl now max (sess ∷ rest) = max_ttl now (max_ℤ max (sub_ℕ sess.expires_at now)) rest

abbrev pub session_ids : List BffSession → List String
session_ids = map (λ sess. sess.session_id)

module _ {W : Type 0} (s : BffService W) where
  open s use {
    hydra, kratos_client, session_store, blacklist, redis_repo, device_session_repo, publisher,
    runtime,
  }

  abbrev blacklisting : Eff W (Option Failure) → Try W Unit
  blacklisting m w = let (e, w') = m w in (accepted e, w')

  -- What follows the blacklisting in `Logout`: every error is logged and passed over.
  unfoldable pub revoke_one : String → BffSession → Try W Unit
  revoke_one session_id sess = do
    logged (hydra.revoke_token sess.hydra_refresh_token)
    logged (
        if str_eq sess.kratos_session_id ""
        then kratos_client.delete_sessions sess.kratos_id
        else kratos_client.delete_session sess.kratos_session_id)
    logged (session_store.delete session_id)
    logged (redis_repo.logout_device sess.kratos_id sess.device_id)
    logged (device_session_repo.revoke_device sess.kratos_id sess.device_id)

  -- `Logout` of the session that was found
  pub logout_found : String → Result BffSession → Try W Unit
  logout_found session_id (err e) w = (if is session_not_found e then ok tt else err (wrap e), w)
  logout_found session_id (ok sess) w =
      (do
        blacklisting (λ w. blacklist.add session_id (sub_ℕ sess.expires_at (runtime.now w)) w)
        revoke_one session_id sess)
        w

  -- `Logout`
  unfoldable pub logout : String → Try W Unit
  unfolding logout_found
  logout session_id w = let (r, w') = session_store.get session_id w in logout_found session_id r w'

  -- What follows the blacklisting in `LogoutAll`.
  unfoldable pub revoke_all : String → Try W Unit
  revoke_all kratos_id = do
    wrapping (checked (hydra.revoke_all_for_subject kratos_id))
    logged (kratos_client.delete_sessions kratos_id)
    logged (session_store.delete_all_for_user kratos_id)
    logged (redis_repo.logout_all kratos_id)
    logged (device_session_repo.revoke_all_devices kratos_id)

  -- `LogoutAll` of the user whose session was found
  pub logout_all_found : Result BffSession → Try W Unit
  logout_all_found (err e) w = (if is session_not_found e then ok tt else err (wrap e), w)
  logout_all_found (ok sess) w =
      (do
        all ← wrapping (session_store.get_all_for_user sess.kratos_id)
        blacklisting (λ w'.
            blacklist.add_batch (session_ids all)
              (max_ttl (runtime.now w') (sub_ℕ sess.expires_at (runtime.now w')) all) w')
        revoke_all sess.kratos_id)
        w

  -- `LogoutAll`
  unfoldable pub logout_all : String → Try W Unit
  unfolding logout_all_found
  logout_all session_id w = let (r, w') = session_store.get session_id w in logout_all_found r w'
