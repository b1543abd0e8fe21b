-- ===== src/Auth.antt =====
-- internal/service/auth_service.go: the operations of the gRPC service, `OryAuthService`. Log lines
-- are left out; a value that is sent as RFC 3339 text is kept as the time.
pub mod Verify
use Prim.Native.String.{◌++◌}
use central_auth.Common.{
  ◌+◌, ◌*◌, ◌/◌, ℕ, String, Bool, true, false, not, ◌||◌, Option, none, some, List, [], ◌∷◌,
  if◌then◌else◌, str_eq,
}
use central_auth.Common.Int.{ℤ, pos}
use central_auth.Common.Eff.{Eff, Try, return, fail, wrapping, logged, checked, lift, ◌>>=◌, ◌>>◌}
use central_auth.Failure.{
  Failure, Result, ok, err, sentinel, wrap, wrap₂, plain, is, redis_unavailable, invalid_token,
  token_revoked, email_conflict, kratos_email_conflict, invalid_credentials,
  kratos_invalid_credentials,
}
use central_auth.Ports.{
  Blacklist, HydraClient, KratosClient, RedisRepo, DeviceSessionRepository, EventPublisher, Runtime,
}
use central_auth.Ports.Types.{TokenSet, IntrospectResult, AccessTokenClaims, device_id}
use central_auth.Bff.Logout.{accepted}
use central_auth.Bff.{second, refresh_ttl_short, refresh_ttl_long, deref}

-- `OryAuthService`; the blacklist and the Kratos client are optional.
pub record AuthService (W : Type 0) : Type 0 where
  pub hydra : HydraClient W
  pub redis_repo : RedisRepo W
  pub device_session_repo : DeviceSessionRepository W
  pub kratos_client : Option (KratosClient W)
  pub blacklist : Option (Blacklist W)
  pub publisher : EventPublisher W
  pub runtime : Runtime W

pub record VerifyResult : Type 0 where
  pub kratos_id : String
  pub device_id : String
  pub expires_at : ℕ

-- `accessTokenTTL + blacklistSyncExtra`
abbrev sync_lifetime : ℕ
sync_lifetime = (15 + 5) * 60 * second

abbrev pub device_key : (kratos_id device_id : String) → String
device_key k d = "device:" ++ k ++ ":" ++ d

abbrev pub user_key : String → String
user_key k = "user:" ++ k

-- `return fmt.Errorf("%w: %w", ErrInvalidToken, err)`
abbrev invalid_result : {A : Type 0} → Result A → Result A
invalid_result (ok a) = ok a
invalid_result (err e) = err (wrap₂ (sentinel invalid_token) e)

abbrev pub unix : Option ℕ → ℕ
unix none = 0
unix (some t) = t / second

module _ {W : Type 0} (s : AuthService W) where
  open s use {hydra, redis_repo, device_session_repo, kratos_client, blacklist, publisher, runtime}

  abbrev or_invalid : {A : Type 0} → Try W A → Try W A
  or_invalid m w = let (r, w') = m w in (invalid_result r, w')

  -- The id of the new access token, or "" if it does not parse.
  audit_jti : String → Try W String
  audit_jti access_token w =
      let (r, w') = hydra.validate_access_token access_token w in
      (elim r [ ok claims ↦ ok claims.id | err e ↦ ok "" ], w')

  -- `Login`
  unfoldable pub login :
      (kratos_id device_id : String)
      → Bool
      → (user_agent ip : Option String) → Try W (String × String)
  unfolding audit_jti
  login kratos_id device_id remember_me user_agent ip = do
    tokens ← wrapping (hydra.issue_tokens kratos_id device_id remember_me)
    let refresh_ttl = if remember_me then refresh_ttl_long else refresh_ttl_short
    wrapping
        (checked (redis_repo.save_login kratos_id device_id tokens.refresh_token (pos refresh_ttl)))
    jti ← audit_jti tokens.access_token
    lift (λ w.
        publisher.publish_auth_session
          (record {
            event_type = "auth.session.created";
            kratos_id = kratos_id;
            device_id = device_id;
            hydra_jti = jti;
            ip_address = deref ip;
            user_agent = deref user_agent;
            timestamp = runtime.now w;
          })
          w)
    return (tokens.access_token, tokens.refresh_token)

  -- The revocation key is written if there is a blacklist; a degraded write is no error.
  abbrev pub blacklisting : Option (Blacklist W) → String → Try W Unit
  blacklisting none key w = (ok tt, w)
  blacklisting (some b) key w = let (e, w') = b.add key (pos refresh_ttl_long) w in (accepted e, w')

  publish_sync : (target_type target_value reason : String) → Try W Unit
  publish_sync target_type target_value reason = lift (λ w.
      publisher.publish_blacklist_sync
        (record {
          event_type = "blacklist.sync";
          target_type = target_type;
          target_value = target_value;
          reason = reason;
          expires_at = some (runtime.now w + sync_lifetime);
          timestamp = runtime.now w;
        })
        w)

  -- What follows the claims in `Logout`.
  revoke_one : (refresh_token kratos_id device_id : String) → Try W Unit
  unfolding publish_sync
  revoke_one refresh_token kratos_id device_id = do
    wrapping (checked (hydra.revoke_token refresh_token))
    blacklisting blacklist (device_key kratos_id device_id)
    publish_sync "DEVICE" (kratos_id ++ ":" ++ device_id) "user logout"
    logged (redis_repo.logout_device kratos_id device_id)
    logged (device_session_repo.revoke_device kratos_id device_id)

  logout_active : String → IntrospectResult → Try W Unit
  unfolding revoke_one
  logout_active refresh_token r w =
      if not r.active
      then (err (wrap (sentinel invalid_token)), w)
      else if str_eq r.subject "" || str_eq (device_id r.ext) ""
      then (err (wrap (sentinel invalid_token)), w)
      else revoke_one refresh_token r.subject (device_id r.ext) w

  -- `Logout`
  unfoldable pub logout : String → Try W Unit
  unfolding logout_active
  logout refresh_token = do
    introspect ← or_invalid (hydra.introspect_token refresh_token)
    logout_active refresh_token introspect

  -- What follows the claims in `LogoutAll`.
  revoke_all : String → Try W Unit
  unfolding publish_sync
  revoke_all kratos_id = do
    wrapping (checked (hydra.revoke_all_for_subject kratos_id))
    blacklisting blacklist (user_key kratos_id)
    publish_sync "USER" kratos_id "user logout-all"
    logged (redis_repo.logout_all kratos_id)
    logged (device_session_repo.revoke_all_devices kratos_id)

  logout_all_active : IntrospectResult → Try W Unit
  unfolding revoke_all
  logout_all_active r w =
      if not r.active
      then (err (wrap (sentinel invalid_token)), w)
      else if str_eq r.subject ""
      then (err (wrap (sentinel invalid_token)), w)
      else revoke_all r.subject w

  -- `LogoutAll`
  unfoldable pub logout_all : String → Try W Unit
  unfolding logout_all_active
  logout_all refresh_token = do
    introspect ← or_invalid (hydra.introspect_token refresh_token)
    logout_all_active introspect

  -- `Refresh`
  unfoldable pub refresh : String → Try W (String × String)
  refresh refresh_token = do
    tokens ← or_invalid (hydra.refresh_token refresh_token)
    claims ← wrapping (hydra.validate_access_token tokens.access_token)
    logged (
        redis_repo.rotate_refresh_token claims.subject (device_id claims.ext) tokens.refresh_token
          (pos refresh_ttl_long))
    logged (device_session_repo.update_last_used_at claims.subject (device_id claims.ext))
    return (tokens.access_token, tokens.refresh_token)

  abbrev verdict : Bool × Option Failure → Result (Unit {0})
  verdict (b, some e) = err (wrap₂ (sentinel token_revoked) e)
  verdict (true, none) = err (wrap (sentinel token_revoked))
  verdict (false, none) = ok tt

  -- The loop of `VerifyToken` over the revocation keys.
  unfoldable pub check_keys : Blacklist W → List String → Try W Unit
  check_keys b [] = return tt
  check_keys b (key ∷ keys) = do
    (λ w. let (answer, w') = b.is_blacklisted key w in (verdict answer, w'))
    check_keys b keys

  unfoldable pub check_revoked : Option (Blacklist W) → (kratos_id device_id : String) → Try W Unit
  unfolding check_keys
  check_revoked none k d = return tt
  check_revoked (some b) k d = check_keys b (device_key k d ∷ user_key k ∷ [])

  unfoldable pub verify_claims : AccessTokenClaims → Try W VerifyResult
  unfolding check_revoked
  verify_claims claims w =
      if str_eq claims.subject "" || str_eq (device_id claims.ext) ""
      then (err plain, w)
      else (do
        check_revoked blacklist claims.subject (device_id claims.ext)
        return (record {
          kratos_id = claims.subject;
          device_id = device_id claims.ext;
          expires_at = unix claims.expires_at;
        }))
          w

  -- `VerifyToken`
  unfoldable pub verify_token : String → Try W VerifyResult
  unfolding verify_claims
  verify_token access_token = do
    claims ← hydra.validate_access_token access_token
    verify_claims claims

  signed_up : Result String → Result String
  signed_up (ok id) = ok id
  signed_up (err e) = err (if is kratos_email_conflict e then sentinel email_conflict else wrap e)

  signup_with : Option (KratosClient W) → String → Try W String
  unfolding signed_up
  signup_with none email w = (err plain, w)
  signup_with (some kratos) email w =
      let (r, w') = kratos.create_identity email w in (signed_up r, w')

  -- `Signup`
  unfoldable pub signup : String → Try W String
  unfolding signup_with
  signup email = signup_with kratos_client email

  google_login_with :
      Option (KratosClient W)
      → (email device_id : String) → Bool
      → (user_agent ip : Option String) → Try W (String × String)
  google_login_with none email device_id remember_me user_agent ip w = (err plain, w)
  google_login_with (some kratos) email device_id remember_me user_agent ip w =
      let (r, w') = kratos.get_identity_by_email email w in
      elim r [
        | ok identity ↦ login identity.id device_id remember_me user_agent ip w'
        | err e ↦ (
          err (if is kratos_invalid_credentials e then sentinel invalid_credentials else wrap e),
          w',
        )
      ]

  -- `GoogleLogin`
  unfoldable pub google_login :
      (email device_id : String) → Bool → (user_agent ip : Option String) → Try W (String × String)
  unfolding google_login_with
  google_login email device_id remember_me user_agent ip =
      google_login_with kratos_client email device_id remember_me user_agent ip
