-- ===== src/Bff/Login.antt =====
-- `Login` of internal/service/bff_service.go.
use central_auth.Common.{◌+◌, String, Bool, Option, if◌then◌else◌, str_eq}
use central_auth.Common.Int.{pos}
use central_auth.Common.Eff.{Try, return, wrapping, logged, checked, lift, ◌>>=◌, ◌>>◌}
use central_auth.Failure.{ok, err}
use central_auth.Bff.{BffService, refresh_ttl_short, refresh_ttl_long, deref, expiry}

module _ {W : Type 0} (s : BffService W) where
  open s use {
    hydra, kratos_client, session_store, blacklist, redis_repo, device_session_repo, publisher,
    runtime,
  }

  -- The Kratos session of the cookie, or "" if there is no cookie or the lookup fails.
  kratos_session : String → Try W String
  kratos_session cookie w =
      if str_eq cookie ""
      then (ok "", w)
      else let (r, w') = kratos_client.get_session_id_by_token cookie w in
        (elim r [ ok id ↦ ok id | err e ↦ ok "" ], w')

  -- `Login`
  unfoldable pub login :
      (kratos_id device_id : String)
      → Bool
      → String
      → (user_agent ip : Option String) → Try W String
  unfolding kratos_session
  login kratos_id device_id remember_me cookie user_agent ip = do
    tokens ← wrapping (hydra.issue_tokens kratos_id device_id remember_me)
    claims ← wrapping (hydra.validate_access_token tokens.access_token)
    session_id ← wrapping runtime.random_session_id
    kratos_session_id ← kratos_session cookie
    now ← lift (λ w. (runtime.now w, w))
    let refresh_ttl = if remember_me then refresh_ttl_long else refresh_ttl_short
    wrapping (
        checked (
          session_store.create (record {
            session_id = session_id;
            kratos_id = kratos_id;
            device_id = device_id;
            kratos_session_id = kratos_session_id;
            hydra_access_token = tokens.access_token;
            hydra_refresh_token = tokens.refresh_token;
            access_token_exp = expiry claims now;
            created_at = now;
            expires_at = now + refresh_ttl;
          })))
    logged (redis_repo.save_login kratos_id device_id tokens.refresh_token (pos refresh_ttl))
    lift (
        publisher.publish_auth_session (record {
          event_type = "auth.session.created";
          kratos_id = kratos_id;
          device_id = device_id;
          hydra_jti = claims.id;
          ip_address = deref ip;
          user_agent = deref user_agent;
          timestamp = now;
        }))
    return session_id
