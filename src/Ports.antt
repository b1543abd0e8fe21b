-- ===== src/Ports.antt =====
-- What the services call: Go's interfaces, as records of calls over the world `W`. What is
-- behind them is a parameter of the services; the modules called Port, and the tables, fill them.
pub mod Types
use central_auth.Common.{ℕ, String, Bool, Option, List}
use central_auth.Common.Int.{ℤ}
use central_auth.Common.Eff.{Eff, Try}
use central_auth.Failure.{Failure}
use Types.{
  BffSession, TokenSet, AccessTokenClaims, IntrospectResult, Identity, DeviceSession,
  AuthSessionEvent, BlacklistSyncEvent,
}

-- `blacklist.Blacklist`
pub record Blacklist (W : Type 0) : Type 0 where
  pub add : String → ℤ → Eff W (Option Failure)
  pub is_blacklisted : String → Eff W (Bool × Option Failure)
  pub add_batch : List String → ℤ → Eff W (Option Failure)

-- `session.Store`
pub record SessionStore (W : Type 0) : Type 0 where
  pub create : BffSession → Eff W (Option Failure)
  pub get : String → Try W BffSession
  pub update : BffSession → Eff W (Option Failure)
  pub delete : String → Eff W (Option Failure)
  pub get_all_for_user : String → Try W (List BffSession)
  pub delete_all_for_user : String → Try W (List String)
  pub acquire_refresh_lock : String → ℤ → Try W Bool
  pub release_refresh_lock : String → Eff W (Option Failure)

-- `hydra.ClientI`
pub record HydraClient (W : Type 0) : Type 0 where
  pub issue_tokens : (kratos_id device_id : String) → Bool → Try W TokenSet
  pub refresh_token : String → Try W TokenSet
  pub revoke_token : String → Eff W (Option Failure)
  pub revoke_all_for_subject : String → Eff W (Option Failure)
  pub introspect_token : String → Try W IntrospectResult
  pub validate_access_token : String → Try W AccessTokenClaims

-- `kratos.ClientI`, as far as the services that are modelled call it
pub record KratosClient (W : Type 0) : Type 0 where
  pub get_identity_by_email : String → Try W Identity
  pub delete_sessions : String → Eff W (Option Failure)
  pub create_identity : String → Try W String
  pub get_session_id_by_token : String → Try W String
  pub delete_session : String → Eff W (Option Failure)

-- `repository.RedisRepo`
pub record RedisRepo (W : Type 0) : Type 0 where
  pub save_login : (kratos_id device_id token : String) → ℤ → Eff W (Option Failure)
  pub get_device_refresh_token : (kratos_id device_id : String) → Try W String
  pub rotate_refresh_token : (kratos_id device_id token : String) → ℤ → Eff W (Option Failure)
  pub logout_device : (kratos_id device_id : String) → Eff W (Option Failure)
  pub logout_all : String → Eff W (Option Failure)

-- `repository.DeviceSessionRepository`
pub record DeviceSessionRepository (W : Type 0) : Type 0 where
  pub save_device_session : DeviceSession → Eff W (Option Failure)
  pub update_last_used_at : (kratos_id device_id : String) → Eff W (Option Failure)
  pub revoke_device : (kratos_id device_id : String) → Eff W (Option Failure)
  pub revoke_all_devices : String → Eff W (Option Failure)
  pub get_device_sessions : String → Try W (List DeviceSession)
  pub count_active_devices : String → Try W ℕ

-- `kafka.EventPublisher`, but for the access log and `Close`
pub record EventPublisher (W : Type 0) : Type 0 where
  pub publish_auth_session : AuthSessionEvent → Eff W Unit
  pub publish_blacklist_sync : BlacklistSyncEvent → Eff W Unit

-- The clock (nanoseconds), the random session id, and a wait that the caller's context may cut
-- short.
pub record Runtime (W : Type 0) : Type 0 where
  pub now : W → ℕ
  pub random_session_id : Try W String
  pub wait : ℕ → Eff W (Option Failure)
