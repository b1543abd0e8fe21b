-- ===== src/Bff.antt =====
-- internal/service/bff_service.go: the browser sessions. Log lines and metrics are left out.
pub mod Revocation
pub mod Login
pub mod Refresh
pub mod Resolve
pub mod Logout
use central_auth.Common.{
  ℕ, zero, suc, ◌+◌, ◌*◌, ◌/◌, String, Bool, true, false, not, Option, none, some, List, [], ◌∷◌,
  map, ltb, if◌then◌else◌, str_eq,
}
use central_auth.Common.Int.{ℤ, pos, sub_ℕ, lt_ℤ, max_ℤ}
use central_auth.Common.Eff.{
  Eff, Try, return, fail, wrapping, wrapped_result, checked_result, logged, checked, lift, ◌>>=◌,
  ◌>>◌,
}
use central_auth.Failure.{
  Failure, Result, ok, err, sentinel, wrap, is, redis_unavailable, session_not_found,
  session_blacklisted, session_gone,
}
use central_auth.Ports.{
  Blacklist, SessionStore, HydraClient, KratosClient, RedisRepo, DeviceSessionRepository,
  EventPublisher, Runtime,
}
use central_auth.Ports.Types.{BffSession, TokenSet, AccessTokenClaims, AuthSessionEvent}

abbrev pub second : ℕ
second = 1_000_000_000

-- `RefreshTTLShort` and `RefreshTTLLong`
abbrev pub refresh_ttl_short : ℕ
refresh_ttl_short = 7 * 24 * 3600 * second

abbrev pub refresh_ttl_long : ℕ
refresh_ttl_long = 30 * 24 * 3600 * second

-- `BFFService`; of the configuration only `AccessTokenRefreshBuffer` is read.
pub record BffService (W : Type 0) : Type 0 where
  pub hydra : HydraClient W
  pub kratos_client : KratosClient W
  pub session_store : SessionStore W
  pub blacklist : Blacklist W
  pub redis_repo : RedisRepo W
  pub device_session_repo : DeviceSessionRepository W
  pub publisher : EventPublisher W
  pub runtime : Runtime W
  pub access_token_refresh_buffer : ℤ

-- `derefStr`
abbrev pub deref : Option String → String
deref none = ""
deref (some s) = s

-- An expiry from the claims, or fifteen minutes from the given time.
abbrev pub expiry : AccessTokenClaims → ℕ → ℕ
expiry claims now = elim claims.expires_at [ none ↦ now + 900 * second | some t ↦ t ]

-- A blacklist that is degraded has still recorded the session.
abbrev pub is_fatal : Option Failure → Bool
is_fatal none = false
is_fatal (some e) = not (is redis_unavailable e)
