-- ===== src/Resilient/Tokens.antt =====
-- internal/resilience/resilient_redis_repo.go: the devices and their refresh tokens behind the
-- circuit breaker, with the in-process cache for the tokens. Counters are left out.
pub mod Stale
use Prim.Native.String.{◌++◌}
use central_auth.Common.{String, Option}
use central_auth.Common.Int.{ℤ}
use central_auth.Common.Eff.{Eff, Try}
use central_auth.Failure.{Failure, sentinel, redis_unavailable}
use central_auth.Ports.{RedisRepo}
use central_auth.Resilient.{CircuitBreaker}
use central_auth.Resilient.Guarded.{Cache, guarded, cached_read}

pub record ResilientRedisRepo (W : Type 0) : Type 0 where
  pub delegate : RedisRepo W
  pub cb : CircuitBreaker W
  pub l1 : Cache String W

-- `deviceTokenL1Key`
abbrev pub device_token_l1_key : (kratos_id device_id : String) → String
device_token_l1_key kratos_id device_id = "drt:" ++ (kratos_id ++ (":" ++ device_id))

module _ {W : Type 0} (r : ResilientRedisRepo W) (kratos_id : String) where
  open r use {delegate, cb, l1}

  -- `GetDeviceRefreshToken`
  unfoldable pub get_device_refresh_token : String → Try W String
  get_device_refresh_token device_id =
      cached_read l1 cb (sentinel redis_unavailable) (device_token_l1_key kratos_id device_id)
        (delegate.get_device_refresh_token kratos_id device_id)

  abbrev cache_token : (device_id token : String) → W → W
  cache_token device_id token w = (l1.set (device_token_l1_key kratos_id device_id) token w).1

  -- `SaveLogin`
  unfoldable pub save_login : (device_id token : String) → ℤ → Eff W (Option Failure)
  save_login device_id token ttl =
      guarded cb (cache_token device_id token) (delegate.save_login kratos_id device_id token ttl)

  -- `RotateRefreshToken`
  unfoldable pub rotate_refresh_token : (device_id token : String) → ℤ → Eff W (Option Failure)
  rotate_refresh_token device_id token ttl =
      guarded cb (cache_token device_id token)
        (delegate.rotate_refresh_token kratos_id device_id token ttl)

  -- `LogoutDevice`
  unfoldable pub logout_device : String → Eff W (Option Failure)
  logout_device device_id =
      guarded cb (λ w. (l1.delete (device_token_l1_key kratos_id device_id) w).1)
        (delegate.logout_device kratos_id device_id)

  -- `LogoutAll`
  unfoldable pub logout_all : Eff W (Option Failure)
  logout_all = guarded cb (λ w. w) (delegate.logout_all kratos_id)

-- The decorator, as the repository that the services use.
abbrev pub as_redis_repo : {W : Type 0} → ResilientRedisRepo W → RedisRepo W
as_redis_repo r = record {
  save_login = save_login r;
  get_device_refresh_token = get_device_refresh_token r;
  rotate_refresh_token = rotate_refresh_token r;
  logout_device = logout_device r;
  logout_all = logout_all r;
}
