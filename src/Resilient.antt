-- ===== src/Resilient.antt =====
-- The decorators of internal/resilience: what they call. `CircuitBreaker` is the interface of
-- circuit_breaker.go, `L1Cache` the in-process cache (the go-cache library), and
-- `BlacklistPgRepository` the interface of internal/repository/blacklist_pg_repository.go.
pub mod Blacklist
pub mod Guarded
pub mod Sessions
pub mod Tokens
use central_auth.Common.{ℕ, String, Bool, Option, some, List, ◌≡◌, true}
use central_auth.Common.Int.{ℤ, pos, lt_ℤ}
use central_auth.Common.Eff.{Eff, Try}
use central_auth.Failure.{Failure}
use central_auth.Breaker.{State}

pub record CircuitBreaker (W : Type 0) : Type 0 where
  pub allow : Eff W Bool
  pub record_success : Eff W Unit
  pub record_failure : Eff W Unit
  pub state : Eff W State

pub record L1Cache (W : Type 0) : Type 0 where
  pub get : String → Eff W (Option Bool)
  pub set : String → Bool → ℤ → Eff W Unit

-- `gocache.DefaultExpiration`
abbrev pub default_expiration : ℤ
default_expiration = pos 0

-- What go-cache documents of `Set` and `Get`: an entry with a positive lifetime is found, and it
-- leaves the other keys alone.
pub record CacheLaws {W : Type 0} (c : L1Cache W) : Type 0 where
  pub get_set :
      (id : String) (v : Bool) (ttl : ℤ) (w : W)
      → lt_ℤ (pos 0) ttl ≡ true
      → (c.get id (c.set id v ttl w).1).0 ≡ some v
  pub get_set_ne :
      (i j : String) (v : Bool) (ttl : ℤ) (w : W)
      → ¬ (i ≡ j)
      → (c.get i (c.set j v ttl w).1).0 ≡ (c.get i w).0

pub record BlacklistEntry : Type 0 where
  pub session_id : String
  pub expires_at : ℤ

pub record BlacklistPgRepository (W : Type 0) : Type 0 where
  pub is_blacklisted : String → Try W Bool
  pub add : String → ℤ → Eff W (Option Failure)
  pub delete_expired : Eff W (Option Failure)
  pub list_active : Try W (List BlacklistEntry)
