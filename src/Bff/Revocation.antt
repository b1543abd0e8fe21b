-- ===== src/Bff/Revocation.antt =====
-- The contract of the blacklist that the browser sessions rest on: what was added stays, and blocks.
-- `Revoked id w` says that the world `w` holds a live entry for `id`; the entry's own expiry is not
-- an operation, so the contract speaks of the time while the entry lives.
use central_auth.Common.{String, Bool, true, false, ◌≡◌, ◌||◌, Option, none, some, List, All}
use central_auth.Common.Int.{ℤ, pos, lt_ℤ}
use central_auth.Common.Eff.{Eff}
use central_auth.Failure.{Failure}
use central_auth.Bff.{BffService, is_fatal}

-- A call leaves every entry where it is.
abbrev pub Keeps : {W A : Type 0} → (String → W → Type 0) → Eff W A → Type 0
Keeps {W} Revoked m = (id : String) (w : W) → Revoked id w → Revoked id (m w).1

abbrev is_some : Option Failure → Bool
is_some none = false
is_some (some e) = true

-- An answer of `IsBlacklisted` that refuses the request.
abbrev pub blocks : Bool × Option Failure → Bool
blocks (b, e) = b || is_some e

pub record RevocationLaws {W : Type 0} (s : BffService W) (Revoked : String → W → Type 0)
    : Type 0 where
  pub add_revokes :
      (id : String) (ttl : ℤ) (w : W)
      → is_fatal (s.blacklist.add id ttl w).0 ≡ false
      → Revoked id (s.blacklist.add id ttl w).1
  pub batch_revokes :
      (ids : List String) (ttl : ℤ) (w : W)
      → lt_ℤ (pos 0) ttl ≡ true
      → is_fatal (s.blacklist.add_batch ids ttl w).0 ≡ false
      → All (λ id. Revoked id (s.blacklist.add_batch ids ttl w).1) ids
  pub check_blocks :
      (id : String) (w : W) → Revoked id w → blocks (s.blacklist.is_blacklisted id w).0 ≡ true
  pub keeps_revoke_token : (token : String) → Keeps Revoked (s.hydra.revoke_token token)
  pub keeps_revoke_subject : (id : String) → Keeps Revoked (s.hydra.revoke_all_for_subject id)
  pub keeps_delete_sessions : (id : String) → Keeps Revoked (s.kratos_client.delete_sessions id)
  pub keeps_delete_session : (id : String) → Keeps Revoked (s.kratos_client.delete_session id)
  pub keeps_delete : (id : String) → Keeps Revoked (s.session_store.delete id)
  pub keeps_delete_all : (id : String) → Keeps Revoked (s.session_store.delete_all_for_user id)
  pub keeps_logout_device : (k d : String) → Keeps Revoked (s.redis_repo.logout_device k d)
  pub keeps_logout_all : (k : String) → Keeps Revoked (s.redis_repo.logout_all k)
  pub keeps_revoke_device : (k d : String) → Keeps Revoked (s.device_session_repo.revoke_device k d)
  pub keeps_revoke_all_devices :
      (k : String) → Keeps Revoked (s.device_session_repo.revoke_all_devices k)
