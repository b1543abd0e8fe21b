-- ===== src/Admin.antt =====
-- internal/service/admin_blacklist_service.go: blocking and unblocking of users, tokens and service
-- keys. The table of blocks is a parameter here.
pub mod Fanout
pub mod Stored
use central_auth.Common.{
  ℕ, ◌+◌, ◌*◌, String, Bool, true, false, Option, none, some, if◌then◌else◌, str_eq,
}
use central_auth.Common.Eff.{Eff, Try, wrapping, logged, checked, return, lift, ◌>>=◌, ◌>>◌}
use central_auth.Failure.{Failure}
use central_auth.Ports.{DeviceSessionRepository, EventPublisher, Runtime}
use central_auth.Ports.Types.{BlacklistSyncEvent}
use central_auth.Bff.{second}

pub data TargetType : Type 0 where
  user jti service_key : TargetType

-- The text of a target type.
abbrev pub target_name : TargetType → String
target_name user = "USER"
target_name jti = "JTI"
target_name service_key = "SERVICE_KEY"

-- `repository.GlobalBlacklistRepository`, as far as this service calls it
pub record GlobalBlacklistRepository (W : Type 0) : Type 0 where
  pub add : TargetType → (value reason : String) → Eff W (Option Failure)
  pub remove : TargetType → String → Eff W (Option Failure)

pub record AdminBlacklistService (W : Type 0) : Type 0 where
  pub repo : GlobalBlacklistRepository W
  pub device_session_repo : DeviceSessionRepository W
  pub publisher : EventPublisher W
  pub runtime : Runtime W

-- `adminBlockTTL`, thirty days
abbrev admin_block_ttl : ℕ
admin_block_ttl = 30 * 24 * 3600 * second

abbrev pub is_user : TargetType → Bool
is_user user = true
is_user jti = false
is_user service_key = false

module _ {W : Type 0} (s : AdminBlacklistService W) where
  open s use {repo, device_session_repo, publisher, runtime}

  -- The event of a block, and of an unblock, as it is published at a time.
  abbrev pub block_event : TargetType → (value reason : String) → ℕ → BlacklistSyncEvent
  block_event target value reason now = record {
    event_type = "blacklist.sync";
    target_type = target_name target;
    target_value = value;
    reason = reason;
    expires_at = some (now + admin_block_ttl);
    timestamp = now;
  }

  abbrev pub unblock_event : TargetType → String → ℕ → BlacklistSyncEvent
  unblock_event target value now = record {
    event_type = "blacklist.unblock";
    target_type = target_name target;
    target_value = value;
    reason = "";
    expires_at = none;
    timestamp = now;
  }

  revoke_sessions : TargetType → String → Try W Unit
  revoke_sessions target value w =
      if is_user target
      then logged (device_session_repo.revoke_all_devices value) w
      else return tt w

  -- `Block`
  unfoldable pub block : TargetType → (value reason : String) → Try W Unit
  unfolding revoke_sessions
  block target value reason = do
    wrapping (checked (repo.add target value reason))
    revoke_sessions target value
    lift (λ w. publisher.publish_blacklist_sync (block_event target value reason (runtime.now w)) w)

  -- `Unblock`
  unfoldable pub unblock : TargetType → String → Try W Unit
  unblock target value = do
    wrapping (checked (repo.remove target value))
    lift (λ w. publisher.publish_blacklist_sync (unblock_event target value (runtime.now w)) w)
