-- ===== src/Admin/Fanout.antt =====
-- What downstream services hear of a block.
use central_auth.Common.{◌≡◌, String, Option, none, some, if◌then◌else◌, arith}
use central_auth.Failure.{Failure, ok, err, wrap}
use central_auth.Admin.{
  AdminBlacklistService, TargetType, is_user, block_event, block, revoke_sessions,
}

-- The world after the event of a block.
abbrev pub published :
    {W : Type 0} → AdminBlacklistService W → TargetType → (value reason : String) → W → W
published s target value reason w =
    (s.publisher.publish_blacklist_sync (block_event s target value reason (s.runtime.now w)) w).1

module _ {W : Type 0} (s : AdminBlacklistService W) (target : TargetType) (value reason : String)
    (w : W) where
  -- The row of a block, written first.
  abbrev row : Option Failure × W
  row = s.repo.add target value reason w

  -- A block either fails with the row and does nothing else, or returns no error and ends with its
  -- event: a revocation of the user's devices that fails does not keep the event back, and blocks
  -- of tokens and service keys revoke no device.
  block-published : block s target value reason w ≡ elim row.0 [
    | some e ↦ (err (wrap e), row.1)
    | none ↦ (
      ok tt,
      published s target value reason (
          if is_user target
          then (s.device_session_repo.revoke_all_devices value row.1).1
          else row.1),
    )
  ]
  unfolding block revoke_sessions
  block-published = ground arith
