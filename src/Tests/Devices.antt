-- ===== src/Tests/Devices.antt =====
-- Two logins of one device.
use central_auth.Common.{ℕ, ◌≡◌, refl, eq_iff, String, true, false, Option, none, some, [], arith}
use central_auth.Ports.Types.{DeviceSession}
use central_auth.Devices.{Table, save, revoke_device}
use central_auth.Devices.Replay.{row, revoked_of, replay_unrevokes}

abbrev login : Option String → ℕ → DeviceSession
login jti at = record {
  id = 0;
  kratos_id = "kim";
  device_id = "phone";
  hydra_jti = jti;
  issued_at = at;
  last_used_at = some at;
  revoked = false;
  user_agent = none;
  ip = none;
}

abbrev table : Table
table = record { rows = []; next_id = 1 }

abbrev revoked_row : DeviceSession
revoked_row = record (login (some "j1") 10) { revoked = true }

replay_unrevokes_example :
    revoked_of (
      row "kim" "phone" (
        save (login (some "j1") 10) (
          revoke_device "kim" "phone"
            (save (login (some "j2") 20) (save (login (some "j1") 10) table)))))
    ≡ some false
replay_unrevokes_example =
    replay_unrevokes (login (some "j1") 10) (login (some "j2") 20) table "j1" "j2" refl refl refl
      refl (λ e. ground (arith, eq_iff "j1" "j2", e))
