-- ===== src/Devices/Port.antt =====
-- `PostgresDeviceSessionRepository` of internal/repository/device_session_repository.go as the interface
-- that the services take, with the errors of the connection.
use central_auth.Common.{
  ◌≡◌, refl, ℕ, ◌+◌, String, Option, none, some, List, [], ◌∷◌, arith, ltb, if◌then◌else◌, str_eq,
}
use central_auth.Common.Eff.{Eff, Try}
use central_auth.Failure.{Failure, ok, err}
use central_auth.Ports.{DeviceSessionRepository}
use central_auth.Ports.Types.{DeviceSession}
use central_auth.Devices.{
  Table, save, update_last_used_at, revoke_device, revoke_all_devices, count_active,
}

-- The table, the clock of the database, and the error of the connection where there is one
pub record DeviceDb : Type 0 where
  pub table : Table
  pub now : ℕ
  pub fault : Option Failure

abbrev exec : (Table → Table) → Eff DeviceDb (Option Failure)
exec f d = elim d.fault [
  | some e ↦ (some e, d)
  | none ↦ (none, record { table = f d.table; now = d.now; fault = none })
]

abbrev query : {A : Type 0} → (List DeviceSession → A) → Try DeviceDb A
query f d = elim d.fault [ some e ↦ (err e, d) | none ↦ (ok (f d.table.rows), d) ]

unfoldable pub of_user : String → List DeviceSession → List DeviceSession
of_user k [] = []
of_user k (r ∷ rows) = let rest = of_user k rows in if str_eq r.kratos_id k then r ∷ rest else rest

-- `ORDER BY issued_at DESC`; rows of one time may come in any order.
unfoldable pub place : DeviceSession → List DeviceSession → List DeviceSession
place r [] = r ∷ []
place r (q ∷ rows) =
    let rest = place r rows in if ltb r.issued_at q.issued_at then q ∷ rest else r ∷ q ∷ rows

unfoldable pub newest_first : List DeviceSession → List DeviceSession
unfolding place
newest_first [] = []
newest_first (r ∷ rows) = place r (newest_first rows)

-- `GetDeviceSessions`
unfoldable pub get_device_sessions : String → List DeviceSession → List DeviceSession
get_device_sessions k rows = newest_first (of_user k rows)

unfoldable pub repository : DeviceSessionRepository DeviceDb
repository = record {
  save_device_session = λ s. exec (save s);
  update_last_used_at = λ k device d. exec (update_last_used_at d.now k device) d;
  revoke_device = λ k device. exec (revoke_device k device);
  revoke_all_devices = λ k. exec (revoke_all_devices k);
  get_device_sessions = λ k. query (get_device_sessions k);
  count_active_devices = λ k. query (count_active k);
}

abbrev pub not_revoked : List DeviceSession → ℕ
not_revoked [] = 0
not_revoked (r ∷ rows) = (if r.revoked then 0 else 1) + not_revoked rows

not_revoked-place :
    (r : DeviceSession) (rows : List DeviceSession)
    → not_revoked (place r rows) ≡ (if r.revoked then 0 else 1) + not_revoked rows
unfolding place
not_revoked-place r [] = refl
not_revoked-place r (q ∷ rows) = ground (arith, not_revoked-place r rows)

not_revoked-newest_first :
    (rows : List DeviceSession) → not_revoked (newest_first rows) ≡ not_revoked rows
unfolding newest_first
not_revoked-newest_first [] = refl
not_revoked-newest_first (r ∷ rows) =
    ground (arith, not_revoked-newest_first rows, not_revoked-place r (newest_first rows))

count_active-of_user :
    (k : String) (rows : List DeviceSession) → count_active k rows ≡ not_revoked (of_user k rows)
unfolding count_active of_user
count_active-of_user k [] = refl
count_active-of_user k (r ∷ rows) = ground (arith, count_active-of_user k rows)

-- The two reads agree: the number of active devices is that of the rows not revoked among the sessions
-- that are listed.
pub count_active-get_device_sessions :
    (k : String) (rows : List DeviceSession)
    → count_active k rows ≡ not_revoked (get_device_sessions k rows)
unfolding get_device_sessions
count_active-get_device_sessions k rows =
    ground (arith, count_active-of_user k rows, not_revoked-newest_first (of_user k rows))
