-- ===== src/Devices.antt =====
-- The `device_sessions` table: the SQL statements of
-- internal/repository/device_session_repository.go, as functions on the table, and `process` of
-- internal/kafka/consumer.go, which writes to it. `NULL` is `none`. A statement runs in one step;
-- what an error of the connection does is the argument of `process`, and stands in Port for the rest.
pub mod Replay
pub mod Upsert
pub mod Port
use Prim.Native.Nat.{max}
use central_auth.Common.{
  ℕ, ◌+◌, String, Bool, true, false, ◌&&◌, not, Option, none, some, List, [], ◌∷◌, ◌++◌,
  if◌then◌else◌, str_eq,
}
use central_auth.Failure.{Failure, Result, ok, err}
use central_auth.Ports.Types.{DeviceSession, AuthSessionEvent}

-- The rows, and the next value of the sequence of `id`.
pub record Table : Type 0 where
  pub rows : List DeviceSession
  pub next_id : ℕ

-- `kratos_id = $1 AND device_id = $2`
abbrev pub is_of : (kratos_id device_id : String) → DeviceSession → Bool
is_of kratos_id device_id r = str_eq r.kratos_id kratos_id && str_eq r.device_id device_id

abbrev coalesce {ℓ} : {A : Type ℓ} → Option A → Option A → Option A
coalesce none o = o
coalesce (some a) o = some a

-- PostgreSQL's `GREATEST` passes over a null.
abbrev greatest : Option ℕ → Option ℕ → Option ℕ
greatest none o = o
greatest (some m) none = some m
greatest (some m) (some n) = some (max m n)

-- `EXCLUDED.hydra_jti IS NOT NULL AND EXCLUDED.hydra_jti IS DISTINCT FROM device_sessions.hydra_jti`
abbrev pub is_new_jti : (excluded stored : Option String) → Bool
is_new_jti none stored = false
is_new_jti (some j) none = true
is_new_jti (some j) (some i) = not (str_eq j i)

-- The row that `ON CONFLICT DO UPDATE` leaves.
unfoldable pub merge : (excluded stored : DeviceSession) → DeviceSession
merge e s = record s {
  hydra_jti = coalesce e.hydra_jti s.hydra_jti;
  issued_at = e.issued_at;
  last_used_at =
      coalesce (greatest e.last_used_at s.last_used_at) (coalesce s.last_used_at e.last_used_at);
  revoked = if is_new_jti e.hydra_jti s.hydra_jti then false else s.revoked;
  user_agent = e.user_agent;
  ip = e.ip;
}

unfoldable pub update :
    (kratos_id device_id : String)
    → (DeviceSession → DeviceSession)
    → List DeviceSession
    → List DeviceSession
update k d f [] = []
update k d f (r ∷ rows) =
    let rest = update k d f rows in if is_of k d r then f r ∷ rest else r ∷ rest

-- The row of a device; the table's unique constraint admits one.
unfoldable pub find : (kratos_id device_id : String) → List DeviceSession → Option DeviceSession
find k d [] = none
find k d (r ∷ rows) = if is_of k d r then some r else find k d rows

-- `SaveDeviceSession`
unfoldable pub save : DeviceSession → Table → Table
save s t = elim (find s.kratos_id s.device_id t.rows) [
  | none ↦ record { rows = t.rows ++ record s { id = t.next_id } ∷ []; next_id = t.next_id + 1 }
  | some r ↦ record {
    rows = update s.kratos_id s.device_id (merge s) t.rows;
    next_id = t.next_id + 1;
  }
]

-- `UpdateLastUsedAt`
unfoldable pub update_last_used_at : ℕ → (kratos_id device_id : String) → Table → Table
update_last_used_at now k d t = record t {
  rows = update k d (λ r. record r { last_used_at = some now }) t.rows;
}

-- `RevokeDevice`
unfoldable pub revoke_device : (kratos_id device_id : String) → Table → Table
revoke_device k d t = record t { rows = update k d (λ r. record r { revoked = true }) t.rows }

unfoldable pub revoke_user : String → List DeviceSession → List DeviceSession
revoke_user k [] = []
revoke_user k (r ∷ rows) =
    let rest = revoke_user k rows in
    if str_eq r.kratos_id k then record r { revoked = true } ∷ rest else r ∷ rest

-- `RevokeAllDevices`
unfoldable pub revoke_all_devices : String → Table → Table
unfolding revoke_user
revoke_all_devices k t = record t { rows = revoke_user k t.rows }

-- `CountActiveDevices`
unfoldable pub count_active : String → List DeviceSession → ℕ
count_active k [] = 0
count_active k (r ∷ rows) =
    let rest = count_active k rows in
    if str_eq r.kratos_id k && not r.revoked then rest + 1 else rest

-- `strPtrIfNonEmpty`
abbrev pub non_empty : String → Option String
non_empty s = if str_eq s "" then none else some s

-- A message as `process` reads it: one that does not parse, one of another event type, or a login.
-- The time of a login that has no valid timestamp is the time of processing.
pub data Message : Type 0 where
  malformed other_type : Message
  login : AuthSessionEvent → (timestamp : Option ℕ) → Message

abbrev pub or_now : ℕ → Option ℕ → ℕ
or_now now none = now
or_now now (some t) = t

-- The row that `process` writes for a login.
unfoldable pub row_of : ℕ → AuthSessionEvent → DeviceSession
row_of issued_at e = record {
  id = 0;
  kratos_id = e.kratos_id;
  device_id = e.device_id;
  hydra_jti = non_empty e.hydra_jti;
  issued_at = issued_at;
  last_used_at = some issued_at;
  revoked = false;
  user_agent = non_empty e.user_agent;
  ip = non_empty e.ip_address;
}

-- What becomes of a write: it is done; or an error comes back, and PostgreSQL has refused it, or has done
-- it and the answer was lost.
pub data Write : Type 0 where
  done : Write
  refused lost : Failure → Write

-- The row under `SaveDeviceSession` as it ends
unfoldable pub attempt : Write → DeviceSession → Table → Table
attempt done s t = save s t
attempt (refused e) s t = t
attempt (lost e) s t = save s t

-- `process`; an error of the write is logged, and the message passed over.
unfoldable pub process : ℕ → Message → Write → Table → Table
unfolding row_of attempt
process now malformed write t = t
process now other_type write t = t
process now (login e timestamp) write t = attempt write (row_of (or_now now timestamp) e) t
