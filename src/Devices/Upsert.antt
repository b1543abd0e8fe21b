-- ===== src/Devices/Upsert.antt =====
-- What one statement does to the row of a device.
use central_auth.Common.{
  ◌≡◌, refl, String, true, Option, none, some, List, [], ◌∷◌, ◌++◌, if◌then◌else◌, eq_iff, arith,
}
use central_auth.Ports.Types.{DeviceSession}
use central_auth.Devices.{Table, is_of, merge, update, find, save, revoke_device}

-- The update does not move a row to another device.
abbrev pub KeepsKey : (DeviceSession → DeviceSession) → Type 0
KeepsKey f = (r : DeviceSession) → ((f r).kratos_id ≡ r.kratos_id) × ((f r).device_id ≡ r.device_id)

abbrev pub map_row : (DeviceSession → DeviceSession) → Option DeviceSession → Option DeviceSession
map_row f none = none
map_row f (some r) = some (f r)

find-update :
    (k d : String) (f : DeviceSession → DeviceSession) (rows : List DeviceSession)
    → KeepsKey f
    → find k d (update k d f rows) ≡ map_row f (find k d rows)
unfolding find update
find-update k d f [] h = refl
find-update k d f (r ∷ rows) h = ground (arith, find-update k d f rows h, h r)

find-append :
    (k d : String) (rows : List DeviceSession) (r : DeviceSession)
    → find k d (rows ++ r ∷ [])
      ≡ elim (find k d rows) [ some q ↦ some q | none ↦ if is_of k d r then some r else none ]
unfolding find
find-append k d [] r = ground arith
find-append k d (q ∷ rows) r = ground (arith, find-append k d rows r)

-- The row of a device after a login of that device: new, or merged into the one that was there.
pub find-save :
    (s : DeviceSession) (t : Table)
    → find s.kratos_id s.device_id (save s t).rows ≡ elim (find s.kratos_id s.device_id t.rows) [
      | none ↦ some (record s { id = t.next_id })
      | some r ↦ some (merge s r)
    ]
unfolding save
find-save s t = ground (
  arith,
  find-append s.kratos_id s.device_id t.rows (record s { id = t.next_id }),
  find-update s.kratos_id s.device_id (merge s) t.rows
      (λ r. (unfold merge in refl, unfold merge in refl)),
  eq_iff s.kratos_id s.kratos_id,
  eq_iff s.device_id s.device_id,
)

pub find-revoke_device :
    (k d : String) (t : Table)
    → find k d (revoke_device k d t).rows
      ≡ map_row (λ r. record r { revoked = true }) (find k d t.rows)
unfolding revoke_device
find-revoke_device k d t =
    find-update k d (λ r. record r { revoked = true }) t.rows (λ r. (refl, refl))
