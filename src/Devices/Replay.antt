-- ===== src/Devices/Replay.antt =====
-- What a Kafka message that is delivered again does to the row of its device.
use central_auth.Common.{
  ◌≡◌, refl, String, Bool, true, false, Option, none, some, eq_iff, arith, Option-cases, inl, inr,
}
use central_auth.Ports.Types.{DeviceSession}
use central_auth.Devices.{Table, merge, find, save, revoke_device, is_new_jti, coalesce}
use central_auth.Devices.Upsert.{find-save, find-revoke_device}

-- The row of a device in a table.
abbrev pub row : (kratos_id device_id : String) → Table → Option DeviceSession
row k d t = find k d t.rows

abbrev pub revoked_of : Option DeviceSession → Option Bool
revoked_of none = none
revoked_of (some r) = some r.revoked

abbrev jti_of : Option DeviceSession → Option String
jti_of none = none
jti_of (some r) = r.hydra_jti

is_new_jti_refl : (j : Option String) → is_new_jti j j ≡ false
is_new_jti_refl none = refl
is_new_jti_refl (some j) = ground (arith, eq_iff j j)

is_new_jti-coalesce : (j i : Option String) → is_new_jti j (coalesce j i) ≡ false
is_new_jti-coalesce none i = refl
is_new_jti-coalesce (some j) i = is_new_jti_refl (some j)

merge-revoked :
    (s r : DeviceSession)
    → is_new_jti s.hydra_jti r.hydra_jti ≡ false
    → (merge s r).revoked ≡ r.revoked
unfolding merge
merge-revoked s r h = ground arith

save-jti :
    (s : DeviceSession) (t : Table)
    → is_new_jti s.hydra_jti (jti_of (row s.kratos_id s.device_id (save s t))) ≡ false
unfolding merge
save-jti s t =
    ground (arith, find-save s t, is_new_jti_refl s.hydra_jti, is_new_jti-coalesce s.hydra_jti)

-- A login that does not change the token id of its row leaves `revoked` alone.
save-revoked :
    (s : DeviceSession) (t : Table) (r : DeviceSession)
    → row s.kratos_id s.device_id t ≡ some r
    → is_new_jti s.hydra_jti r.hydra_jti ≡ false
    → revoked_of (row s.kratos_id s.device_id (save s t)) ≡ some r.revoked
save-revoked s t r at same = ground (arith, find-save s t, at, merge-revoked s r same)

save-found :
    (s : DeviceSession) (t : Table)
    → ((r : DeviceSession) × (row s.kratos_id s.device_id (save s t) ≡ some r))
save-found s t = elim (Option-cases (row s.kratos_id s.device_id t)) [
  | inl h ↦ (record s { id = t.next_id }, ground (arith, find-save s t, h))
  | inr (r, h) ↦ (merge s r, ground (arith, find-save s t, h))
]

-- A login that is saved, revoked and saved again, the same message delivered a second time, stays
-- revoked, whatever the table held before.
pub replay-Revoked :
    (s : DeviceSession) (t : Table)
    → revoked_of
        (row s.kratos_id s.device_id (save s (revoke_device s.kratos_id s.device_id (save s t))))
      ≡ some true
replay-Revoked s t =
    let (r, h) = save-found s t in
    save-revoked s (revoke_device s.kratos_id s.device_id (save s t)) (record r { revoked = true })
      (ground (arith, find-revoke_device s.kratos_id s.device_id (save s t), h))
      (ground (arith, save-jti s t, h))

-- A login without a token id keeps the row revoked, or active, as it was.
save-null_jti :
    (s : DeviceSession) (t : Table) (r : DeviceSession)
    → s.hydra_jti ≡ none
    → row s.kratos_id s.device_id t ≡ some r
    → revoked_of (row s.kratos_id s.device_id (save s t)) ≡ some r.revoked
save-null_jti s t r null at = save-revoked s t r at (ground (arith, null))

save-new_jti :
    (s : DeviceSession) (t : Table) (r : DeviceSession)
    → row s.kratos_id s.device_id t ≡ some r
    → is_new_jti s.hydra_jti r.hydra_jti ≡ true
    → revoked_of (row s.kratos_id s.device_id (save s t)) ≡ some false
unfolding merge
save-new_jti s t r at new = ground (arith, find-save s t, at, new)

save-some_jti :
    (s : DeviceSession) (t : Table) (j : String)
    → s.hydra_jti ≡ some j
    → jti_of (row s.kratos_id s.device_id (save s t)) ≡ some j
unfolding merge
save-some_jti s t j h = ground (arith, find-save s t, h)

-- Two logins of one device with different token ids are saved, first `a` and then `b`, and the
-- device is revoked. When the message of `a` is delivered again, the row is active again.
pub replay_unrevokes :
    (a b : DeviceSession) (t : Table) (i j : String)
    → b.kratos_id ≡ a.kratos_id
    → b.device_id ≡ a.device_id
    → a.hydra_jti ≡ some i
    → b.hydra_jti ≡ some j
    → ¬ (i ≡ j)
    → revoked_of (
        row a.kratos_id a.device_id
          (save a (revoke_device b.kratos_id b.device_id (save b (save a t)))))
      ≡ some false
replay_unrevokes a b t i j user device ha hb differ =
    let (r, h) = save-found b (save a t) in
    save-new_jti a (revoke_device b.kratos_id b.device_id (save b (save a t)))
      (record r { revoked = true })
      (ground
        (arith, find-revoke_device b.kratos_id b.device_id (save b (save a t)), h, user, device))
      (ground (arith, save-some_jti b (save a t) j hb, h, ha, differ, eq_iff i j))
