-- ===== src/Account/Current.antt =====
-- The device that asks: it is never logged out, and it is not among the others.
use mathlib.Core.Path.{subst}
use central_auth.Common.{
  ◌≡◌, refl, sym, ap, ◌∙◌, String, Bool, true, false, ◌&&◌, ◌||◌, not, List, [], ◌∷◌, map,
  if◌then◌else◌, str_eq, eq_iff, arith, All, Bool-cases, inl, inr,
}
use central_auth.Failure.{ok}
use central_auth.Ports.Types.{BffSession, DeviceSession}
use central_auth.Account.{
  AccountService, has_session, is_requested, split_devices, info, logout_each, logout_devices,
  logout_other_devices,
}

-- A row that `GetSessions` shows under the other devices.
abbrev pub is_other : (current : String) → List BffSession → DeviceSession → Bool
is_other current active pg =
    has_session pg.device_id active && not pg.revoked && not (str_eq pg.device_id current)

abbrev pub other_devices_of :
    (current : String) → List BffSession → List DeviceSession → List String
other_devices_of current active [] = []
other_devices_of current active (pg ∷ rows) =
    let rest = other_devices_of current active rows in
    if is_other current active pg then pg.device_id ∷ rest else rest

-- The device is on the list.
abbrev pub is_named : String → List String → Bool
is_named device [] = false
is_named device (id ∷ ids) = str_eq id device || is_named device ids

module _ {W : Type 0} (s : AccountService W) where
  -- `GetSessions` lists as other devices, in the order of the rows, exactly the rows with a live
  -- session that are not revoked and not of the current device.
  pub split_devices-other :
      (current : String) (active : List BffSession) (rows : List DeviceSession)
      → map (λ i. i.device_id) (split_devices s current active rows).other_devices
        ≡ other_devices_of current active rows
  unfolding split_devices info
  split_devices-other current active [] = refl
  split_devices-other current active (pg ∷ rows) =
      ground (arith, split_devices-other current active rows)

  -- What the two logouts do once the user and the sessions are known.
  logout_devices_eq :
      (session_id kratos_id current : String) (ids : List String) (all : List BffSession)
      (w w₁ w₂ : W)
      → s.bff.who_am_i session_id w ≡ (ok (kratos_id, current), w₁)
      → s.session_store.get_all_for_user kratos_id w₁ ≡ (ok all, w₂)
      → (logout_devices s session_id ids w
          ≡ (ok tt, logout_each s (is_requested current ids) all w₂))
        × (logout_other_devices s session_id w
            ≡ (ok tt, logout_each s (λ device. not (str_eq device current)) all w₂))
  unfolding logout_devices logout_other_devices
  logout_devices_eq session_id kratos_id current ids all w w₁ w₂ me listed =
      ground (arith, me, listed)

  -- The logout of a session leaves `P` as it was, if it is not on the device `current`.
  abbrev pub Spares : (P : W → Type 0) → (current : String) → BffSession → Type 0
  Spares P current bs =
      str_eq bs.device_id current ≡ false → (w : W) → P w → P (s.bff.logout bs.session_id w).1

  requested-current :
      (current : String) (ids : List String) (device : String)
      → str_eq device current ≡ true
      → is_requested current ids device ≡ false
  requested-current current [] device h = refl
  requested-current current (id ∷ ids) device h = ground (
    arith,
    requested-current current ids device h,
    eq_iff id device,
    eq_iff device current,
    eq_iff id current,
  )

  module _ (P : W → Type 0) (current : String) where
    logout_each_keeps :
        (chosen : String → Bool) (all : List BffSession) (w : W)
        → ((device : String) → str_eq device current ≡ true → chosen device ≡ false)
        → All (Spares P current) all
        → P w
        → P (logout_each s chosen all w)
    unfolding logout_each
    logout_each_keeps chosen [] w not_current others p = p
    logout_each_keeps chosen (bs ∷ rest) w not_current others p =
        elim (Bool-cases (chosen bs.device_id)) [
          | inl e ↦ rw e (
              logout_each_keeps chosen rest (s.bff.logout bs.session_id w).1 not_current others.1
                (others.0 (ground (arith, not_current bs.device_id, e)) w p))
          | inr e ↦ rw e (logout_each_keeps chosen rest w not_current others.1 p)
        ]

    -- Neither logout touches the device that asks: what the logout of each of the user's sessions
    -- on another device leaves as it was, `LogoutDevices` and `LogoutOtherDevices` leave as it
    -- was, also where the current device is on the list.
    pub logout_devices_keeps_current :
        (session_id kratos_id : String) (ids : List String) (all : List BffSession) (w w₁ w₂ : W)
        → s.bff.who_am_i session_id w ≡ (ok (kratos_id, current), w₁)
        → s.session_store.get_all_for_user kratos_id w₁ ≡ (ok all, w₂)
        → All (Spares P current) all
        → P w₂
        → P (logout_devices s session_id ids w).1 × P (logout_other_devices s session_id w).1
    logout_devices_keeps_current session_id kratos_id ids all w w₁ w₂ me listed others p =
        let (e, e') = logout_devices_eq session_id kratos_id current ids all w w₁ w₂ me listed in
        (
          subst (λ r. P r.1) (sym e)
              (logout_each_keeps (is_requested current ids) all w₂ (requested-current current ids)
                others p),
          subst (λ r. P r.1) (sym e')
              (logout_each_keeps (λ device. not (str_eq device current)) all w₂
                (λ device h. ground (arith, h)) others p),
        )

  same_choice :
      (chosen chosen' : String → Bool) (all : List BffSession) (w : W)
      → All (λ bs. chosen bs.device_id ≡ chosen' bs.device_id) all
      → logout_each s chosen all w ≡ logout_each s chosen' all w
  unfolding logout_each
  same_choice chosen chosen' [] w h = refl
  same_choice chosen chosen' (bs ∷ rest) w h = ground (
    arith,
    h.0,
    same_choice chosen chosen' rest w h.1,
    same_choice chosen chosen' rest (s.bff.logout bs.session_id w).1 h.1,
  )

  -- The device of each session is on the list.
  abbrev pub Names : List String → List BffSession → Type 0
  Names ids all = All (λ bs. is_named bs.device_id ids ≡ true) all

  requested-named :
      (current : String) (ids : List String) (device : String)
      → is_named device ids ≡ true
      → is_requested current ids device ≡ not (str_eq device current)
  requested-named current [] device h = ground (arith, h)
  requested-named current (id ∷ ids) device h = ground (
    arith,
    h,
    requested-named current ids device,
    requested-current current ids device,
    eq_iff id device,
    eq_iff device current,
    eq_iff id current,
  )

  All-requested :
      (current : String) (ids : List String) (all : List BffSession)
      → Names ids all
      → All (λ bs. is_requested current ids bs.device_id ≡ not (str_eq bs.device_id current)) all
  All-requested current ids [] h = tt
  All-requested current ids (bs ∷ all) h =
      (requested-named current ids bs.device_id h.0, All-requested current ids all h.1)

  -- `LogoutDevices` with a list that names the device of every session of the user does what
  -- `LogoutOtherDevices` does, in the same order.
  pub logout_devices-everything :
      (session_id kratos_id current : String) (ids : List String) (all : List BffSession)
      (w w₁ w₂ : W)
      → s.bff.who_am_i session_id w ≡ (ok (kratos_id, current), w₁)
      → s.session_store.get_all_for_user kratos_id w₁ ≡ (ok all, w₂)
      → Names ids all
      → logout_devices s session_id ids w ≡ logout_other_devices s session_id w
  logout_devices-everything session_id kratos_id current ids all w w₁ w₂ me listed named =
      let (e, e') = logout_devices_eq session_id kratos_id current ids all w w₁ w₂ me listed in
      e
      ∙ ap (λ v. (ok tt, v))
          (same_choice (is_requested current ids) (λ device. not (str_eq device current)) all w₂
            (All-requested current ids all named))
      ∙ sym e'
