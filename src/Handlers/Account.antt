-- ===== src/Handlers/Account.antt =====
-- internal/http/handler/account_handler.go: `AccountHandler`. `session_id` is what the session
-- middleware left in the context, the empty text where it left nothing.
use central_auth.Common.{
  ◌≡◌, String, Bool, true, false, ◌||◌, Option, none, some, List, if◌then◌else◌, str_eq,
}
use central_auth.Common.Eff.{Eff, Try}
use central_auth.Failure.{Failure, Result, ok, err, wrap, is, session_gone, session_blacklisted}
use central_auth.Account.{
  AccountService, AccountMeResponse, SessionsResponse, get_me as service_get_me,
  get_sessions as service_get_sessions, logout_devices as service_logout_devices,
  logout_other_devices as service_logout_other_devices,
}
use central_auth.Handlers.{Reply, success, failure}

-- A session that is gone or on the blacklist
abbrev pub is_invalid : Failure → Bool
is_invalid e = is session_blacklisted e || is session_gone e

abbrev answered : {A : Type 0} → Result A → Reply A
answered (ok a) = success 200 a
answered (err e) = if is_invalid e then failure 401 else failure 500

module _ {W A : Type 0} where
  -- What the four handlers do with the session and the answer of the service
  abbrev with_session : (String → Try W A) → String → Eff W (Reply A)
  with_session call session_id w =
      if str_eq session_id ""
      then (failure 401, w)
      else let (r, w') = call session_id w in (answered r, w')

module _ {W : Type 0} (s : AccountService W) where
  -- `GetMe`
  unfoldable pub get_me : (session_id : String) → Eff W (Reply AccountMeResponse)
  get_me session_id w = with_session (service_get_me s) session_id w

  -- `GetSessions`
  unfoldable pub get_sessions : (session_id : String) → Eff W (Reply SessionsResponse)
  get_sessions session_id w = with_session (service_get_sessions s) session_id w

  -- `LogoutDevices`; gin refuses a body without devices.
  unfoldable pub logout_devices :
      Option (List String) → (session_id : String) → Eff W (Reply (Unit {0}))
  logout_devices none session_id w = (failure 400, w)
  logout_devices (some device_ids) session_id w =
      with_session (λ id. service_logout_devices s id device_ids) session_id w

  -- `LogoutOtherDevices`
  unfoldable pub logout_other_devices : (session_id : String) → Eff W (Reply (Unit {0}))
  logout_other_devices session_id w = with_session (service_logout_other_devices s) session_id w

  refused :
      {A : Type 0} (call : String → Try W A) (id : String) (w w' : W) (e : Failure)
      → str_eq id "" ≡ false
      → is_invalid e ≡ true
      → call id w ≡ (err (wrap e), w')
      → with_session call id w ≡ (failure 401, w')
  unfolding is
  refused call id w w' e sent gone asked = rw sent (rw asked (rw gone))

  module _ (id : String) (w w' : W) (e : Failure) (asked : s.bff.who_am_i id w ≡ (err e, w'))
      (gone : is_invalid e ≡ true) (sent : str_eq id "" ≡ false) where
    -- A session that is gone or on the blacklist is answered 401 by each of the four endpoints, and
    -- none of them does anything after it has asked whose session it is.
    pub invalid-Unauthorized :
        (get_me id w ≡ (failure 401, w'))
        × (get_sessions id w ≡ (failure 401, w'))
        × ((devices : List String) → logout_devices (some devices) id w ≡ (failure 401, w'))
        × (logout_other_devices id w ≡ (failure 401, w'))
    unfolding get_me get_sessions logout_devices logout_other_devices service_get_me
        service_get_sessions service_logout_devices service_logout_other_devices
    invalid-Unauthorized = (
      refused (service_get_me s) id w w' e sent gone (rw asked),
      refused (service_get_sessions s) id w w' e sent gone (rw asked),
      λ devices. refused (λ i. service_logout_devices s i devices) id w w' e sent gone (rw asked),
      refused (service_logout_other_devices s) id w w' e sent gone (rw asked),
    )
