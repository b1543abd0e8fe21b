-- ===== src/Account.antt =====
-- internal/service/account_service.go: the devices of a user, and logging them out. The service
-- calls the BFF service through its interface; the parsing of an identity's traits is a
-- parameter.
pub mod Current
use central_auth.Common.{
  ℕ, String, Bool, true, false, ◌&&◌, ◌||◌, not, Option, none, some, List, [], ◌∷◌, if◌then◌else◌,
  str_eq,
}
use central_auth.Common.Eff.{Eff, Try, return, wrapping, logged, lift, ◌>>=◌, ◌>>◌}
use central_auth.Failure.{Failure, Result}
use central_auth.Ports.{SessionStore, DeviceSessionRepository}
use central_auth.Ports.Types.{BffSession, DeviceSession}
use central_auth.Bff.{deref}
use central_auth.UaParser.{parse}

-- `BFFServiceI`, as far as this service calls it
pub record BffServiceI (W : Type 0) : Type 0 where
  pub logout : String → Try W Unit
  pub who_am_i : String → Try W (String × String)

-- `kratos.IdentityFull`; of the credentials only the names of the methods are read.
pub record IdentityFull : Type 0 where
  pub traits : String
  pub credentials : List String

-- `AccountService`; `parse_traits` is the email and the first name in the traits.
pub record AccountService (W : Type 0) : Type 0 where
  pub bff : BffServiceI W
  pub session_store : SessionStore W
  pub device_session_repo : DeviceSessionRepository W
  pub get_identity_full : String → Try W IdentityFull
  pub parse_traits : String → Result (String × String)

-- `model.AccountMeResponse`
pub record AccountMeResponse : Type 0 where
  pub email : String
  pub name : String
  pub login_provider : String

-- `model.DeviceInfo`
pub record DeviceInfo : Type 0 where
  pub device_id : String
  pub browser : String
  pub os : String
  pub last_used_at : Option ℕ
  pub is_current : Bool

-- `model.SessionsResponse`
pub record SessionsResponse : Type 0 where
  pub current_device : Option DeviceInfo
  pub other_devices : List DeviceInfo

abbrev has_method : String → List String → Bool
has_method name [] = false
has_method name (x ∷ xs) = str_eq x name || has_method name xs

-- The device is in `activeDevices`.
abbrev pub has_session : String → List BffSession → Bool
has_session device [] = false
has_session device (bs ∷ rest) = str_eq bs.device_id device || has_session device rest

-- The device is in `requested`: listed, and not the current one.
abbrev pub is_requested : (current : String) → List String → String → Bool
is_requested current [] device = false
is_requested current (id ∷ ids) device =
    (str_eq id device && not (str_eq id current)) || is_requested current ids device

module _ {W : Type 0} (s : AccountService W) where
  open s use {bff, session_store, device_session_repo, get_identity_full, parse_traits}

  -- `GetMe`
  unfoldable pub get_me : String → Try W AccountMeResponse
  get_me session_id = do
    (kratos_id, device) ← wrapping (bff.who_am_i session_id)
    identity ← wrapping (get_identity_full kratos_id)
    (email, name) ← wrapping (λ w. (parse_traits identity.traits, w))
    return (record {
      email = email;
      name = name;
      login_provider = if has_method "oidc" identity.credentials then "Google" else "Password";
    })

  info : (current : String) → DeviceSession → DeviceInfo
  info current pg =
      let parsed = parse (deref pg.user_agent) in
      record {
        device_id = pg.device_id;
        browser = parsed.browser;
        os = parsed.os;
        last_used_at = pg.last_used_at;
        is_current = str_eq pg.device_id current;
      }

  -- The loop of `GetSessions` over the rows: the later row of the current device wins.
  unfoldable pub split_devices :
      (current : String) → List BffSession → List DeviceSession → SessionsResponse
  unfolding info
  split_devices current active [] = record { current_device = none; other_devices = [] }
  split_devices current active (pg ∷ rows) =
      let rest = split_devices current active rows in
      if not (has_session pg.device_id active) || pg.revoked
      then rest
      else if str_eq pg.device_id current
      then record rest {
        current_device = elim rest.current_device [
          | none ↦ some (info current pg)
          | some i ↦ some i
        ];
      }
      else record rest { other_devices = info current pg ∷ rest.other_devices }

  -- `GetSessions`
  unfoldable pub get_sessions : String → Try W SessionsResponse
  unfolding split_devices
  get_sessions session_id = do
    (kratos_id, current) ← wrapping (bff.who_am_i session_id)
    rows ← wrapping (device_session_repo.get_device_sessions kratos_id)
    active ← wrapping (session_store.get_all_for_user kratos_id)
    return (split_devices current active rows)

  -- The loop of both logouts: the sessions whose device is chosen, each as well as it can be.
  unfoldable pub logout_each : (String → Bool) → List BffSession → W → W
  logout_each chosen [] w = w
  logout_each chosen (bs ∷ rest) w =
      if chosen bs.device_id
      then logout_each chosen rest (bff.logout bs.session_id w).1
      else logout_each chosen rest w

  -- `LogoutDevices`
  unfoldable pub logout_devices : String → List String → Try W Unit
  unfolding logout_each
  logout_devices session_id device_ids = do
    (kratos_id, current) ← wrapping (bff.who_am_i session_id)
    all ← wrapping (session_store.get_all_for_user kratos_id)
    lift (λ w. (tt, logout_each (is_requested current device_ids) all w))

  -- `LogoutOtherDevices`
  unfoldable pub logout_other_devices : String → Try W Unit
  unfolding logout_each
  logout_other_devices session_id = do
    (kratos_id, current) ← wrapping (bff.who_am_i session_id)
    all ← wrapping (session_store.get_all_for_user kratos_id)
    lift (λ w. (tt, logout_each (λ device. not (str_eq device current)) all w))
