-- ===== src/Handlers/Bff.antt =====
-- internal/http/handler/bff_handler.go: `BFFHandler`, with the cookies that it sets. Of a cookie the
-- value and the lifetime are kept.
pub mod Revoked
use central_auth.Common.{
  ℕ, String, Bool, true, false, not, ◌||◌, Option, none, some, List, [], ◌∷◌, if◌then◌else◌,
}
use central_auth.Common.Int.{ℤ}
use central_auth.Common.Eff.{Eff}
use central_auth.Failure.{Failure, Result, ok, err, is, session_gone, session_blacklisted}
use central_auth.Bff.{BffService}
use central_auth.Bff.Login.{login as service_login}
use central_auth.Bff.Logout.{logout as service_logout, logout_all as service_logout_all}
use central_auth.Bff.Resolve.{who_am_i as service_who_am_i}
use central_auth.Csrf.{Bytes, new_token}
use central_auth.Handlers.{Reply, success, failure}
use central_auth.Handlers.Text.{bytes_of}

-- What `http.SetCookie` is called with: the session or the token, or the removal of a cookie.
pub data SetCookie : Type 0 where
  session_cookie : String → (max_age : ℤ) → SetCookie
  csrf_cookie : Bytes → SetCookie
  clear_session clear_csrf clear_kratos : SetCookie

pub record Page (A : Type 0) : Type 0 where
  pub reply : Reply A
  pub cookies : List SetCookie

-- `model.BFFLoginRequest`
pub record BffLoginRequest : Type 0 where
  pub kratos_id : String
  pub device_id : String
  pub remember_me : Bool

-- The configuration that the handler reads, and the source of random bytes
pub record BffConfig (W : Type 0) : Type 0 where
  pub session_max_age : ℤ
  pub csrf_secret : Bytes
  pub hmac : (secret message : Bytes) → Bytes
  pub random : Eff W (Option Bytes)

abbrev page : {A : Type 0} → Reply A → List SetCookie → Page A
page reply cookies = record { reply = reply; cookies = cookies }

-- `clearBFFCookie`
abbrev pub cleared : List SetCookie
cleared = clear_session ∷ clear_csrf ∷ clear_kratos ∷ []

module _ {W : Type 0} (s : BffService W) (cfg : BffConfig W) where
  abbrev logged_in : String → Option Bytes → Page Unit
  logged_in id none = page (failure 500) (session_cookie id cfg.session_max_age ∷ [])
  logged_in id (some b) = page (success 200 tt) (
      session_cookie id cfg.session_max_age
      ∷ csrf_cookie (new_token cfg.hmac cfg.csrf_secret (bytes_of id) b)
      ∷ [])

  abbrev login_result : Result String → Eff W (Page Unit)
  login_result (err e) w = (page (failure 500) [], w)
  login_result (ok id) w = let (b, w') = cfg.random w in (logged_in id b, w')

  -- `Login`; `kratos_token` is the cookie of Kratos.
  unfoldable pub login :
      Option BffLoginRequest → (kratos_token user_agent ip : String) → Eff W (Page Unit)
  login none kratos_token user_agent ip w = (page (failure 400) [], w)
  login (some req) kratos_token user_agent ip w =
      let (r, w') =
        service_login s req.kratos_id req.device_id req.remember_me kratos_token (some user_agent)
          (some ip) w in
      login_result r w'

  abbrev logout_page : Result (Unit {0}) → Page Unit
  logout_page (ok u) = page (success 200 tt) cleared
  logout_page (err e) =
      if is session_gone e then page (success 200 tt) cleared else page (failure 500) []

  -- `Logout`
  unfoldable pub logout : (session_id : String) → Eff W (Page Unit)
  logout session_id w = let (r, w') = service_logout s session_id w in (logout_page r, w')

  -- `LogoutAll`
  unfoldable pub logout_all : (session_id : String) → Eff W (Page Unit)
  logout_all session_id w = let (r, w') = service_logout_all s session_id w in (logout_page r, w')

  abbrev who_am_i_page : Result (String × String) → Page (String × String)
  who_am_i_page (ok identity) = page (success 200 identity) []
  who_am_i_page (err e) =
      if is session_blacklisted e || is session_gone e
      then page (failure 401) cleared
      else page (failure 500) []

  -- `WhoAmI`
  unfoldable pub who_am_i : (session_id : String) → Eff W (Page (String × String))
  who_am_i session_id w = let (r, w') = service_who_am_i s session_id w in (who_am_i_page r, w')
