-- ===== src/Handlers/Auth.antt =====
-- internal/http/handler/auth_handler.go: `AuthHandler` around the service.
use Prim.Native.String.{len, slice}
use text.Mathlib.Text.{find?}
use central_auth.Common.{ℕ, ◌+◌, String, Bool, Option, none, some, if◌then◌else◌, str_eq}
use central_auth.Common.Eff.{Eff, Try}
use central_auth.Failure.{
  Failure, Result, ok, err, is, invalid_credentials, invalid_token, email_conflict,
}
use central_auth.Auth.{AuthService, VerifyResult}
use central_auth.Auth as Auth
use central_auth.Grpc.Server.{nil_if_empty}
use central_auth.Handlers.{Reply, success, failure}

-- The two parts of `strings.SplitN(h, " ", 2)`, if there are two
abbrev split_two : String → Option (String × String)
split_two h = elim (find? h " ") [
  | none ↦ none
  | some i ↦ some (slice h 0 i, slice h (i + 1) (len h))
]

abbrev bearer_parts : Option (String × String) → Option String
bearer_parts none = none
bearer_parts (some (scheme, token)) = if str_eq scheme "Bearer" then some token else none

-- `bearerToken`
unfoldable pub bearer_token : (authorization : String) → Option String
bearer_token h = if str_eq h "" then none else bearer_parts (split_two h)

-- The status of an error of the token operations, by `isTokenError`
abbrev token_status : Failure → ℕ
token_status e = if is invalid_token e then 401 else 500

abbrev signup_status : Failure → ℕ
signup_status e = if is email_conflict e then 409 else 500

abbrev google_status : Failure → ℕ
google_status e = if is invalid_credentials e then 401 else 500

-- `VerifyToken` fails closed.
abbrev verify_status : Failure → ℕ
verify_status e = 401

abbrev reply : {A B : Type 0} → ℕ → (A → B) → (Failure → ℕ) → Result A → Reply B
reply status f on_error (ok a) = success status (f a)
reply status f on_error (err e) = failure (on_error e)

-- A call of the service, and its result as an answer.
abbrev pub respond : {W A B : Type 0} → ℕ → (A → B) → (Failure → ℕ) → Try W A → Eff W (Reply B)
respond status f on_error call w = let (r, w') = call w in (reply status f on_error r, w')

-- A handler of a request with a token in the Authorization header
abbrev pub with_bearer :
    {W A : Type 0} → Option String → (String → Eff W (Reply A)) → Eff W (Reply A)
with_bearer none handler w = (failure 401, w)
with_bearer (some token) handler w = handler token w

-- A handler of a request with a body
abbrev pub with_body : {W A B : Type 0} → Option B → (B → Eff W (Reply A)) → Eff W (Reply A)
with_body none handler w = (failure 400, w)
with_body (some body) handler w = handler body w

pub record GoogleLoginRequest : Type 0 where
  pub email : String
  pub device_id : String
  pub remember_me : Bool

module _ {W : Type 0} (auth_service : AuthService W) where
  -- `Logout`
  unfoldable pub logout : (authorization : String) → Eff W (Reply Unit)
  logout h =
      with_bearer (bearer_token h)
        (λ t. respond 200 (λ u. u) token_status (Auth.logout auth_service t))

  -- `LogoutAll`
  unfoldable pub logout_all : (authorization : String) → Eff W (Reply Unit)
  logout_all h =
      with_bearer (bearer_token h)
        (λ t. respond 200 (λ u. u) token_status (Auth.logout_all auth_service t))

  -- `Refresh`
  unfoldable pub refresh : (authorization : String) → Eff W (Reply (String × String))
  refresh h =
      with_bearer (bearer_token h)
        (λ t. respond 200 (λ tokens. tokens) token_status (Auth.refresh auth_service t))

  -- `Signup`
  unfoldable pub signup : (email : Option String) → Eff W (Reply (String × String))
  signup body =
      with_body body
        (λ email. respond 201 (λ id. (id, email)) signup_status (Auth.signup auth_service email))

  -- `GoogleLogin`
  unfoldable pub google_login :
      Option GoogleLoginRequest → (user_agent ip : String) → Eff W (Reply (String × String))
  google_login body user_agent ip = with_body body (λ req.
      respond 200 (λ tokens. tokens) google_status
        (Auth.google_login auth_service req.email req.device_id req.remember_me
          (nil_if_empty user_agent) (nil_if_empty ip)))

  -- `Verify`
  unfoldable pub verify : (authorization : String) → Eff W (Reply VerifyResult)
  verify h =
      with_bearer (bearer_token h)
        (λ t. respond 200 (λ result. result) verify_status (Auth.verify_token auth_service t))
