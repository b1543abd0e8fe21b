-- ===== src/Grpc/Server.antt =====
-- internal/grpc/server: the handlers of `AuthServer` around the service, and `domainToGRPCStatus`.
-- The service is internal/service/auth_service.go; log lines are left out.
use central_auth.Common.{ℕ, String, Bool, Option, none, some, if◌then◌else◌, str_eq}
use central_auth.Common.Eff.{Eff, Try}
use central_auth.Failure.{
  Failure, Result, ok, err, is, invalid_credentials, invalid_token, email_conflict,
}
use central_auth.Auth.{AuthService, VerifyResult}
use central_auth.Auth as Auth
use central_auth.Grpc.{
  Answer, response, failed, invalid_argument, already_exists, internal, unauthenticated,
}

-- `domainToGRPCStatus`
unfoldable pub domain_to_grpc_status : Failure → ℕ
domain_to_grpc_status e =
    if is invalid_credentials e
    then unauthenticated
    else if is invalid_token e
    then unauthenticated
    else if is email_conflict e
    then already_exists
    else internal

-- `nilIfEmpty`
abbrev pub nil_if_empty : String → Option String
nil_if_empty s = if str_eq s "" then none else some s

-- `authv1.LoginRequest`; `other_method` is each value that the `switch` has no case for.
pub data LoginMethod : Type 0 where
  kratos_id_method google_method other_method : LoginMethod

pub record LoginRequest : Type 0 where
  pub method : LoginMethod
  pub kratos_id : String
  pub email : String
  pub device_id : String
  pub remember_me : Bool
  pub user_agent : String
  pub ip : String

abbrev answer : {A B : Type 0} → (A → B) → Result A → Answer B
answer f (ok a) = response (f a)
answer f (err e) = failed (domain_to_grpc_status e)

-- A call of the service, and its error as a status.
abbrev pub serve : {W A B : Type 0} → (A → B) → Try W A → Eff W (Answer B)
serve f call w = let (r, w') = call w in (answer f r, w')

-- A required field
abbrev pub required : {W A : Type 0} → String → Eff W (Answer A) → Eff W (Answer A)
required field handler w = if str_eq field "" then (failed invalid_argument, w) else handler w

module _ {W : Type 0} (svc : AuthService W) where
  -- `Signup`
  unfoldable pub signup : (email : String) → Eff W (Answer (String × String))
  signup email = required email (serve (λ kratos_id. (kratos_id, email)) (Auth.signup svc email))

  login_by : LoginMethod → LoginRequest → Eff W (Answer (String × String))
  login_by kratos_id_method req = required req.kratos_id (
      serve (λ tokens. tokens)
        (Auth.login svc req.kratos_id req.device_id req.remember_me (nil_if_empty req.user_agent)
          (nil_if_empty req.ip)))
  login_by google_method req = required req.email (
      serve (λ tokens. tokens)
        (Auth.google_login svc req.email req.device_id req.remember_me (nil_if_empty req.user_agent)
          (nil_if_empty req.ip)))
  login_by other_method req = λ w. (failed invalid_argument, w)

  -- `Login`
  unfoldable pub login : LoginRequest → Eff W (Answer (String × String))
  unfolding login_by
  login req = login_by req.method req

  -- `Refresh`
  unfoldable pub refresh : (refresh_token : String) → Eff W (Answer (String × String))
  refresh refresh_token =
      required refresh_token (serve (λ tokens. tokens) (Auth.refresh svc refresh_token))

  -- `Logout`
  unfoldable pub logout : (refresh_token : String) → Eff W (Answer Unit)
  logout refresh_token = required refresh_token (serve (λ u. u) (Auth.logout svc refresh_token))

  -- `LogoutAll`
  unfoldable pub logout_all : (refresh_token : String) → Eff W (Answer Unit)
  logout_all refresh_token =
      required refresh_token (serve (λ u. u) (Auth.logout_all svc refresh_token))

  -- `Verify`
  unfoldable pub verify : (access_token : String) → Eff W (Answer VerifyResult)
  verify access_token =
      required access_token (serve (λ result. result) (Auth.verify_token svc access_token))

  -- `GoogleLogin`
  unfoldable pub google_login :
      (email device_id : String)
      → Bool
      → (user_agent ip : String) → Eff W (Answer (String × String))
  google_login email device_id remember_me user_agent ip = required email (
      serve (λ tokens. tokens)
        (Auth.google_login svc email device_id remember_me (nil_if_empty user_agent)
          (nil_if_empty ip)))
