-- ===== src/Handlers/Proxy.antt =====
-- The way of a request to the backend: the session cookie (internal/http/middleware/bff_session.go and
-- bff_api_bridge.go) and the reverse proxy (internal/http/handler/proxy_handler.go). Header names
-- are in Go's canonical form. httputil.ReverseProxy and the transport behind it are parameters.
pub mod Identity
use Prim.Native.String.{len, slice}
use text.Mathlib.Text.{starts_with}
use central_auth.Common.{
  ℕ, String, Bool, true, false, not, ◌||◌, Option, none, some, List, [], ◌∷◌, if◌then◌else◌, str_eq,
}
use central_auth.Common.Assoc.{Assoc, lookup, insert, erase}
use central_auth.Common.Eff.{Eff}
use central_auth.Failure.{Result, ok, err}
use central_auth.Bff.{BffService}
use central_auth.Bff.Resolve.{resolve_session}
use central_auth.Handlers.Text.{matches_session_id}

-- `BFFSessionMiddleware`: the session id that the handlers find, or `none` for 401; an absent cookie
-- is "".
unfoldable pub bff_session : (cookie : String) → Option String
bff_session cookie =
    if str_eq cookie "" then none else if matches_session_id cookie then some cookie else none

-- "bff.userID" and "bff.deviceID" in the context of a request
pub record Context : Type 0 where
  pub user_id : Option String
  pub device_id : Option String

abbrev anonymous : Context
anonymous = record { user_id = none; device_id = none }

module _ {W : Type 0} (s : BffService W) where
  abbrev bridged : Result (String × String × String) → Context
  bridged (err e) = anonymous
  bridged (ok (token, kratos_id, device_id)) = record {
    user_id = some kratos_id;
    device_id = if str_eq device_id "" then none else some device_id;
  }

  -- `BFFAPIBridgeMiddleware`
  unfoldable pub bridge : (cookie : String) → Eff W Context
  bridge cookie w =
      if str_eq cookie ""
      then (anonymous, w)
      else let (r, w') = resolve_session s cookie w in (bridged r, w')

-- A request of the browser
pub record ApiRequest : Type 0 where
  pub path : String
  pub headers : Assoc String

-- What the handler does with it: 401, or the headers that the backend receives
pub data Forward : Type 0 where
  unauthorized : Forward
  forwarded : Assoc String → Forward

-- `isAuthFree`
unfoldable pub is_auth_free : String → Bool
is_auth_free path = starts_with path "/api/auth/"

-- The headers that are stripped from each request
abbrev pub stripped : Assoc String → Assoc String
stripped h =
    erase "Authorization" (erase "X-Service-Key" (erase "X-Device-Id" (erase "X-User-Id" h)))

abbrev is_blank : Option String → Bool
is_blank none = true
is_blank (some v) = str_eq v ""

module _ (service_key correlation_id : String) where
  -- The correlation id of the request, or the new one, and the key of the service
  unfoldable pub tagged : Assoc String → Assoc String
  tagged h =
      let h' =
        if is_blank (lookup "X-Correlation-Id" h)
        then insert "X-Correlation-Id" correlation_id h
        else h in
      insert "X-Service-Key" service_key h'

-- `reverse_proxy` is what httputil.ReverseProxy makes of the headers on their way to the backend.
module _ (reverse_proxy : Assoc String → Assoc String) (service_key correlation_id : String) where
  abbrev with_device : Option String → Assoc String → Assoc String
  with_device none h = h
  with_device (some d) h = if str_eq d "" then h else insert "X-Device-Id" d h

  abbrev with_user : Option String → Option String → Assoc String → Forward
  with_user none d h = unauthorized
  with_user (some u) d h =
      if str_eq u ""
      then unauthorized
      else forwarded (reverse_proxy (with_device d (insert "X-User-Id" u h)))

  -- `Handle`
  unfoldable pub handle : Context → ApiRequest → Forward
  unfolding tagged
  handle ctx req =
      let h = tagged service_key correlation_id (stripped req.headers) in
      if is_auth_free req.path
      then forwarded (reverse_proxy h)
      else with_user ctx.user_id ctx.device_id h
