-- ===== src/Handlers/Guards.antt =====
-- internal/http/middleware: the checks in front of the handlers, cors.go, metrics_allowlist.go and
-- service_auth.go. Addresses and their ranges, and base64, are parameters; the environment
-- variables are the arguments that they are parsed into.
pub mod Locks
use Prim.Native.String.{len, slice}
use text.Mathlib.Text.{find?, starts_with}
use central_auth.Common.{
  ℕ, ◌+◌, String, Bool, true, false, not, ◌||◌, ◌&&◌, Option, none, some, List, [], ◌∷◌,
  if◌then◌else◌, str_eq,
}
use central_auth.Redis.{has}

-- `ServiceAuthMiddleware` of the HTTP server; an absent header is "".
unfoldable pub service_auth : (expected header : String) → Bool
service_auth expected header = if str_eq header "" then false else str_eq header expected

-- What a check decides: to answer with a status, or to run the handler.
pub data Decision : Type 0 where
  abort : (status : ℕ) → Decision
  run : Decision

-- `CORSMiddleware`: whether the origin is echoed with credentials, and the decision; no list at all
-- means open access.
abbrev is_listed : Option (List String) → String → Bool
is_listed none origin = true
is_listed (some origins) origin = has origin origins

unfoldable pub cors :
    Option (List String) → (is_options : Bool) → (origin : String) → Bool × Decision
cors allowed is_options origin =
    let listed = is_listed allowed origin in
    (
      not (str_eq origin "") && listed,
      if is_options then (if listed then abort 204 else abort 403) else run,
    )

module _ {Ip : Type 0} (decode_base64 : String → Option String) (nets : List (Ip → Bool))
    (user password : String) where
  abbrev pub any_contains : List (Ip → Bool) → Ip → Bool
  any_contains [] ip = false
  any_contains (n ∷ ns) ip = n ip || any_contains ns ip

  -- The first lock; `remote` is the address of the caller, if it parses.
  abbrev pub ip_allowed : Option Ip → Bool
  ip_allowed remote = elim nets [
    | [] ↦ true
    | n ∷ ns ↦ elim remote [ none ↦ false | some ip ↦ any_contains (n ∷ ns) ip ]
  ]

  abbrev pub basic_auth_enabled : Bool
  basic_auth_enabled = not (str_eq user "") && not (str_eq password "")

  -- `strings.SplitN(decoded, ":", 2)` and the two comparisons
  abbrev credentials_match : Option String → Bool
  credentials_match none = false
  credentials_match (some decoded) = elim (find? decoded ":") [
    | none ↦ false
    | some i ↦
        str_eq (slice decoded 0 i) user && str_eq (slice decoded (i + 1) (len decoded)) password
  ]

  -- The second lock
  abbrev pub basic_auth : (authorization : String) → Bool
  basic_auth h =
      if starts_with h "Basic "
      then credentials_match (decode_base64 (slice h 6 (len h)))
      else false

  -- `MetricsAllowlistHandler`
  unfoldable pub metrics_allowlist : Option Ip → (authorization : String) → Decision
  metrics_allowlist remote h =
      if not (ip_allowed remote)
      then abort 403
      else if basic_auth_enabled && not (basic_auth h)
      then abort 401
      else run
