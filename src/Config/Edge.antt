-- ===== src/Config/Edge.antt =====
-- Who may reach the edge by the environment: `LoadCORSOrigins` of cors.go and the reading of
-- METRICS_ALLOWED_CIDR of metrics_allowlist.go, in internal/http/middleware, behind
-- `LoadServerConfig`. `none` ends the process; `parse_cidr` is `net.ParseCIDR`, a test on addresses.
use central_auth.Common.{
  ◌≡◌, ◌≢◌, refl, String, Bool, true, false, ◌&&◌, ◌||◌, Option, none, some, List, [], ◌∷◌, arith,
  if◌then◌else◌, str_eq, eq_iff, Bool-cases, inl, inr,
}
use mathlib.Core.Option.{some-injective}
use mathlib.Core.Path.{subst}
use central_auth.Http.Query.{split}
use central_auth.Redis.{has}
use central_auth.Config.{Env, trim_space, kept, split_and_trim, comma}
use central_auth.Config.Blank.{IsBlank, split_and_trim-blank}
use central_auth.Config.Server.{ServerConfig, server_config, load_server_config}
use central_auth.Handlers.Guards.{cors, ip_allowed}

abbrev pub is_wildcard : List String → Bool
is_wildcard [] = false
is_wildcard (o ∷ os) = str_eq (trim_space o) "*" || is_wildcard os

-- `LoadCORSOrigins`: the outer `none` ends the process, the inner one is open access.
unfoldable pub load_cors_origins :
    (app_env : String) → (raw : String) → Option (Option (List String))
load_cors_origins app_env raw =
    let list = trim_space raw in
    let production = str_eq app_env "production" in
    if str_eq list "" || str_eq list "*"
    then (if production then none else some none)
    else if is_wildcard (split comma list) && production
    then none
    else some (some (split_and_trim list))

abbrev pub nets_of : {N : Type 0} → (String → Option N) → List String → Option (List N)
nets_of parse_cidr [] = some []
nets_of parse_cidr (c ∷ cs) = elim (parse_cidr c) [
  | none ↦ none
  | some n ↦ elim (nets_of parse_cidr cs) [ none ↦ none | some ns ↦ some (n ∷ ns) ]
]

-- The ranges of `MetricsAllowlistHandler`
unfoldable pub load_nets : {N : Type 0} → (String → Option N) → (raw : String) → Option (List N)
load_nets parse_cidr raw =
    if str_eq raw "" then some [] else nets_of parse_cidr (split_and_trim raw)

has-kept : (os : List String) → is_wildcard os ≡ false → has "*" (kept os) ≡ false
unfolding kept
has-kept [] h = refl
has-kept (o ∷ os) h = ground (arith, h, has-kept os, eq_iff (trim_space o) "*")

-- In production the server starts only with a list of origins: access is not open, and no origin that
-- is a wildcard is allowed.
pub cors-production :
    (raw : String) (allowed : Option (List String))
    → load_cors_origins "production" raw ≡ some allowed
    → (allowed ≢ none) × ((is_options : Bool) → (cors allowed is_options "*").0 ≡ false)
unfolding load_cors_origins cors split_and_trim
cors-production raw allowed h =
    let list = trim_space raw in
    elim (Bool-cases (str_eq list "" || str_eq list "*")) [
      | inl open_access ↦
          let stopped : none ≡ some allowed = rw open_access at h in ground (arith, stopped)
      | inr listed ↦
          let started = rw listed at h in
          elim (Bool-cases (is_wildcard (split comma list))) [
            | inl wild ↦
                let stopped : none ≡ some allowed = rw wild at started in ground (arith, stopped)
            | inr safe ↦
                let same : some (some (kept (split comma list))) ≡ some allowed =
                  rw safe at started in
                let none_open = has-kept (split comma list) safe in
                let fits = some-injective _ _ same in
                subst (λ a. (a ≢ none) × ((is_options : Bool) → (cors a is_options "*").0 ≡ false))
                  fits (λ no. ground (arith, no), λ is_options. none_open)
          ]
    ]

-- The environment with another METRICS_ALLOWED_CIDR
abbrev pub with_cidr : Env → String → Env
with_cidr env raw key = if str_eq key "METRICS_ALLOWED_CIDR" then raw else env key

module _ {Ip : Type 0} (parse_cidr : String → Option (Ip → Bool))
    (decode_base64 : String → Option String) where
  -- A METRICS_ALLOWED_CIDR of commas and white space alone is as good as any for the checks of
  -- `LoadServerConfig`, in production too, and opens the first lock of the metrics to every address.
  pub metrics-open :
      (env : Env) (cfg : ServerConfig) (raw user password : String)
      → load_server_config env ≡ some cfg
      → str_eq raw "" ≡ false
      → IsBlank raw
      → (load_server_config (with_cidr env raw) ≡ some cfg)
        × (load_nets parse_cidr raw ≡ some [])
        × ((remote : Option Ip) → ip_allowed decode_base64 [] user password remote ≡ true)
  unfolding load_nets load_server_config server_config
  metrics-open env cfg raw user password started set blank =
      (ground (arith, started, set), rw set (rw (split_and_trim-blank raw blank)), λ remote. refl)
