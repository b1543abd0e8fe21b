-- ===== src/Config/Server.antt =====
-- internal/config: server.go, bff.go, ory.go, proxy.go and resilience.go. `none` is `log.Fatalf`, which
-- ends the process, and for the proxy an error, on which main ends it; `parse_duration` is
-- `time.ParseDuration`.
use Prim.Native.Char.{code}
use Prim.Native.String.{[] as empty, ◌∷◌ as ◌∷ₛ◌}
use central_auth.Common.{
  ℕ, ◌+◌, ◌*◌, String, Bool, false, ◌&&◌, ◌||◌, not, Option, none, some, List, [], ◌∷◌, ltb,
  if◌then◌else◌, str_eq,
}
use central_auth.Common.Int.{ℤ, pos, negsuc, lt_ℤ}
use central_auth.Config.{Env, or_default, split_and_trim, atoi, env_int}

-- `ServerConfig`
pub record ServerConfig : Type 0 where
  pub service_api_key : String
  pub app_env : String
  pub metrics_basic_auth_user : String
  pub metrics_basic_auth_password : String
  pub trusted_proxy_cidrs : List String
  pub rate_limit_requests_per_min : ℕ

abbrev rate_of : Option ℤ → ℕ
rate_of none = 0
rate_of (some (pos n)) = n
rate_of (some (negsuc n)) = 0

-- The bytes of a code point in UTF-8
abbrev width : ℕ → ℕ
width c = if ltb c 0x80 then 1 else if ltb c 0x800 then 2 else if ltb c 0x10000 then 3 else 4

-- `len`, in bytes
unfoldable pub byte_len : String → ℕ
byte_len empty = 0
byte_len (c ∷ₛ s) = width (code c) + byte_len s

abbrev is_short : ℕ → String → Bool
is_short n s = ltb (byte_len s) n

-- The checks of `LoadServerConfig` in production
abbrev production_fatal : Env → Bool
production_fatal env =
    is_short 32 (env "CENTRAL_AUTH_SERVICE_KEY")
    || is_short 12 (env "POSTGRES_PASSWORD")
    || str_eq (env "METRICS_BASIC_AUTH_USER") ""
    || str_eq (env "METRICS_BASIC_AUTH_PASSWORD") ""
    || str_eq (env "METRICS_ALLOWED_CIDR") ""

unfoldable pub server_config : Env → ServerConfig
server_config env = record {
  service_api_key = env "CENTRAL_AUTH_SERVICE_KEY";
  app_env = env "APP_ENV";
  metrics_basic_auth_user = env "METRICS_BASIC_AUTH_USER";
  metrics_basic_auth_password = env "METRICS_BASIC_AUTH_PASSWORD";
  trusted_proxy_cidrs =
      if str_eq (env "TRUSTED_PROXY_CIDRS") ""
      then "172.16.0.0/12" ∷ []
      else split_and_trim (env "TRUSTED_PROXY_CIDRS");
  rate_limit_requests_per_min =
      if str_eq (env "RATE_LIMIT_REQUESTS_PER_MIN") ""
      then 0
      else rate_of (atoi (env "RATE_LIMIT_REQUESTS_PER_MIN"));
}

-- `LoadServerConfig`
unfoldable pub load_server_config : Env → Option ServerConfig
load_server_config env =
    if str_eq (env "CENTRAL_AUTH_SERVICE_KEY") ""
    then none
    else if str_eq (env "APP_ENV") "production" && production_fatal env
    then none
    else some (server_config env)

-- `BFFConfig`
pub record BffConfig : Type 0 where
  pub cookie_domain : String
  pub cookie_secure : Bool
  pub session_ttl : ℤ
  pub csrf_secret : String
  pub jwks_grace_period : ℤ
  pub access_token_refresh_buffer : ℤ

abbrev seconds : ℕ → ℤ
seconds n = pos (n * 1_000_000_000)

module _ (parse_duration : String → Option ℤ) where
  abbrev duration_or : ℤ → Option ℤ → ℤ
  duration_or default none = default
  duration_or default (some d) = d

  abbrev duration : Env → (key : String) → (default : ℤ) → ℤ
  duration env key default =
      if str_eq (env key) "" then default else duration_or default (parse_duration (env key))

  abbrev grace_period : Env → ℤ
  grace_period env = duration env "BFF_JWKS_GRACE_PERIOD" (seconds (30 * 60))

  -- `LoadBFFConfig`
  unfoldable pub load_bff_config : Env → Option BffConfig
  load_bff_config env =
      if str_eq (env "BFF_CSRF_SECRET") "" || str_eq (env "BFF_COOKIE_DOMAIN") ""
      then none
      else if lt_ℤ (seconds (2 * 3600)) (grace_period env)
      then none
      else some (record {
        cookie_domain = env "BFF_COOKIE_DOMAIN";
        cookie_secure = not (str_eq (env "BFF_COOKIE_SECURE") "false");
        session_ttl = duration env "BFF_SESSION_TTL" (seconds (7 * 24 * 3600));
        csrf_secret = env "BFF_CSRF_SECRET";
        jwks_grace_period = grace_period env;
        access_token_refresh_buffer = duration env "BFF_ACCESS_TOKEN_REFRESH_BUFFER" (seconds 60);
      })

-- `OryConfig`
pub record OryConfig : Type 0 where
  pub kratos_public_url : String
  pub kratos_admin_url : String
  pub hydra_public_url : String
  pub hydra_admin_url : String
  pub hydra_client_id : String
  pub hydra_client_secret : String
  pub hydra_redirect_uri : String
  pub hydra_jwt_audience : String

abbrev is_missing : Env → List String → Bool
is_missing env [] = false
is_missing env (key ∷ keys) = str_eq (env key) "" || is_missing env keys

-- `LoadOryConfig`
unfoldable pub load_ory_config : Env → Option OryConfig
load_ory_config env =
    if is_missing env (
      "KRATOS_PUBLIC_URL" ∷ "KRATOS_ADMIN_URL" ∷ "HYDRA_PUBLIC_URL" ∷ "HYDRA_ADMIN_URL"
      ∷ "HYDRA_CLIENT_ID" ∷ "HYDRA_CLIENT_SECRET" ∷ [])
    then none
    else some (record {
      kratos_public_url = env "KRATOS_PUBLIC_URL";
      kratos_admin_url = env "KRATOS_ADMIN_URL";
      hydra_public_url = env "HYDRA_PUBLIC_URL";
      hydra_admin_url = env "HYDRA_ADMIN_URL";
      hydra_client_id = env "HYDRA_CLIENT_ID";
      hydra_client_secret = env "HYDRA_CLIENT_SECRET";
      hydra_redirect_uri =
          or_default (env "HYDRA_REDIRECT_URI") "http://auth-server:8081/internal/oauth/callback";
      hydra_jwt_audience = or_default (env "HYDRA_JWT_AUDIENCE") (env "HYDRA_CLIENT_ID");
    })

-- `ProxyConfig`
pub record ProxyConfig : Type 0 where
  pub kotlin_url : String
  pub dial_timeout : ℕ
  pub kotlin_service_key : String

-- `LoadProxyConfig`
unfoldable pub load_proxy_config : Env → Option ProxyConfig
load_proxy_config env =
    if str_eq (env "KOTLIN_URL") "" || str_eq (env "KOTLIN_SERVICE_KEY") ""
    then none
    else some (record {
      kotlin_url = env "KOTLIN_URL";
      dial_timeout = 3_000_000_000;
      kotlin_service_key = env "KOTLIN_SERVICE_KEY";
    })

-- `ResilienceConfig`
pub record ResilienceConfig : Type 0 where
  pub failure_threshold : ℕ
  pub probe_base_seconds : ℕ
  pub probe_max_seconds : ℕ
  pub jitter_pct : ℕ

-- `LoadResilienceConfig`
unfoldable pub load_resilience_config : Env → ResilienceConfig
load_resilience_config env = record {
  failure_threshold = env_int env "REDIS_CB_FAILURE_THRESHOLD" 5;
  probe_base_seconds = env_int env "REDIS_CB_PROBE_BASE_SECONDS" 60;
  probe_max_seconds = env_int env "REDIS_CB_PROBE_MAX_SECONDS" 300;
  jitter_pct = env_int env "REDIS_CB_JITTER_PCT" 15;
}
