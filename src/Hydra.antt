-- ===== src/Hydra.antt =====
-- internal/hydra/client.go: the calls of `Client` to Hydra's public and admin interfaces. A request
-- that cannot be built fails like one that cannot be sent. Decoders of JSON, the parsing of a URL
-- and the random source are fields of the client.
pub mod Flow
pub mod Trace
pub mod Validate
pub mod Port
use Prim.Native.String.{◌++◌}
use central_auth.Common.{
  ℕ, String, Bool, true, false, ◌||◌, Option, none, some, [], ◌∷◌, ◌==◌, if◌then◌else◌, str_eq,
}
use central_auth.Common.Eff.{Eff, Try, return, wrapping, ◌>>=◌, ◌>>◌, fail}
use central_auth.Failure.{Failure, Result, ok, err, plain, wrap}
use central_auth.Http.{Request, Response, Body, form, empty, Json, json, Method, get, post, put}
use central_auth.Http as Http
use central_auth.Http.Query.{raw_param}
use central_auth.Ports.Types.{TokenSet, IntrospectResult}

-- `Client`. `http_client` sends a request; `flow_client` sends one without following redirects, with
-- a jar of cookies. `parse_url` is the raw query of a URL, `query_get` reads one parameter of it,
-- decoded, and `challenge` is the S256 method of PKCE.
pub record Client (W Jar : Type 0) : Type 0 where
  pub public_url : String
  pub admin_url : String
  pub client_id : String
  pub client_secret : String
  pub redirect_uri : String
  pub expected_issuer : String
  pub expected_audience : String
  pub http_client : Request → Try W Response
  pub flow_client : Request → Try (Jar × W) Response
  pub new_jar : Jar
  pub random_hex : ℕ → Try W String
  pub random_base64_url : ℕ → Try W String
  pub challenge : String → String
  pub parse_url : String → Result String
  pub query_get : (raw_query param : String) → String
  pub decode_redirect : String → Result String
  pub decode_tokens : String → Result TokenSet
  pub decode_introspect : String → Result IntrospectResult

abbrev pub get_of : String → Request
get_of url = record { method = get; url = url; query = []; headers = []; body = empty }

module _ (parse_url : String → Result String) where
  abbrev parsed : (String → Result String) → Result String → Result String
  parsed f (err e) = err (wrap e)
  parsed f (ok raw) = f raw

  -- `extractRawParam`
  unfoldable pub extract_raw_param : (raw_url param : String) → Result String
  extract_raw_param raw_url param =
      if str_eq raw_url "" then err plain else parsed (raw_param param) (parse_url raw_url)

  abbrev non_empty : String → Result String
  non_empty v = if str_eq v "" then err plain else ok v

  -- `extractParam`
  unfoldable pub extract_param :
      (query_get : (raw_query param : String) → String) → (raw_url param : String) → Result String
  extract_param query_get raw_url param =
      if str_eq raw_url ""
      then err plain
      else parsed (λ raw. non_empty (query_get raw param)) (parse_url raw_url)

-- The headers and the form of a POST
unfoldable pub token_form : (url : String) → Http.Body → Request
token_form url body = record {
  method = post;
  url = url;
  query = [];
  headers = ("Content-Type", "application/x-www-form-urlencoded") ∷ [];
  body = body;
}

-- The PUT of `adminAccept`
unfoldable pub accept_request : (url : String) → Json → Request
accept_request url body = record {
  method = put;
  url = url;
  query = [];
  headers = ("Content-Type", "application/json") ∷ [];
  body = json body;
}

module _ {W Jar : Type 0} (c : Client W Jar) where
  -- What follows `resp.StatusCode != http.StatusOK`
  abbrev pub decoded : {A : Type 0} → (String → Result A) → Response → Result A
  decoded decode r =
      if r.status == 200
      then elim (decode r.body) [ ok a ↦ ok a | err e ↦ err (wrap e) ]
      else err plain

  -- `tokenRequest`
  unfoldable pub token_request : Http.Body → Try W TokenSet
  token_request body = do
    resp ← wrapping (c.http_client (token_form (c.public_url ++ "/oauth2/token") body))
    λ w. (decoded c.decode_tokens resp, w)

  -- `exchangeCode`
  unfoldable pub exchange_form : (code code_verifier : String) → Http.Body
  exchange_form code code_verifier = form (
      ("grant_type", "authorization_code")
      ∷ ("code", code)
      ∷ ("redirect_uri", c.redirect_uri)
      ∷ ("client_id", c.client_id)
      ∷ ("client_secret", c.client_secret)
      ∷ ("code_verifier", code_verifier)
      ∷ [])

  unfoldable pub exchange_code : (code code_verifier : String) → Try W TokenSet
  exchange_code code code_verifier = token_request (exchange_form code code_verifier)

  -- `RefreshToken`
  unfoldable pub refresh_token : String → Try W TokenSet
  refresh_token token = token_request (
      form (
        ("grant_type", "refresh_token")
        ∷ ("refresh_token", token)
        ∷ ("client_id", c.client_id)
        ∷ ("client_secret", c.client_secret)
        ∷ []))

  -- The answer of a call that returns an error alone
  abbrev pub sent : (Response → Bool) → Result Response → Option Failure
  sent accepted (err e) = some (wrap e)
  sent accepted (ok r) = if accepted r then none else some plain

  -- `RevokeToken`
  unfoldable pub revoke_token : String → Eff W (Option Failure)
  revoke_token token w =
      let body =
        form (
          ("token", token)
          ∷ ("client_id", c.client_id)
          ∷ ("client_secret", c.client_secret)
          ∷ []) in
      let (r, w') = c.http_client (token_form (c.public_url ++ "/oauth2/revoke") body) w in
      (sent (λ resp. resp.status == 200) r, w')

  -- `RevokeAllForSubject`
  unfoldable pub revoke_all_for_subject : String → Eff W (Option Failure)
  revoke_all_for_subject kratos_id w =
      let request : Request = record {
        method = Http.delete;
        url = c.admin_url ++ "/admin/oauth2/tokens?";
        query = ("subject", kratos_id) ∷ ("client_id", c.client_id) ∷ [];
        headers = [];
        body = empty;
      } in
      let (r, w') = c.http_client request w in
      (sent (λ resp. (resp.status == 204) || (resp.status == 200)) r, w')

  -- `IntrospectToken`
  unfoldable pub introspect_token : String → Try W IntrospectResult
  introspect_token token = do
    resp ← wrapping (
        c.http_client
          (token_form (c.admin_url ++ "/admin/oauth2/introspect") (form (("token", token) ∷ []))))
    λ w. (decoded c.decode_introspect resp, w)

  -- `adminAccept`
  unfoldable pub admin_accept : (path : String) → Json → Try W String
  admin_accept path body = do
    resp ← c.http_client (accept_request (c.admin_url ++ path) body)
    λ w. (decoded c.decode_redirect resp, w)
