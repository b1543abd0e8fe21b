-- ===== src/Hydra/Flow.antt =====
-- `IssueTokens` of internal/hydra/client.go: the authorization code flow of one login, in its six
-- steps.
use Prim.Native.String.{◌++◌}
use central_auth.Common.{ℕ, ◌*◌, String, Bool, [], ◌∷◌, if◌then◌else◌, str_eq}
use central_auth.Common.Eff.{Try, return, wrapping, ◌>>=◌, ◌>>◌, fail}
use central_auth.Failure.{Result, plain}
use central_auth.Http.{Request, Json, text, flag, number, texts, object, end, field, get, empty}
use central_auth.Ports.Types.{TokenSet}
use central_auth.Hydra.{
  Client, get_of, extract_raw_param, extract_param, exchange_code, admin_accept,
}

abbrev pub scopes : String
scopes = "openid offline_access email profile"

abbrev remember_for : Bool → ℕ
remember_for remember_me = if remember_me then 60 * 60 * 24 * 30 else 0

-- Step 2
unfoldable pub login_body : (kratos_id device_id : String) → Bool → Json
login_body kratos_id device_id remember_me = object (
    field "subject" (text kratos_id) (
      field "remember" (flag remember_me) (
        field "remember_for" (number (remember_for remember_me))
          (field "context" (object (field "device_id" (text device_id) end)) end))))

unfoldable pub login_path : (login_challenge : String) → String
login_path login_challenge =
    "/admin/oauth2/auth/requests/login/accept?login_challenge=" ++ login_challenge

unfoldable pub consent_path : (consent_challenge : String) → String
consent_path consent_challenge =
    "/admin/oauth2/auth/requests/consent/accept?consent_challenge=" ++ consent_challenge

abbrev pub text_or_empty : Result String → String
text_or_empty (Result.ok s) = s
text_or_empty (Result.err e) = ""

-- Step 4
unfoldable pub consent_body : (audience device_id : String) → Bool → Json
consent_body audience device_id remember_me = object (
    field "grant_scope" (texts ("openid" ∷ "offline_access" ∷ "email" ∷ "profile" ∷ [])) (
      field "grant_access_token_audience" (texts (audience ∷ [])) (
        field "remember" (flag remember_me) (
          field "remember_for" (number (remember_for remember_me)) (
            field "session"
              (object (
                field "access_token"
                  (object (
                    field "device_id" (text device_id)
                      (field "roles" (texts ("user" ∷ [])) (field "permissions" (texts []) end))))
                  (field "id_token" (object (field "device_id" (text device_id) end)) end)))
              end)))))

module _ {W Jar : Type 0} (c : Client W Jar) where
  abbrev pub consent_audience : String
  consent_audience = if str_eq c.expected_audience "" then c.client_id else c.expected_audience

  -- A call that leaves the jar alone
  abbrev pub beside : {A : Type 0} → Try W A → Try (Jar × W) A
  beside m (jar, w) = let (r, w') = m w in (r, (jar, w'))

  abbrev pub given : {A : Type 0} → Result A → Try (Jar × W) A
  given r w = (r, w)

  -- Step 1: the request that starts the flow
  unfoldable pub auth_request : (state nonce code_challenge : String) → Request
  auth_request state nonce code_challenge = record {
    method = get;
    url = c.public_url ++ "/oauth2/auth?";
    query =
        ("response_type", "code")
        ∷ ("client_id", c.client_id)
        ∷ ("redirect_uri", c.redirect_uri)
        ∷ ("scope", scopes)
        ∷ ("state", state)
        ∷ ("nonce", nonce)
        ∷ ("code_challenge", code_challenge)
        ∷ ("code_challenge_method", "S256")
        ∷ [];
    headers = [];
    body = empty;
  }

  -- The end of step 5: the state that comes back is the one that was sent.
  unfoldable pub check_state : (state location : String) → Try (Jar × W) (Unit {0})
  check_state state location =
      if str_eq (text_or_empty (extract_param c.parse_url c.query_get location "state")) state
      then return tt
      else fail plain

  -- The end of step 5, and step 6
  unfoldable pub redeem : (state code_verifier location : String) → Try (Jar × W) TokenSet
  unfolding check_state
  redeem state code_verifier location = do
    code ← wrapping (given (extract_param c.parse_url c.query_get location "code"))
    check_state state location
    beside (exchange_code c code code_verifier)

  -- Steps 3 and 4, and the redirect of step 5
  unfoldable pub consent :
      (device_id : String)
      → Bool
      → (state code_verifier redirect_to : String) → Try (Jar × W) TokenSet
  consent device_id remember_me state code_verifier redirect_to = do
    resp3 ← wrapping (c.flow_client (get_of redirect_to))
    consent_challenge ←
        wrapping (given (extract_raw_param c.parse_url resp3.location "consent_challenge"))
    redirect_to2 ← wrapping (
        beside (
          admin_accept c (consent_path consent_challenge)
            (consent_body consent_audience device_id remember_me)))
    resp5 ← wrapping (c.flow_client (get_of redirect_to2))
    redeem state code_verifier resp5.location

  -- Steps 1 and 2, and what follows them
  unfoldable pub run_flow :
      (kratos_id device_id : String)
      → Bool
      → (state nonce code_verifier : String) → Try (Jar × W) TokenSet
  run_flow kratos_id device_id remember_me state nonce code_verifier = do
    resp1 ← wrapping (c.flow_client (auth_request state nonce (c.challenge code_verifier)))
    login_challenge ←
        wrapping (given (extract_raw_param c.parse_url resp1.location "login_challenge"))
    redirect_to1 ← wrapping (
        beside (
          admin_accept c (login_path login_challenge) (login_body kratos_id device_id remember_me)))
    consent device_id remember_me state code_verifier redirect_to1

  abbrev pub in_new_jar : {A : Type 0} → Try (Jar × W) A → Try W A
  in_new_jar m w = let (r, end_state) = m (c.new_jar, w) in (r, end_state.1)

  -- `IssueTokens`
  unfoldable pub issue_tokens : (kratos_id device_id : String) → Bool → Try W TokenSet
  unfolding run_flow
  issue_tokens kratos_id device_id remember_me = do
    state ← wrapping (c.random_hex 16)
    nonce ← wrapping (c.random_hex 16)
    code_verifier ← wrapping (c.random_base64_url 32)
    in_new_jar (run_flow kratos_id device_id remember_me state nonce code_verifier)
