-- ===== src/Tests/Clients.antt =====
-- A Hydra and a Kratos that answer from the request alone, and the services over them.
use Prim.Native.String.{◌++◌}
use text.Mathlib.Text.{starts_with}
use text.Mathlib.TextLemmas.{nil-append}
use central_auth.Common.{
  ◌≡◌, eq_iff, refl, ap, ◌∙◌, sym, ℕ, String, Bool, true, false, ◌&&◌, List, Option-cases, inl, inr,
  Option, none, some, [], ◌∷◌, arith, ◌==◌, str_eq, if◌then◌else◌,
}
use central_auth.Common.Assoc.{lookup}
use central_auth.Common.Eff.{Eff}
use central_auth.Failure.{Failure, Result, ok, err, plain}
use central_auth.Jwks.{JwksCache, get, hour, is_stale}
use central_auth.Auth.{AuthService, unix, VerifyResult, verify_token, verify_claims, google_login}
use central_auth.Ports.{HydraClient, KratosClient}
use central_auth.Ports.Types.{AccessTokenClaims, TokenSet, Claim, device_id, ext_string}
use central_auth.Http.{Response}
use central_auth.Http.Query.{
  raw_param, split, ampersand, find_raw, has_ampersand, is_plain, read_parts,
}
use central_auth.UaParser.{after}
use central_auth.UaParser.Version.{after_word}
use central_auth.Hydra.{Client}
use central_auth.Hydra.Flow.{issue_tokens, text_or_empty}
use central_auth.Hydra.Validate.{
  Store, Validator, Header, ParserOptions, JwtLaws, Unexpired, resolve, key_of,
  validate_access_token,
}
use central_auth.Redis.{has}
use mathlib.Core.Path.{subst}
use central_auth.Hydra.Port as Hydra
use central_auth.Kratos as Kratos
use central_auth.Kratos.Port as KratosPort

abbrev answer : (status : ℕ) → (location body : String) → Response
answer status location body = record { status = status; location = location; body = body }

abbrev tokens : TokenSet
tokens = record {
  access_token = "at";
  refresh_token = "rt";
  id_token = "";
  token_type = "bearer";
  expires_in = 900;
}

abbrev param_of : (raw param : String) → String
param_of raw param = text_or_empty (raw_param param raw)

abbrev World : Type 0
World = Unit {0}

-- The redirects of the flow are the texts "r1" and "r2"; a location is its query.
abbrev hydra : Client World World
hydra = record {
  public_url = "public";
  admin_url = "admin";
  client_id = "id";
  client_secret = "secret";
  redirect_uri = "cb";
  expected_issuer = "https://hydra/";
  expected_audience = "api";
  http_client = λ r w. (
    ok (
        if starts_with r.url "admin/admin/oauth2/auth/requests/login"
        then answer 200 "" "r1"
        else if starts_with r.url "admin/admin/oauth2/auth/requests/consent"
        then answer 200 "" "r2"
        else answer 200 "" "tokens"),
    w,
  );
  flow_client = λ r w. (
    ok (
        if str_eq r.url "r1"
        then answer 302 "consent_challenge=cc" ""
        else if str_eq r.url "r2"
        then answer 302 "code=c&state=s" ""
        else answer 302 "login_challenge=lc" ""),
    w,
  );
  new_jar = tt;
  random_hex = λ n w. (ok "s", w);
  random_base64_url = λ n w. (ok "v", w);
  challenge = λ v. "c" ++ v;
  parse_url = λ u. ok u;
  query_get = param_of;
  decode_redirect = λ b. ok b;
  decode_tokens = λ b. if str_eq b "tokens" then ok tokens else err plain;
  decode_introspect = λ b. err plain;
}

abbrev claims : AccessTokenClaims
claims = record {
  subject = "kim";
  ext = ("device_id", Claim.text "phone") ∷ [];
  client_id = "id";
  id = "jti";
  expires_at = some 2_000_000_000;
}

-- Each token names the key "k"; the token "signed" is signed with the key 7.
abbrev header : String → Header
header token = record { is_rsa = true; kid = "k" }

abbrev IsSigned : ℕ → String → Type 0
IsSigned k token = ((k == 7) ≡ true) × (str_eq token "signed" ≡ true)

abbrev issuer_of : String → String
issuer_of token = if str_eq token "signed" then "https://hydra/" else ""

abbrev audiences_of : String → List String
audiences_of token = "web" ∷ "api" ∷ []

abbrev is_issuer : Option String → String → Bool
is_issuer none token = true
is_issuer (some i) token = str_eq (issuer_of token) i

abbrev is_audience : Option String → String → Bool
is_audience none token = true
is_audience (some a) token = has a (audiences_of token)

abbrev is_valid : ParserOptions → String → ℕ → Bool
is_valid o token k =
    (k == 7) && str_eq token "signed" && is_issuer o.issuer token && is_audience o.audience token

abbrev checked : ParserOptions → String → Result ℕ → Result (AccessTokenClaims × Bool)
checked o token (err e) = err e
checked o token (ok k) = if is_valid o token k then ok (claims, true) else err plain

-- The time is a second before the expiry.
abbrev validator : Validator ℕ World
validator = record {
  now = λ w. 5;
  unix_now = λ w. 1_000_000_000;
  decode_jwks = λ b. err plain;
  parse_key = λ k. none;
  parse_with_claims = λ o token f s. let (r, s') = f (header token) s in (checked o token r, s');
}

checked-ok :
    (o : ParserOptions) (token : String) (r : Result ℕ) (c : AccessTokenClaims)
    → checked o token r ≡ ok (c, true)
    → (k : ℕ) × (r ≡ ok k) × (is_valid o token k ≡ true) × (claims ≡ c)
checked-ok o token (err e) c h = ground (arith, h)
checked-ok o token (ok k) c h = (k, refl, ground (arith, h), ground (arith, h))

jwt_laws : JwtLaws validator header IsSigned issuer_of audiences_of
jwt_laws = record {
  valid = λ o token f s s' c h.
      let (k, given, valid, same) = checked-ok o token (f (header token) s).0 c (ap (λ p. p.0) h) in
      (
        k,
        (λ i. (given i, ap (λ p. p.1) h i)),
        (ground (arith, valid), ground (arith, valid)),
        (λ required.
            subst (λ d. Unexpired d 1_000_000_000) same (2_000_000_000, refl, omega arith)),
        (λ i set. ground (arith, valid, set, eq_iff (issuer_of token) i)),
        (λ a set. ground (arith, valid, set)),
      );
}

abbrev keys : JwksCache ℕ
keys = record {
  keys = ("k", 7) ∷ [];
  fetched_at = 0;
  previous_keys = [];
  previous_fetched_at = 0;
  ttl = hour;
  grace_period = hour;
}

abbrev nothing : {W : Type 0} → Eff W (Option Failure)
nothing w = (none, w)

-- A service whose other calls do nothing.
abbrev service : {W : Type 0} → HydraClient W → Option (KratosClient W) → AuthService W
service hydra kratos = record {
  hydra = hydra;
  redis_repo = record {
    save_login = λ k d t ttl. nothing;
    get_device_refresh_token = λ k d w. (err plain, w);
    rotate_refresh_token = λ k d t ttl. nothing;
    logout_device = λ k d. nothing;
    logout_all = λ k. nothing;
  };
  device_session_repo = record {
    save_device_session = λ d. nothing;
    update_last_used_at = λ k d. nothing;
    revoke_device = λ k d. nothing;
    revoke_all_devices = λ k. nothing;
    get_device_sessions = λ k w. (ok [], w);
    count_active_devices = λ k w. (ok 0, w);
  };
  kratos_client = kratos;
  blacklist = none;
  publisher = record {
    publish_auth_session = λ e w. (tt, w);
    publish_blacklist_sync = λ e w. (tt, w);
  };
  runtime = record { now = λ w. 1000; random_session_id = λ w. (ok "id", w); wait = λ d. nothing };
}

abbrev verified : VerifyResult
verified = record { kratos_id = "kim"; device_id = "phone"; expires_at = 2 }

abbrev over_hydra : AuthService (Store ℕ World)
over_hydra = service (Hydra.client hydra validator) none

verify_token-Signed_example :
    (c : AccessTokenClaims) × ((validate_access_token hydra validator "signed" (keys, tt)).0 ≡ ok c)
    × ("kim" ≡ c.subject)
    × ("phone" ≡ device_id c.ext)
    × (2 ≡ unix c.expires_at)
    × ((header "signed").is_rsa ≡ true)
    × (let held = (validate_access_token hydra validator "signed" (keys, tt)).1 in
        ((k : ℕ) × (get (validator.now held.1) (header "signed").kid held.0 ≡ some k)
          × IsSigned k "signed")
        × Unexpired c (validator.unix_now held.1)
        × (str_eq hydra.expected_issuer "" ≡ false → issuer_of "signed" ≡ hydra.expected_issuer)
        × (str_eq hydra.expected_audience "" ≡ false
            → has hydra.expected_audience (audiences_of "signed") ≡ true))
unfolding Hydra.client verify_token validate_access_token key_of resolve get lookup device_id
    is_stale ext_string verify_claims
verify_token-Signed_example =
    Hydra.verify_token-Signed hydra validator header IsSigned issuer_of audiences_of jwt_laws
      over_hydra refl "signed" (keys, tt) verified refl

-- Kratos answers with one identity, whose id is the identifier that it was asked for.
abbrev identifier_of : Option String → String
identifier_of none = ""
identifier_of (some q) = param_of q "credentials_identifier"

abbrev kratos : Kratos.Client World
kratos = record {
  admin_url = "";
  public_url = "";
  http_client = λ r w. (ok (answer 200 "" (identifier_of (after "/admin/identities?" r.url))), w);
  decode_identity = λ b. err plain;
  decode_identity_full = λ b. err plain;
  decode_identities = λ b. ok (record { id = b } ∷ []);
  decode_session = λ b. err plain;
}

abbrev reads : String → Bool
reads p = elim (after "credentials_identifier=" p) [ none ↦ false | some v ↦ true ]

find_raw-read_parts :
    (ps : List String)
    → find_raw "credentials_identifier=" ps
      ≡ find_raw "credentials_identifier=" (read_parts reads ps)
unfolding find_raw read_parts
find_raw-read_parts [] = refl
find_raw-read_parts (p ∷ ps) = elim (Option-cases (after "credentials_identifier=" p)) [
  | inl unread ↦ rw (unread, find_raw) (find_raw-read_parts ps)
  | inr (v, found) ↦ rw (found, find_raw) (rw (found, find_raw) refl)
]

query_read :
    (q : String)
    → identifier_of (after "/admin/identities?" ("" ++ ("/admin/identities?" ++ q)))
      ≡ text_or_empty (find_raw "credentials_identifier=" (read_parts reads (split ampersand q)))
query_read q =
    ap (λ u. identifier_of (after "/admin/identities?" u)) (nil-append ("/admin/identities?" ++ q))
    ∙ ap identifier_of (after_word "/admin/identities?" q)
    ∙ ap text_or_empty (find_raw-read_parts (split ampersand q))

answers : KratosPort.AnswersByParameters kratos reads
answers = record {
  answered_alike = λ q q' plain_q plain_q' same w.
      let found =
        query_read q
        ∙ ap (λ ps. text_or_empty (find_raw "credentials_identifier=" ps)) same
        ∙ sym (query_read q') in
      ap (λ t. (ok (answer 200 "" t), w)) found;
}

abbrev some_hydra : HydraClient World
some_hydra = record {
  issue_tokens = λ k d r w. (ok tokens, w);
  refresh_token = λ t w. (ok tokens, w);
  revoke_token = λ t. nothing;
  revoke_all_for_subject = λ k. nothing;
  introspect_token = λ t w. (err plain, w);
  validate_access_token = λ t w. (ok claims, w);
}

abbrev over_kratos : AuthService World
over_kratos = service some_hydra (some (KratosPort.client kratos))

google_login-cut_example :
    google_login over_kratos "kim@x.org&lee@x.org" "phone" true none none tt
    ≡ google_login over_kratos "kim@x.org" "phone" true none none tt
unfolding has_ampersand is_plain read_parts split after
google_login-cut_example =
    KratosPort.google_login-cut kratos reads answers "kim@x.org" "lee@x.org" refl refl refl refl
      over_kratos refl "phone" true none none tt
