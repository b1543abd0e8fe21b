-- ===== src/Kratos.antt =====
-- internal/kratos/client.go: `Client` over Kratos' admin and public interfaces. A request that cannot
-- be built fails like one that cannot be sent; the decoders of JSON are fields of the client.
pub mod Port
use Prim.Native.String.{◌++◌}
use central_auth.Common.{
  ℕ, String, Bool, ◌||◌, Option, none, some, List, [], ◌∷◌, ◌==◌, if◌then◌else◌, str_eq,
}
use central_auth.Common.Eff.{Eff, Try, wrapping, ◌>>=◌}
use central_auth.Failure.{
  Failure, Result, ok, err, plain, wrap, sentinel, kratos_email_conflict,
  kratos_invalid_credentials,
}
use central_auth.Account.{IdentityFull}
use central_auth.Http.{
  Method, get, post, delete, Request, Response, Body, empty, json, Json, text, object, end, field,
}
use central_auth.Ports.Types.{Identity}

-- `Client`; `decode_session` reads the field `id` of the answer of `/sessions/whoami`.
pub record Client (W : Type 0) : Type 0 where
  pub admin_url : String
  pub public_url : String
  pub http_client : Request → Try W Response
  pub decode_identity : String → Result Identity
  pub decode_identity_full : String → Result IdentityFull
  pub decode_identities : String → Result (List Identity)
  pub decode_session : String → Result String

abbrev pub bare : Method → (url : String) → Request
bare method url = record { method = method; url = url; query = []; headers = []; body = empty }

abbrev wrapped : {A : Type 0} → Result A → Result A
wrapped (ok a) = ok a
wrapped (err e) = err (wrap e)

unfoldable pub identity_path : String → String
identity_path identity_id = "/admin/identities/" ++ identity_id

-- The query that `GetIdentityByEmail` writes after the question mark, the email as it is
abbrev pub email_query : (email : String) → String
email_query email = ("credentials_identifier" ++ "=") ++ email

abbrev first_of : Result (List Identity) → Result Identity
first_of (err e) = err (wrap e)
first_of (ok []) = err (sentinel kratos_invalid_credentials)
first_of (ok (i ∷ is)) = ok i

abbrev session_id : Result String → Result String
session_id (err e) = err (wrap e)
session_id (ok id) = if str_eq id "" then err plain else ok id

abbrev sent : (Response → Bool) → Result Response → Option Failure
sent accepted (err e) = some (wrap e)
sent accepted (ok r) = if accepted r then none else some plain

abbrev is_deleted : Response → Bool
is_deleted r = (r.status == 404) || ((r.status == 204) || (r.status == 200))

abbrev id_of : Result Identity → Result String
id_of (ok i) = ok i.id
id_of (err e) = err (wrap e)

module _ {W : Type 0} (c : Client W) where
  abbrev body_of : Response → Result String
  body_of r =
      if r.status == 404 then err plain else if r.status == 200 then ok r.body else err plain

  -- `doAdminGet`
  unfoldable pub do_admin_get : (path : String) → Try W String
  do_admin_get path = do
    resp ← wrapping (c.http_client (bare get (c.admin_url ++ path)))
    λ w. (body_of resp, w)

  -- `GetIdentity`
  unfoldable pub get_identity : String → Try W Identity
  unfolding do_admin_get
  get_identity identity_id = do
    body ← do_admin_get (identity_path identity_id)
    λ w. (wrapped (c.decode_identity body), w)

  -- `GetIdentityFull`
  unfoldable pub get_identity_full : String → Try W IdentityFull
  unfolding do_admin_get
  get_identity_full identity_id = do
    body ← do_admin_get (identity_path identity_id)
    λ w. (wrapped (c.decode_identity_full body), w)

  unfoldable pub create_request : (email : String) → Request
  create_request email = record {
    method = post;
    url = c.admin_url ++ "/admin/identities";
    query = [];
    headers = ("Content-Type", "application/json") ∷ [];
    body = json (
        object (
          field "schema_id" (text "person")
            (field "traits" (object (field "email" (text email) end)) end)));
  }

  abbrev created : Response → Result String
  created r =
      if r.status == 409
      then err (sentinel kratos_email_conflict)
      else if r.status == 201
      then id_of (c.decode_identity r.body)
      else err plain

  -- `CreateIdentity`
  unfoldable pub create_identity : (email : String) → Try W String
  create_identity email = do
    resp ← wrapping (c.http_client (create_request email))
    λ w. (created resp, w)

  -- `DeleteSessions`
  unfoldable pub delete_sessions : String → Eff W (Option Failure)
  delete_sessions identity_id w =
      let url = c.admin_url ++ (identity_path identity_id ++ "/sessions") in
      let (r, w') = c.http_client (bare delete url) w in
      (sent (λ resp. (resp.status == 204) || (resp.status == 200)) r, w')

  -- `GetIdentityByEmail`
  unfoldable pub get_identity_by_email : (email : String) → Try W Identity
  get_identity_by_email email = do
    resp ←
        wrapping
          (c.http_client (bare get (c.admin_url ++ ("/admin/identities?" ++ email_query email))))
    λ w. (if resp.status == 200 then first_of (c.decode_identities resp.body) else err plain, w)

  unfoldable pub whoami_request : (session_token : String) → Request
  whoami_request session_token = record {
    method = get;
    url = c.public_url ++ "/sessions/whoami";
    query = [];
    headers = ("X-Session-Token", session_token) ∷ [];
    body = empty;
  }

  abbrev whoami_answer : Response → Result String
  whoami_answer r =
      if r.status == 401
      then err plain
      else if r.status == 200
      then session_id (c.decode_session r.body)
      else err plain

  -- `GetSessionIDByToken`
  unfoldable pub get_session_id_by_token : (session_token : String) → Try W String
  get_session_id_by_token session_token = do
    resp ← wrapping (c.http_client (whoami_request session_token))
    λ w. (whoami_answer resp, w)

  -- `DeleteSession`
  unfoldable pub delete_session : (kratos_session_id : String) → Eff W (Option Failure)
  delete_session kratos_session_id w =
      let url = c.admin_url ++ ("/admin/sessions/" ++ kratos_session_id) in
      let (r, w') = c.http_client (bare delete url) w in (sent is_deleted r, w')
