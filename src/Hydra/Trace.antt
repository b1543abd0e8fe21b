-- ===== src/Hydra/Trace.antt =====
-- What a run of the authorization code flow has sent to Hydra, with PKCE and the state.
pub mod Whole
use central_auth.Common.{
  ◌≡◌, refl, sym, ap, ◌∙◌, String, Bool, true, false, List, [], ◌∷◌, ◌++◌, arith, eq_iff,
  Bool-cases, inl, inr, str_eq,
}
use Prim.Native.String as Text
use mathlib.Core.List.{append_assoc}
use mathlib.Core.Path.{subst}
use central_auth.Common.Eff.{Try, wrapping, continue, wrapped_result}
use central_auth.Failure.{Failure, Result, ok, err, plain, wrap, Result-cases}
use central_auth.Http.{Request, Response, Json}
use central_auth.Ports.Types.{TokenSet}
use central_auth.Hydra.{
  Client, get_of, extract_raw_param, extract_param, exchange_code, admin_accept, accept_request,
  token_form, exchange_form, token_request, decoded,
}
use central_auth.Hydra.Flow.{
  beside, given, auth_request, login_body, login_path, consent_audience, consent_body, consent_path,
  check_state, redeem, consent, run_flow, issue_tokens, text_or_empty, in_new_jar,
}

pub failed : {A B : Type 0} (f : Failure) (a : A) → err (wrap f) ≡ ok a → B
failed f a h = ground arith

abbrev pub location_of : Result Response → Text.String
location_of (ok r) = r.location
location_of (err e) = ""

module _ {W Jar : Type 0} (c : Client W Jar) where
  -- The client whose world also keeps what it sends.
  abbrev pub recording : Client (List Request × W) Jar
  recording = record {
    public_url = c.public_url;
    admin_url = c.admin_url;
    client_id = c.client_id;
    client_secret = c.client_secret;
    redirect_uri = c.redirect_uri;
    expected_issuer = c.expected_issuer;
    expected_audience = c.expected_audience;
    http_client =
        λ request v. let (r, w) = c.http_client request v.1 in (r, (v.0 ++ (request ∷ []), w));
    flow_client = λ request v.
        let (r, w) = c.flow_client request (v.0, v.1.1) in
        (r, (w.0, (v.1.0 ++ (request ∷ []), w.1)));
    new_jar = c.new_jar;
    random_hex = λ n v. let (r, w) = c.random_hex n v.1 in (r, (v.0, w));
    random_base64_url = λ n v. let (r, w) = c.random_base64_url n v.1 in (r, (v.0, w));
    challenge = c.challenge;
    parse_url = c.parse_url;
    query_get = c.query_get;
    decode_redirect = c.decode_redirect;
    decode_tokens = c.decode_tokens;
    decode_introspect = c.decode_introspect;
  }

  pub admin_accept-sent :
      (path : Text.String) (body : Json) (v : List Request × W)
      → (admin_accept recording path body v).1.0
        ≡ v.0 ++ (accept_request (Text.◌++◌ c.admin_url path) body ∷ [])
  unfolding admin_accept accept_request
  admin_accept-sent path body v = ground arith

  -- The request of step 6
  abbrev pub exchange_request : (code code_verifier : Text.String) → Request
  exchange_request code code_verifier =
      token_form (Text.◌++◌ c.public_url "/oauth2/token") (exchange_form c code code_verifier)

  exchange_code-sent :
      (code code_verifier : Text.String) (v : List Request × W)
      → (exchange_code recording code code_verifier v).1.0
        ≡ v.0 ++ (exchange_request code code_verifier ∷ [])
  unfolding exchange_code token_request token_form exchange_form
  exchange_code-sent code code_verifier v = ground arith

  -- Steps 4 to 6 after `before`: the consent, its redirect, and the exchange of the code for which
  -- the redirect brought back the state.
  pub record Redeemed (before : List Request) (d : Text.String) (r : Bool)
      (state code_verifier : Text.String) (trace : List Request) : Type 0 where
    pub consent_challenge : Text.String
    pub redirect_to : Text.String
    pub answered : Jar × W
    pub code : Text.String
    pub sent :
        trace
        ≡ before
          ++ (accept_request
                (Text.◌++◌ c.admin_url (consent_path consent_challenge))
                (consent_body (consent_audience c) d r)
              ∷ get_of redirect_to
              ∷ exchange_request code code_verifier
              ∷ [])
    pub code_in_answer :
        extract_param c.parse_url c.query_get
          (location_of (c.flow_client (get_of redirect_to) answered).0)
          "code"
        ≡ ok code
    pub state_in_answer :
        text_or_empty (
          extract_param c.parse_url c.query_get
            (location_of (c.flow_client (get_of redirect_to) answered).0)
            "state")
        ≡ state

  redeem-ok :
      (state code_verifier location : Text.String) (jar : Jar) (v : List Request × W)
      → (ts : TokenSet) → (redeem recording state code_verifier location (jar, v)).0 ≡ ok ts
      → (code : Text.String) × ((redeem recording state code_verifier location (jar, v)).1.1.0
          ≡ v.0 ++ (exchange_request code code_verifier ∷ []))
        × (extract_param c.parse_url c.query_get location "code" ≡ ok code)
        × (text_or_empty (extract_param c.parse_url c.query_get location "state") ≡ state)
  unfolding redeem check_state
  redeem-ok state code_verifier location jar v ts h =
      let returned = text_or_empty (extract_param c.parse_url c.query_get location "state") in
      elim (Result-cases (extract_param c.parse_url c.query_get location "code")) [
        | inl (code, e) ↦ elim (Bool-cases (str_eq returned state)) [
          | inl same ↦ (
            code,
            rw e (rw same (exchange_code-sent code code_verifier v)),
            e,
            (eq_iff returned state).0 same,
          )
          | inr other ↦
              let stopped : err plain ≡ ok ts = rw other at (rw e at h) in ground (arith, stopped)
        ]
        | inr (f, e) ↦ failed f ts (rw e at h)
      ]

  pub consent-ok :
      (d : Text.String) (r : Bool) (state code_verifier redirect_to : Text.String)
      → (jar : Jar) (v : List Request × W) (ts : TokenSet)
      → (consent recording d r state code_verifier redirect_to (jar, v)).0 ≡ ok ts
      → Redeemed
          (v.0 ++ (get_of redirect_to ∷ []))
          d
          r
          state
          code_verifier
          (consent recording d r state code_verifier redirect_to (jar, v)).1.1.0
  unfolding consent
  consent-ok d r state code_verifier redirect_to jar v ts h =
      let (t, w) = v in
      let (answer3, (jar3, w3)) = c.flow_client (get_of redirect_to) (jar, w) in
      let sent3 = t ++ (get_of redirect_to ∷ []) in
      elim (Result-cases answer3) [
        | inl (resp3, e3) ↦
            elim (Result-cases (extract_raw_param c.parse_url resp3.location "consent_challenge")) [
              | inl (cc, e4) ↦
                  let path = consent_path cc in
                  let body = consent_body (consent_audience c) d r in
                  let (accepted, v4) = admin_accept recording path body (sent3, w3) in
                  elim (Result-cases accepted) [
                    | inl (redirect_to2, e5) ↦
                        let (answer5, (jar5, w5)) =
                          c.flow_client (get_of redirect_to2) (jar3, v4.1) in
                        elim (Result-cases answer5) [
                          | inl (resp5, e6) ↦
                              let before = v4.0 ++ (get_of redirect_to2 ∷ []) in
                              let (code, sent6, e7, same) =
                                redeem-ok state code_verifier resp5.location jar5 (before, w5) ts
                                  (rw e6 at (rw e5 at (rw e4 at (rw e3 at h)))) in
                              record {
                                consent_challenge = cc;
                                redirect_to = redirect_to2;
                                answered = (jar3, v4.1);
                                code = code;
                                sent = rw e3 (
                                    rw e4 (
                                      rw e5 (
                                        rw e6 (
                                          sent6
                                          ∙ simp (
                                            admin_accept-sent path body (sent3, w3),
                                            append_assoc,
                                          )))));
                                code_in_answer = rw e6 e7;
                                state_in_answer = rw e6 same;
                              }
                          | inr (f, e6) ↦ failed f ts (rw e6 at (rw e5 at (rw e4 at (rw e3 at h))))
                        ]
                    | inr (f, e5) ↦ failed f ts (rw e5 at (rw e4 at (rw e3 at h)))
                  ]
              | inr (f, e4) ↦ failed f ts (rw e4 at (rw e3 at h))
            ]
        | inr (f, e3) ↦ failed f ts (rw e3 at h)
      ]
