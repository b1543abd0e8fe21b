-- ===== src/Hydra/Port.antt =====
-- `Client` of internal/hydra/client.go as an implementation of `ClientI`, the interface that the
-- services take.
use central_auth.Common.{◌≡◌, ◌∙◌, List, str_eq, false, String, true, some, arith, inl, inr, ap}
use central_auth.Common.Eff.{Eff}
use central_auth.Failure.{ok, err, Result-cases}
use central_auth.Jwks.{get}
use central_auth.Auth.{AuthService, VerifyResult, verify_token, unix}
use central_auth.Auth.Verify.{verify_token-claims}
use central_auth.Redis.{has}
use central_auth.Ports.{HydraClient}
use central_auth.Ports.Types.{AccessTokenClaims, device_id}
use central_auth.Hydra.{
  Client, refresh_token, revoke_token, revoke_all_for_subject, introspect_token,
}
use central_auth.Hydra.Flow.{issue_tokens}
use central_auth.Hydra.Validate.{
  Store, Validator, Header, JwtLaws, Unexpired, validate_access_token, validate-Signed,
}

-- A call that leaves the key cache alone
abbrev pub outside : {K W A : Type 0} → Eff W A → Eff (Store K W) A
outside m (cache, w) = let (a, w') = m w in (a, (cache, w'))

module _ {K W Jar : Type 0} (c : Client W Jar) (v : Validator K W) where
  unfoldable pub client : HydraClient (Store K W)
  client = record {
    issue_tokens =
        λ kratos_id device_id remember_me. outside (issue_tokens c kratos_id device_id remember_me);
    refresh_token = λ token. outside (refresh_token c token);
    revoke_token = λ token. outside (revoke_token c token);
    revoke_all_for_subject = λ kratos_id. outside (revoke_all_for_subject c kratos_id);
    introspect_token = λ token. outside (introspect_token c token);
    validate_access_token = validate_access_token c v;
  }

  module _ (header_of : String → Header) (IsSigned : K → String → Type 0)
      (issuer_of : String → String) (audiences_of : String → List String)
      (laws : JwtLaws v header_of IsSigned issuer_of audiences_of) (s : AuthService (Store K W))
      (wired : s.hydra ≡ client) where
    -- With Hydra's client behind the service, `VerifyToken` accepts only a token whose method is of
    -- type RSA, whose signature is right under a key that the key cache holds for its key id once
    -- the token is validated, that has a time of expiry in the future, and whose issuer and audience
    -- are the expected ones, where they are configured; the user, the device and the time of expiry
    -- that it returns are those of the validated claims.
    pub verify_token-Signed :
        (token : String) (w : Store K W) (result : VerifyResult)
        → (verify_token s token w).0 ≡ ok result
        → (claims : AccessTokenClaims) × ((validate_access_token c v token w).0 ≡ ok claims)
          × (result.kratos_id ≡ claims.subject)
          × (result.device_id ≡ device_id claims.ext)
          × (result.expires_at ≡ unix claims.expires_at)
          × ((header_of token).is_rsa ≡ true)
          × (let held = (validate_access_token c v token w).1 in
              ((k : K) × (get (v.now held.1) (header_of token).kid held.0 ≡ some k)
                × IsSigned k token)
              × Unexpired claims (v.unix_now held.1)
              × (str_eq c.expected_issuer "" ≡ false → issuer_of token ≡ c.expected_issuer)
              × (str_eq c.expected_audience "" ≡ false
                  → has c.expected_audience (audiences_of token) ≡ true))
    unfolding client verify_token
    verify_token-Signed token w result accepted =
        let (r, w₁) = validate_access_token c v token w in
        let same = ap (λ (h : HydraClient (Store K W)). h.validate_access_token token w) wired in
        elim (Result-cases r) [
          | inl (claims, valid) ↦
              let (rsa, key, unexpired, issued, meant) =
                validate-Signed c v header_of IsSigned issuer_of audiences_of laws token w w₁ claims
                  (λ i. (valid i, w₁)) in
              let returned =
                verify_token-claims s token w w₁ claims (same ∙ (λ i. (valid i, w₁))) result
                  accepted in
              (
                claims,
                valid,
                ap (λ (q : VerifyResult). q.kratos_id) returned,
                ap (λ (q : VerifyResult). q.device_id) returned,
                ap (λ (q : VerifyResult). q.expires_at) returned,
                rsa,
                (key, unexpired, issued, meant),
              )
          | inr (e, refused) ↦
              let stopped : err e ≡ ok result = rw refused at (rw same at accepted) in
              ground (arith, stopped)
        ]
