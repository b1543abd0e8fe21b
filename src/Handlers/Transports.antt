-- ===== src/Handlers/Transports.antt =====
-- What the same access token is answered over HTTP and over gRPC.
use central_auth.Common.{ℕ, ◌≡◌, ◌↔◌, String, true, false, none, some, arith, str_eq}
use central_auth.Failure.{ok, is}
use central_auth.Auth.{
  AuthService, VerifyResult, verify_token, device_key, verify_claims, check_revoked, check_keys,
}
use central_auth.Ports.{Blacklist}
use central_auth.Ports.Types.{AccessTokenClaims, device_id}
use central_auth.Grpc.{response, failed, internal}
use central_auth.Grpc.Server.{domain_to_grpc_status}
use central_auth.Grpc.Server as Server
use central_auth.Handlers.{success, failure}
use central_auth.Handlers.Auth.{bearer_token}
use central_auth.Handlers.Auth as Http

module _ {W : Type 0} (s : AuthService W) (h token : String) (w : W) where
  -- A token that is not empty, sent as a bearer token, is accepted over HTTP exactly if it is
  -- accepted over gRPC, with the same claims, and leaves the same behind; refused, it is answered
  -- 401 over HTTP whatever the error.
  pub verify_agrees :
      bearer_token h ≡ some token
      → str_eq token "" ≡ false
      → ((r : VerifyResult)
          → ((Http.verify s h w).0 ≡ success 200 r) ↔ ((Server.verify s token w).0 ≡ response r))
        × ((code : ℕ)
            → (Server.verify s token w).0 ≡ failed code
            → (Http.verify s h w).0 ≡ failure 401)
        × ((Http.verify s h w).1 ≡ (Server.verify s token w).1)
  unfolding Http.verify Server.verify
  verify_agrees bearer nonempty = ground (arith, bearer, nonempty)

  -- A token with valid claims whose device the blacklist lists is answered 401 over HTTP; over
  -- gRPC it is answered with the code of an internal error, since no case of `domainToGRPCStatus`
  -- names a revoked token.
  pub revoked-Internal :
      (b : Blacklist W) (claims : AccessTokenClaims) (w₁ : W)
      → bearer_token h ≡ some token
      → str_eq token "" ≡ false
      → s.blacklist ≡ some b
      → s.hydra.validate_access_token token w ≡ (ok claims, w₁)
      → str_eq claims.subject "" ≡ false
      → str_eq (device_id claims.ext) "" ≡ false
      → (b.is_blacklisted (device_key claims.subject (device_id claims.ext)) w₁).0 ≡ (true, none)
      → ((Http.verify s h w).0 ≡ failure 401) × ((Server.verify s token w).0 ≡ failed internal)
  unfolding Http.verify Server.verify verify_token verify_claims check_revoked check_keys
      domain_to_grpc_status is
  revoked-Internal b claims w₁ bearer nonempty set valid subject device listed =
      ground (arith, bearer, nonempty, set, valid, subject, device, listed)
