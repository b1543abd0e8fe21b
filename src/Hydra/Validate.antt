-- ===== src/Hydra/Validate.antt =====
-- `ValidateAccessToken` of internal/hydra/client.go over the key cache. The JWT library is a
-- parameter: `parse_with_claims` is its function of that name, which asks for a key by the header of
-- the token.
use Prim.Native.String.{◌++◌}
use central_auth.Common.{
  ◌≡◌, refl, ap, false, ◌<◌, ℕ, String, Bool, true, Option, none, some, List, arith, if◌then◌else◌,
  str_eq, Option-cases, Bool-cases, inl, inr,
}
use central_auth.Common.Eff.{Eff, Try}
use central_auth.Failure.{Failure, Result, ok, err, plain, wrap}
use central_auth.Jwks.{JwkKey, JwksCache, cached, get, resolve_key, refresh, fetch_key}
use central_auth.Ports.Types.{AccessTokenClaims}
use central_auth.Redis.{has}
use central_auth.Hydra.{Client, get_of, decoded}

-- What the key function reads of a header: whether the method is of type RSA, and `kid`, empty where
-- it is no string.
pub record Header : Type 0 where
  pub is_rsa : Bool
  pub kid : String

pub record ParserOptions : Type 0 where
  pub expiration_required : Bool
  pub issuer : Option String
  pub audience : Option String

-- The world of the client: its key cache, and what lies outside
abbrev pub Store : Type 0 → Type 0 → Type 0
Store K W = JwksCache K × W

pub record Validator (K W : Type 0) : Type 0 where
  pub now : W → ℕ
  pub unix_now : W → ℕ  -- the same instant, in nanoseconds of Unix time
  pub decode_jwks : String → Result (List JwkKey)
  pub parse_key : JwkKey → Option K
  pub parse_with_claims :
      ParserOptions
      → String
      → (Header → Try (Store K W) K)
      → Try (Store K W) (AccessTokenClaims × Bool)

abbrev unless_empty : String → Option String
unless_empty s = if str_eq s "" then none else some s

module _ {K W Jar : Type 0} (c : Client W Jar) (v : Validator K W) where
  -- The request of `refreshJWKS`, and its answer decoded
  unfoldable pub fetch_jwks : Eff W (Result (List JwkKey))
  fetch_jwks w =
      let (r, w') = c.http_client (get_of (c.public_url ++ "/.well-known/jwks.json")) w in
      (elim r [ ok resp ↦ decoded c v.decode_jwks resp | err e ↦ err (wrap e) ], w')

  -- `resolveKey`; the endpoint is asked only if the cache has no key.
  unfoldable pub resolve : String → Try (Store K W) K
  resolve kid (cache, w) = elim (cached v.parse_key (v.now w) kid cache) [
    | some k ↦ (ok k, (cache, w))
    | none ↦
        let (fetched, w') = fetch_jwks w in
        let (cache', r) = resolve_key v.parse_key (v.now w) (v.now w') fetched kid cache in
        (r, (cache', w'))
  ]

  -- `ForceRefreshJWKS`
  unfoldable pub force_refresh_jwks : Eff (Store K W) (Option Failure)
  force_refresh_jwks (cache, w) =
      let (fetched, w') = fetch_jwks w in
      let (cache', e) = refresh v.parse_key (v.now w') fetched cache in (e, (cache', w'))

  -- The function that `ParseWithClaims` is given
  unfoldable pub key_of : Header → Try (Store K W) K
  unfolding resolve
  key_of h s = if h.is_rsa then resolve h.kid s else (err plain, s)

  abbrev pub options : ParserOptions
  options = record {
    expiration_required = true;
    issuer = unless_empty c.expected_issuer;
    audience = unless_empty c.expected_audience;
  }

  abbrev checked : Result (AccessTokenClaims × Bool) → Result AccessTokenClaims
  checked (err e) = err (wrap e)
  checked (ok (claims, valid)) = if valid then ok claims else err plain

  -- `ValidateAccessToken`
  unfoldable pub validate_access_token : String → Try (Store K W) AccessTokenClaims
  unfolding key_of
  validate_access_token token s =
      let (r, s') = v.parse_with_claims options token key_of s in (checked r, s')

-- The time of expiry that a token must have, in its future
abbrev pub Unexpired : AccessTokenClaims → ℕ → Type 0
Unexpired claims now = (t : ℕ) × (claims.expires_at ≡ some t) × (now < t)

-- What the JWT library documents of `ParseWithClaims`: a token that it declares valid was checked with
-- a key that the key function gave for its header, its signature is right under that key, and it is
-- held to each option that is set: it has an `exp` and has not expired, its `iss` is the issuer, and
-- its `aud` holds the audience.
pub record JwtLaws {K W : Type 0} (v : Validator K W) (header_of : String → Header)
    (IsSigned : K → String → Type 0) (issuer_of : String → String)
    (audiences_of : String → List String) : Type 0 where
  pub valid :
      (o : ParserOptions) (token : String) (f : Header → Try (Store K W) K) (s s' : Store K W)
      → (claims : AccessTokenClaims) → v.parse_with_claims o token f s ≡ (ok (claims, true), s')
      → (k : K) × (f (header_of token) s ≡ (ok k, s'))
        × IsSigned k token
        × (o.expiration_required ≡ true → Unexpired claims (v.unix_now s'.1))
        × ((i : String) → o.issuer ≡ some i → issuer_of token ≡ i)
        × ((a : String) → o.audience ≡ some a → has a (audiences_of token) ≡ true)

module _ {K W Jar : Type 0} (c : Client W Jar) (v : Validator K W) (header_of : String → Header)
    (IsSigned : K → String → Type 0) (issuer_of : String → String)
    (audiences_of : String → List String)
    (laws : JwtLaws v header_of IsSigned issuer_of audiences_of) where
  -- The key of a lookup is one that the cache holds afterwards.
  resolve-get :
      (kid : String) (s s' : Store K W) (k : K)
      → resolve c v kid s ≡ (ok k, s')
      → get (v.now s'.1) kid s'.0 ≡ some k
  unfolding resolve resolve_key fetch_key
  resolve-get kid s s' k h = elim (Option-cases (cached v.parse_key (v.now s.1) kid s.0)) [
    | inl miss ↦ ground (arith, h, miss)
    | inr (j, hit) ↦ ground (arith, h, hit)
  ]

  key_of-get :
      (h : Header) (s s' : Store K W) (k : K)
      → key_of c v h s ≡ (ok k, s')
      → (h.is_rsa ≡ true) × (get (v.now s'.1) h.kid s'.0 ≡ some k)
  unfolding key_of
  key_of-get h s s' k given = elim (Bool-cases h.is_rsa) [
    | inl rsa ↦ (rsa, resolve-get h.kid s s' k (rw rsa at given))
    | inr no_rsa ↦ ground (arith, given, no_rsa)
  ]

  checked-ok :
      (r : Result (AccessTokenClaims × Bool)) (claims : AccessTokenClaims)
      → checked c v r ≡ ok claims
      → r ≡ ok (claims, true)
  checked-ok (err e) claims h = ground arith
  checked-ok (ok (a, valid)) claims h = ground (arith, h)

  -- A token is accepted only if its method is of type RSA, its signature is right under a key that
  -- the cache holds for its key id when the call returns, its time of expiry is in the future, its
  -- issuer is the expected one where one is configured, and so its audience.
  pub validate-Signed :
      (token : String) (s s' : Store K W) (claims : AccessTokenClaims)
      → validate_access_token c v token s ≡ (ok claims, s')
      → ((header_of token).is_rsa ≡ true)
        × ((k : K) × (get (v.now s'.1) (header_of token).kid s'.0 ≡ some k) × IsSigned k token)
        × Unexpired claims (v.unix_now s'.1)
        × (str_eq c.expected_issuer "" ≡ false → issuer_of token ≡ c.expected_issuer)
        × (str_eq c.expected_audience "" ≡ false
            → has c.expected_audience (audiences_of token) ≡ true)
  unfolding validate_access_token
  validate-Signed token s s' claims h =
      let (k, keyed, signed, unexpired, issued, meant) =
        laws.valid (options c v) token (key_of c v) s s' claims
          (λ i. (checked-ok _ claims (ap (λ p. p.0) h) i, ap (λ p. p.1) h i)) in
      let (rsa, held) = key_of-get (header_of token) s s' k keyed in
      (
        rsa,
        (k, held, signed),
        unexpired refl,
        (λ set. issued c.expected_issuer (ground (arith, set))),
        (λ set. meant c.expected_audience (ground (arith, set))),
      )
