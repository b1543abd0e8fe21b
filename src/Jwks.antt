-- ===== src/Jwks.antt =====
-- The cache of Hydra's signing keys, of internal/hydra/client.go: `jwksCache`, `resolveKey`,
-- `refreshJWKS` and `ForceRefreshJWKS`. Times are nanoseconds from Go's zero time, which is 0. The
-- answer of the JWKS endpoint and the RSA keys are parameters.
pub mod Rotation
use central_auth.Common.{
  ℕ, ◌+◌, ◌-◌, ◌*◌, String, Bool, true, false, ◌&&◌, not, Option, none, some, List, [], ◌∷◌, ltb,
  if◌then◌else◌, str_eq,
}
use central_auth.Common.Assoc.{Assoc, lookup, insert}
use central_auth.Failure.{Failure, Result, ok, err, plain, wrap}

-- `jwkKey`; the modulus and the exponent are read by `parse` alone.
pub record JwkKey : Type 0 where
  pub kty : String
  pub kid : String
  pub usage : String
  pub n : String
  pub e : String

pub record JwksCache (K : Type 0) : Type 0 where
  pub keys : Assoc K
  pub fetched_at : ℕ
  pub previous_keys : Assoc K
  pub previous_fetched_at : ℕ
  pub ttl : ℕ
  pub grace_period : ℕ

abbrev pub hour : ℕ
hour = 3_600_000_000_000

module _ {K : Type 0} where
  -- `newJWKSCache`
  new : ℕ → JwksCache K
  new grace_period = record {
    keys = [];
    fetched_at = 0;
    previous_keys = [];
    previous_fetched_at = 0;
    ttl = hour;
    grace_period = grace_period;
  }

  abbrev is_empty : Assoc K → Bool
  is_empty [] = true
  is_empty (k ∷ ks) = false

  -- `get`
  unfoldable pub get : ℕ → String → JwksCache K → Option K
  get now kid c = elim (lookup kid c.keys) [
    | some k ↦ some k
    | none ↦
        if not (is_empty c.previous_keys) && ltb (now - c.previous_fetched_at) c.grace_period
        then lookup kid c.previous_keys
        else none
  ]

  -- `set`
  unfoldable pub set : ℕ → Assoc K → JwksCache K → JwksCache K
  set now keys c = record c {
    previous_keys = c.keys;
    previous_fetched_at = c.fetched_at;
    keys = keys;
    fetched_at = now;
  }

  -- `isStale`
  unfoldable pub is_stale : ℕ → JwksCache K → Bool
  is_stale now c = ltb c.ttl (now - c.fetched_at)

  module _ (parse : JwkKey → Option K) where
    -- One round of the loop of `refreshJWKS`: other kinds of keys and keys that do not parse are
    -- passed over.
    unfoldable pub install : Assoc K → JwkKey → Assoc K
    install keys k =
        if str_eq k.kty "RSA" && str_eq k.usage "sig"
        then elim (parse k) [ none ↦ keys | some key ↦ insert k.kid key keys ]
        else keys

    unfoldable pub collect : Assoc K → List JwkKey → Assoc K
    unfolding install
    collect keys [] = keys
    collect keys (k ∷ ks) = collect (install keys k) ks

    -- `refreshJWKS`: the cache after it, and its error. A key set with no usable key is refused.
    unfoldable pub refresh : ℕ → Result (List JwkKey) → JwksCache K → JwksCache K × Option Failure
    refresh now (err e) c = (c, some e)
    refresh now (ok raw) c =
        let keys = collect [] raw in
        if is_empty keys then (c, some plain) else (set now keys c, none)

    -- `ForceRefreshJWKS`
    force_refresh : ℕ → Result (List JwkKey) → JwksCache K → JwksCache K × Option Failure
    force_refresh now fetched c = refresh now fetched c

    abbrev found : Option K → Result K
    found none = err plain
    found (some k) = ok k

    -- The part of `resolveKey` that asks the endpoint; it answers at the time `later`.
    unfoldable pub fetch_key :
        (later : ℕ) → Result (List JwkKey) → String → JwksCache K → JwksCache K × Result K
    fetch_key later fetched kid c =
        let (c', e) = refresh later fetched c in
        elim e [ some f ↦ (c', err f) | none ↦ (c', found (get later kid c')) ]

    abbrev pub cached : ℕ → String → JwksCache K → Option K
    cached now kid c = if is_stale now c then none else get now kid c

    -- `resolveKey`
    unfoldable pub resolve_key :
        (now later : ℕ) → Result (List JwkKey) → String → JwksCache K → JwksCache K × Result K
    unfolding fetch_key
    resolve_key now later fetched kid c = elim (cached now kid c) [
      | some k ↦ (c, ok k)
      | none ↦ fetch_key later fetched kid c
    ]
