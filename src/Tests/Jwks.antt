-- ===== src/Tests/Jwks.antt =====
-- A rotation of the signing keys; a key is its modulus.
use central_auth.Common.{ℕ, String, Option, some, [], ◌∷◌}
use central_auth.Jwks.{JwkKey, JwksCache, hour}

abbrev parse : JwkKey → Option String
parse k = some k.n

abbrev rsa : String → String → JwkKey
rsa kid n = record { kty = "RSA"; kid = kid; usage = "sig"; n = n; e = "AQAB" }

abbrev half_hour : ℕ
half_hour = 1_800_000_000_000

-- Fetched at the first hour, with a grace period of half an hour.
abbrev cache : JwksCache String
cache = record {
  keys = ("k1", "n1") ∷ [];
  fetched_at = hour;
  previous_keys = [];
  previous_fetched_at = 0;
  ttl = hour;
  grace_period = half_hour;
}
