-- ===== src/Grpc/Idempotency/Repeat.antt =====
-- What a repeated call with the same key does.
use central_auth.Common.{ℕ, ◌≡◌, String, some}
use central_auth.Common.Eff.{Eff}
use central_auth.Failure.{ok}
use central_auth.Grpc.Idempotency.{IdempotencyCache, CodeCodec, ikey, idempotency_ttl}

module _ {W : Type 0} (rdb : IdempotencyCache W) (json : CodeCodec) (method key : String) where
  -- What the write of the cache promises, and the codec
  pub record CacheKeeps : Type 0 where
    pub get-set :
        (v : String) (w : W)
        → (rdb.get (ikey method key) (rdb.set (ikey method key) v idempotency_ttl w).1).0 ≡ ok v
    pub decode-encode :
        (code : ℕ) → (b : String) × (json.encode code ≡ some b) × (json.decode b ≡ some code)
