-- ===== src/Resilient/Guarded.antt =====
-- What the decorators of the session store and of the Redis repository share: a call to Redis
-- behind the circuit breaker, and the in-process cache without a time to live of its own.
use central_auth.Common.{◌≡◌, String, false, Option, none, some, if◌then◌else◌, arith}
use central_auth.Common.Eff.{Eff, Try}
use central_auth.Failure.{Failure, Result, ok, err, sentinel, redis_unavailable, is_infra}
use central_auth.Resilient.{CircuitBreaker}

-- The L1 cache, for values of one type; entries get the default expiration.
pub record Cache (V W : Type 0) : Type 0 where
  pub get : String → Eff W (Option V)
  pub set : String → V → Eff W Unit
  pub delete : String → Eff W Unit

-- What go-cache documents, as long as no entry expires: `found k w` is what `Get` would find.
pub record Finds {V W : Type 0} (l1 : Cache V W) (found : String → W → Option V) : Type 0 where
  pub get_found : (k : String) (w : W) → (l1.get k w).0 ≡ found k w
  pub get_keeps : (k j : String) (w : W) → found j (l1.get k w).1 ≡ found j w
  pub set_same : (k : String) (v : V) (w : W) → found k (l1.set k v w).1 ≡ some v
  pub set_ne : (k j : String) (v : V) (w : W) → ¬ (k ≡ j) → found j (l1.set k v w).1 ≡ found j w
  pub delete_same : (k : String) (w : W) → found k (l1.delete k w).1 ≡ none
  pub delete_ne : (k j : String) (w : W) → ¬ (k ≡ j) → found j (l1.delete k w).1 ≡ found j w

-- The circuit breaker keeps the cache as it is.
pub record Apart {V W : Type 0} (cb : CircuitBreaker W) (found : String → W → Option V)
    : Type 0 where
  pub allow_keeps : (j : String) (w : W) → found j (cb.allow w).1 ≡ found j w
  pub success_keeps : (j : String) (w : W) → found j (cb.record_success w).1 ≡ found j w
  pub failure_keeps : (j : String) (w : W) → found j (cb.record_failure w).1 ≡ found j w

module _ {W : Type 0} (cb : CircuitBreaker W) where
  -- What follows a write: `after` is what the method does to the cache once Redis has accepted.
  abbrev pub written : (W → W) → Option Failure → Eff W (Option Failure)
  written after none w = (none, after (cb.record_success w).1)
  written after (some e) w =
      if is_infra e
      then (some (sentinel redis_unavailable), (cb.record_failure w).1)
      else (some e, (cb.record_success w).1)

  -- A write behind the breaker.
  unfoldable pub guarded : (W → W) → Eff W (Option Failure) → Eff W (Option Failure)
  guarded after call w =
      let (allowed, w₁) = cb.allow w in
      if allowed
      then (let (e, w₂) = call w₁ in written after e w₂)
      else (some (sentinel redis_unavailable), w₁)

  abbrev pub listed : {A : Type 0} → (A → W → W) → Result A → Try W A
  listed after (ok a) w = (ok a, after a (cb.record_success w).1)
  listed after (err e) w =
      if is_infra e
      then (err (sentinel redis_unavailable), (cb.record_failure w).1)
      else (err e, (cb.record_success w).1)

  -- A call with a result behind the breaker.
  unfoldable pub guarded_try : {A : Type 0} → (A → W → W) → Try W A → Try W A
  guarded_try after call w =
      let (allowed, w₁) = cb.allow w in
      if allowed
      then (let (r, w₂) = call w₁ in listed after r w₂)
      else (err (sentinel redis_unavailable), w₁)

module _ {V W : Type 0} (l1 : Cache V W) (cb : CircuitBreaker W) (missing : Failure) where
  read_reply : String → Result V → Try W V
  read_reply key (ok v) w = (ok v, (l1.set key v (cb.record_success w).1).1)
  read_reply key (err e) w =
      if is_infra e
      then (err missing, (cb.record_failure w).1)
      else (err e, (cb.record_success w).1)

  read_miss : String → Try W V → Try W V
  unfolding read_reply
  read_miss key call w =
      let (allowed, w₁) = cb.allow w in
      if allowed then (let (r, w₂) = call w₁ in read_reply key r w₂) else (err missing, w₁)

  -- A read: the cache first, then Redis behind the breaker; `missing` is what stands for an outage.
  unfoldable pub cached_read : String → Try W V → Try W V
  unfolding read_miss
  cached_read key call w =
      let (found, w') = l1.get key w in
      elim found [ some v ↦ (ok v, w') | none ↦ read_miss key call w' ]

module _ {V W : Type 0} (l1 : Cache V W) (cb : CircuitBreaker W) (missing : Failure)
    (found : String → W → Option V) (finds : Finds l1 found) (apart : Apart cb found) where
  -- An entry is served as it stands, without a call.
  pub cached_read-hit :
      (key : String) (v : V) (call : Try W V) (w : W)
      → found key w ≡ some v
      → cached_read l1 cb missing key call w ≡ (ok v, (l1.get key w).1)
  unfolding cached_read
  cached_read-hit key v call w h = ground (arith, h, finds.get_found key w)

  -- Without an entry and with the circuit open, the answer is that of an outage.
  pub cached_read-refused :
      (key : String) (call : Try W V) (w : W)
      → found key w ≡ none
      → (cb.allow (l1.get key w).1).0 ≡ false
      → (cached_read l1 cb missing key call w).0 ≡ err missing
  unfolding cached_read
  cached_read-refused key call w h refused = ground (arith, h, refused, finds.get_found key w)
