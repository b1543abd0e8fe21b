-- ===== src/Grpc/Idempotency.antt =====
-- internal/grpc/interceptor/idempotency.go and internal/resilience/idempotency_guard.go: the cache of
-- answers by the caller's key, behind the circuit breaker. The JSON codec of the code is a
-- parameter.
pub mod Repeat
use Prim.Native.String.{◌++◌}
use central_auth.Common.{
  ℕ, ◌*◌, String, Bool, true, false, not, ◌||◌, ◌&&◌, Option, none, some, List, [], ◌∷◌, ◌==◌,
  if◌then◌else◌, str_eq,
}
use central_auth.Common.Int.{ℤ, pos}
use central_auth.Common.Eff.{Eff, Try}
use central_auth.Failure.{Failure, Result, ok, err, sentinel, is, is_infra, redis_nil}
use central_auth.Bff.{second}
use central_auth.Resilient.{CircuitBreaker}
use central_auth.Grpc.{Answer, response, failed, code_of, internal, ok_code}

-- `IdempotencyCache`, by what the commands return
pub record IdempotencyCache (W : Type 0) : Type 0 where
  pub get : String → Try W String
  pub set : String → String → ℤ → Eff W (Option Failure)

module _ {W : Type 0} (rdb : IdempotencyCache W) (cb : CircuitBreaker W) where
  recorded : Bool → W → W
  recorded is_failure w = if is_failure then (cb.record_failure w).1 else (cb.record_success w).1

  abbrev get_fails : Result String → Bool
  get_fails (ok v) = false
  get_fails (err e) = not (is redis_nil e) && is_infra e

  abbrev set_fails : Option Failure → Bool
  set_fails none = false
  set_fails (some e) = is_infra e

  -- `ResilientIdempotencyCache`
  unfoldable pub guarded_get : String → Try W String
  unfolding recorded
  guarded_get key w =
      let (allowed, w₁) = cb.allow w in
      if allowed
      then (let (r, w₂) = rdb.get key w₁ in (r, recorded (get_fails r) w₂))
      else (err (sentinel redis_nil), w₁)

  unfoldable pub guarded_set : String → String → ℤ → Eff W (Option Failure)
  unfolding recorded
  guarded_set key value ttl w =
      let (allowed, w₁) = cb.allow w in
      if allowed
      then (let (e, w₂) = rdb.set key value ttl w₁ in (e, recorded (set_fails e) w₂))
      else (none, w₁)

  abbrev pub resilient_cache : IdempotencyCache W
  resilient_cache = record { get = guarded_get; set = guarded_set }

-- `json.Marshal` and `json.Unmarshal` of a `cachedResponse`, whose body is never set
pub record CodeCodec : Type 0 where
  pub encode : ℕ → Option String
  pub decode : String → Option ℕ

-- `idempotencyTTL`
abbrev pub idempotency_ttl : ℤ
idempotency_ttl = pos (5 * 60 * second)

-- `idempotencyMethods`
abbrev pub is_idempotency_method : String → Bool
is_idempotency_method m =
    str_eq m "/auth.v1.AuthService/Signup" || str_eq m "/auth.v1.AuthService/Login"

abbrev pub ikey : (method key : String) → String
ikey method key = "idempotency:" ++ (method ++ (":" ++ key))

abbrev first : List String → String
first [] = ""
first (k ∷ ks) = k

module _ {W A : Type 0} (rdb : IdempotencyCache W) (json : CodeCodec) (method : String)
    (handler : Eff W (Answer A)) where
  -- The outcome is kept, but for internal errors; a failed write is ignored.
  remember : String → ℕ → W → W
  remember key code w = if code == internal then w else elim (json.encode code) [
    | none ↦ w
    | some bytes ↦ (rdb.set (ikey method key) bytes idempotency_ttl w).1
  ]

  first_call : String → Eff W (Answer A)
  unfolding remember
  first_call key w = let (a, w') = handler w in (a, remember key (code_of a) w')

  cached_code : String → Option ℕ → Eff W (Answer A)
  unfolding first_call
  cached_code key none w = first_call key w
  cached_code key (some code) w = if code == ok_code then first_call key w else (failed code, w)

  after_get : String → Result String → Eff W (Answer A)
  unfolding cached_code
  after_get key (err e) w = if is redis_nil e then first_call key w else handler w
  after_get key (ok raw) w = cached_code key (json.decode raw) w

  -- `Idempotency`; `keys` are the values of x-idempotency-key.
  unfoldable pub idempotency : List String → Eff W (Answer A)
  unfolding after_get
  idempotency keys w =
      if not (is_idempotency_method method) || str_eq (first keys) ""
      then handler w
      else (let (r, w') = rdb.get (ikey method (first keys)) w in after_get (first keys) r w')
