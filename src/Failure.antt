-- ===== src/Failure.antt =====
-- Go's `error` values as far as the program inspects them: the sentinels that it compares with by
-- `errors.Is`, the view that `errors.As` gives of a `net.Error`, the wrapping by `fmt.Errorf` with
-- one or two `%w`, and `IsInfraError` of internal/resilience/circuit_breaker.go. The message texts
-- are left out: no branch of the program reads them.
pub mod Laws
use central_auth.Common.{
  ℕ, ◌≡◌, refl, ◌⊎◌, inl, inr, Bool, true, false, ◌||◌, Option, none, some, ◌==◌, if◌then◌else◌,
}

-- The first eight are values of the standard library and of go-redis; the rest are the program's.
pub data Sentinel : Type 0 where
  redis_nil canceled deadline_exceeded econnrefused econnreset epipe eof unexpected_eof : Sentinel
  redis_unavailable session_not_found device_token_not_found : Sentinel
  invalid_token email_conflict invalid_credentials token_revoked : Sentinel
  session_blacklisted session_gone : Sentinel
  kratos_email_conflict kratos_invalid_credentials : Sentinel

-- Distinct sentinels have distinct numbers.
abbrev pub tag : Sentinel → ℕ
tag redis_nil = 0
tag canceled = 1
tag deadline_exceeded = 2
tag econnrefused = 3
tag econnreset = 4
tag epipe = 5
tag eof = 6
tag unexpected_eof = 7
tag redis_unavailable = 8
tag session_not_found = 9
tag device_token_not_found = 10
tag invalid_token = 11
tag email_conflict = 12
tag invalid_credentials = 13
tag token_revoked = 14
tag session_blacklisted = 15
tag session_gone = 16
tag kratos_email_conflict = 17
tag kratos_invalid_credentials = 18

-- `plain` is an error that nothing compares with; `net` is a network error by what its `Timeout`
-- and `Temporary` answer; `wrap` and `wrap₂` are `fmt.Errorf` with one and with two `%w`.
pub data Failure : Type 0 where
  sentinel : Sentinel → Failure
  net : (timeout temporary : Bool) → Failure
  plain : Failure
  wrap : Failure → Failure
  wrap₂ : Failure → Failure → Failure

-- `errors.Is(err, s)`
unfoldable pub is : Sentinel → Failure → Bool
is s (sentinel t) = tag s == tag t
is s (net timeout temporary) = false
is s plain = false
is s (wrap e) = is s e
is s (wrap₂ d e) = is s d || is s e

-- The sentinels of the standard library that are network errors themselves, with their answers.
unfoldable pub net_sentinel : Sentinel → Option (Bool × Bool)
net_sentinel deadline_exceeded = some (true, true)
net_sentinel econnrefused = some (false, false)
net_sentinel econnreset = some (false, false)
net_sentinel epipe = some (false, false)
net_sentinel _ = none

-- `errors.As(err, &netErr)`: the first network error of the tree, in depth-first order.
unfoldable pub as_net : Failure → Option (Bool × Bool)
unfolding net_sentinel
as_net (sentinel s) = net_sentinel s
as_net (net timeout temporary) = some (timeout, temporary)
as_net plain = none
as_net (wrap e) = as_net e
as_net (wrap₂ d e) = let rest = as_net e in elim (as_net d) [ none ↦ rest | some n ↦ some n ]

abbrev answers_yes : Option (Bool × Bool) → Bool
answers_yes none = false
answers_yes (some (timeout, temporary)) = timeout || temporary

-- `IsInfraError` on an error that is not nil
unfoldable pub is_infra : Failure → Bool
is_infra e =
    if is redis_nil e
    then false
    else if is canceled e
    then false
    else if answers_yes (as_net e)
    then true
    else if is econnrefused e || is econnreset e || is epipe e
    then true
    else if is eof e || is unexpected_eof e
    then true
    else is deadline_exceeded e

-- `IsInfraError`
unfoldable pub is_infra_error : Option Failure → Bool
is_infra_error none = false
is_infra_error (some e) = is_infra e

-- What a Go function with results `(T, error)` returns, where its callers read no value beside an
-- error.
pub data Result {ℓ} (A : Type ℓ) : Type ℓ where
  ok : A → Result A
  err : Failure → Result A

abbrev pub is_ok {ℓ} : {A : Type ℓ} → Result A → Bool
is_ok (ok a) = true
is_ok (err e) = false

pub Result-cases {ℓ} :
    {A : Type ℓ} (r : Result A) → ((a : A) × (r ≡ ok a)) ⊎ ((e : Failure) × (r ≡ err e))
Result-cases (ok a) = inl (a, refl)
Result-cases (err e) = inr (e, refl)
