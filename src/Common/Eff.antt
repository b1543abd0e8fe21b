-- ===== src/Common/Eff.antt =====
-- Code that calls out of the program. `W` is everything that the calls can change: Redis,
-- PostgreSQL, Hydra, Kratos, Kafka, the caches, the breaker and the clock.
use mathlib.Core.Option.{Option, none, some}
use central_auth.Failure.{Failure, Result, ok, err, wrap}

-- A call: its result, and the world after it.
abbrev pub Eff : Type 0 → Type 0 → Type 0
Eff W A = W → A × W

-- A call whose result may be an error. The world after an error is kept.
abbrev pub Try : Type 0 → Type 0 → Type 0
Try W A = Eff W (Result A)

abbrev pub wrapped_result : {A : Type 0} → Result A → Result A
wrapped_result (ok a) = ok a
wrapped_result (err e) = err (wrap e)

-- An `error` alone, as a result.
abbrev pub checked_result : Option Failure → Result (Unit {0})
checked_result none = ok tt
checked_result (some e) = err e

module _ {W A : Type 0} where
  abbrev pub return : A → Try W A
  return a w = (ok a, w)

  abbrev pub fail : Failure → Try W A
  fail e w = (err e, w)

  abbrev pub continue : {B : Type 0} → Result A → (A → Try W B) → Try W B
  continue (ok a) f w = f a w
  continue (err e) f w = (err e, w)

  -- `if err != nil { return fmt.Errorf("...: %w", err) }`
  abbrev pub wrapping : Try W A → Try W A
  wrapping m w = let (r, w') = m w in (wrapped_result r, w')

  -- `if err != nil { log.Printf(...) }`: the result is dropped.
  abbrev pub logged : Eff W A → Try W Unit
  logged m w = let (r, w') = m w in (ok tt, w')

  -- A call that has no error.
  abbrev pub lift : Eff W A → Try W A
  lift m w = let (a, w') = m w in (ok a, w')

module _ {W A B : Type 0} where
  infixl 10 ◌>>=◌ ◌>>◌
  abbrev pub ◌>>=◌ : Try W A → (A → Try W B) → Try W B
  ◌>>=◌ m f w = let (r, w') = m w in continue r f w'

  abbrev pub ◌>>◌ : Try W A → Try W B → Try W B
  ◌>>◌ m n w = let (r, w') = m w in continue r (λ _. n) w'

-- A call that returns an `error` alone.
abbrev pub checked : {W : Type 0} → Eff W (Option Failure) → Try W Unit
checked m w = let (e, w') = m w in (checked_result e, w')
