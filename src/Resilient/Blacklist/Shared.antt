-- ===== src/Resilient/Blacklist/Shared.antt =====
-- The decorated blacklist behind the circuit breaker itself, whose record is part of the world: what
-- an outage of Redis does to the two together, check after check.
use central_auth.Common.{
  ℕ, ◌+◌, ◌<◌, ◌^◌, ◌≡◌, refl, sym, String, true, List, [], ◌∷◌, arith, length, Bool-cases, inl,
  inr,
}
use mathlib.Core.Path.{subst}
use central_auth.Common.Eff.{Eff}
use central_auth.Failure.{is_infra_error}
use central_auth.Ports.{Blacklist}
use central_auth.Breaker.{Breaker, allow, record_success, record_failure}
use central_auth.Breaker.Backoff.{IsSane, Draws}
use central_auth.Breaker.Trip.{Fault, IsRegular, state_after}
use central_auth.Breaker.Failing.{
  recorded, failed_call, HasFailed, counting, failed_call-HasFailed, HasFailed-state_after,
}
use central_auth.Resilient.{CircuitBreaker, L1Cache, BlacklistPgRepository}
use central_auth.Resilient.Blacklist.{
  ResilientBlacklist, is_blacklisted, check_fallback, after_l1, after_pg_check,
}

-- A call that leaves the breaker alone
abbrev pub past : {W A : Type 0} → Eff W A → Eff (Breaker × W) A
past m (b, w) = let (a, w') = m w in (a, (b, w'))

module _ {W : Type 0} (now : W → ℕ) (draw : W → ℕ → ℕ) where
  -- `circuitBreaker` as the interface that the decorators take
  unfoldable pub circuit_breaker : CircuitBreaker (Breaker × W)
  circuit_breaker = record {
    allow = λ s. let (b, admitted, _) = allow (now s.1) s.0 in (admitted, (b, s.1));
    record_success = λ s. (tt, ((record_success s.0).0, s.1));
    record_failure = λ s. (tt, (recorded s.0 (record_failure (now s.1) (draw s.1) s.0), s.1));
    state = λ s. (s.0.state, s);
  }

  module _ (delegate : Blacklist W) (l1 : L1Cache W) (pg_repo : BlacklistPgRepository W) where
    -- `NewResilientBlacklist` with that breaker
    unfoldable pub blacklist : ResilientBlacklist (Breaker × W)
    blacklist = record {
      delegate = record {
        add = λ id ttl. past (delegate.add id ttl);
        is_blacklisted = λ id. past (delegate.is_blacklisted id);
        add_batch = λ ids ttl. past (delegate.add_batch ids ttl);
      };
      cb = circuit_breaker;
      l1 = record { get = λ id. past (l1.get id); set = λ id v ttl. past (l1.set id v ttl) };
      pg_repo = record {
        is_blacklisted = λ id. past (pg_repo.is_blacklisted id);
        add = λ id t. past (pg_repo.add id t);
        delete_expired = past pg_repo.delete_expired;
        list_active = past pg_repo.list_active;
      };
      now = λ s. now s.1;
    }

    -- One check after the other
    abbrev pub checks : List String → Breaker × W → Breaker × W
    checks [] s = s
    checks (id ∷ ids) s = checks ids (is_blacklisted blacklist id s).1

    check_fallback-keeps :
        (id : String) (s : Breaker × W) → (check_fallback blacklist id s).1.0 ≡ s.0
    unfolding check_fallback after_l1 after_pg_check blacklist
    check_fallback-keeps id (b, w) = ground arith

module _ {W : Type 0} (now : W → ℕ) (draw : W → ℕ → ℕ) (delegate : Blacklist W) (l1 : L1Cache W)
    (pg_repo : BlacklistPgRepository W)
    (down : (id : String) (w : W) → is_infra_error (delegate.is_blacklisted id w).0.1 ≡ true) where
  abbrev bl : ResilientBlacklist (Breaker × W)
  bl = blacklist now draw delegate l1 pg_repo

  -- The failure that a check at a world records
  abbrev fault_of : String → W → Fault
  fault_of id w =
      let w' = (delegate.is_blacklisted id w).1 in record { now = now w'; draw = draw w' }

  is_blacklisted-failed_call :
      (id : String) (s : Breaker × W)
      → (is_blacklisted bl id s).1.0 ≡ failed_call (now s.1) (fault_of id s.1) s.0
  unfolding is_blacklisted blacklist circuit_breaker failed_call
  is_blacklisted-failed_call id (b, w) =
      let (b', admitted, _) = allow (now w) b in
      let f = fault_of id w in
      elim (Bool-cases admitted) [
        | inl asked ↦
            let after = recorded b' (record_failure f.now f.draw b') in
            rw asked (
              rw (down id w) (
                check_fallback-keeps now draw delegate l1 pg_repo id
                  (after, (delegate.is_blacklisted id w).1)))
        | inr refused ↦ rw refused (check_fallback-keeps now draw delegate l1 pg_repo id (b', w))
      ]

  module _ (early : (w : W) → now w < 2 ^ 61) (draws : (w : W) → Draws (draw w)) (threshold : ℕ)
      (small : threshold < 2 ^ 31) where
    fault_of-IsRegular : (id : String) (w : W) → IsRegular (fault_of id w)
    fault_of-IsRegular id w =
        let w' = (delegate.is_blacklisted id w).1 in record { early = early w'; draws = draws w' }

    checks-HasFailed :
        (ids : List String) (n : ℕ) (s : Breaker × W)
        → HasFailed n threshold s.0
        → HasFailed (n + length ids) threshold (checks now draw delegate l1 pg_repo ids s).0
    checks-HasFailed [] n s h = subst (λ m. HasFailed m threshold s.0) (omega arith) h
    checks-HasFailed (id ∷ ids) n s h =
        let failed =
          failed_call-HasFailed n threshold (now s.1) (fault_of id s.1) s.0 small
            (fault_of-IsRegular id s.1) h in
        let next =
          subst (HasFailed (n + 1) threshold) (sym (is_blacklisted-failed_call id s)) failed in
        subst (λ m. HasFailed m threshold (checks now draw delegate l1 pg_repo (id ∷ ids) s).0)
          (omega arith) (checks-HasFailed ids (n + 1) (is_blacklisted bl id s).1 next)

  -- The decorator over the breaker itself, in an outage: Redis fails each check with an error of the
  -- infrastructure. Under a sane configuration with a positive threshold below 2 ^ 31, at times far
  -- from the overflow and with no other caller, the circuit that was last closed by a success is still
  -- closed after fewer checks than the threshold, and open after any other number of them, whatever
  -- sessions are checked, whatever the cache and PostgreSQL answer, and however many probes fall due
  -- in between; and no probe is left under way, so that the circuit can still recover.
  pub checks-state_after :
      (b : Breaker) (w : W) (ids : List String)
      → 0 < b.failure_threshold
      → b.failure_threshold < 2 ^ 31
      → IsSane b
      → ((w' : W) → now w' < 2 ^ 61)
      → ((w' : W) → Draws (draw w'))
      → (let s = checks now draw delegate l1 pg_repo ids ((record_success b).0, w) in
          (s.0.state ≡ state_after b.failure_threshold (length ids)) × (s.0.probe_in_flight ≡ 0))
  unfolding record_success
  checks-state_after b w ids positive small sane early draws =
      let s = checks now draw delegate l1 pg_repo ids ((record_success b).0, w) in
      let threshold = b.failure_threshold in
      let failed =
        checks-HasFailed early draws threshold small ids 0 ((record_success b).0, w)
          (record {
            limit = refl;
            free = refl;
            sane = record {
              pct = sane.pct;
              base = sane.base;
              max = sane.max;
              backoff = sane.backoff;
            };
            phase = counting refl refl positive;
          }) in
      HasFailed-state_after (length ids) threshold s.0
        (subst (λ n. HasFailed n threshold s.0) (omega arith) failed)
