-- ===== src/Resilient/Blacklist.antt =====
-- internal/resilience/resilient_blacklist.go: the blacklist behind the circuit breaker, with the
-- in-process cache and PostgreSQL to fall back on. Log lines and counters are left out, and of the
-- background goroutine one tick is modelled.
pub mod Outage
pub mod Closed
pub mod Sync
pub mod Shared
use central_auth.Common.{
  ℕ, ◌+◌, String, Bool, true, false, Option, none, some, List, [], ◌∷◌, if◌then◌else◌,
}
use central_auth.Common.Int.{ℤ, pos_part, neg_part, sub_ℕ, lt_ℤ, pos}
use central_auth.Common.Eff.{Eff}
use central_auth.Failure.{
  Failure, sentinel, redis_unavailable, wrap, is_infra_error, Result, ok, err,
}
use central_auth.Breaker.{State, opened, closed, half_open}
use central_auth.Ports.{Blacklist}
use central_auth.Resilient.{
  CircuitBreaker, L1Cache, BlacklistPgRepository, BlacklistEntry, default_expiration,
}

pub record ResilientBlacklist (W : Type 0) : Type 0 where
  pub delegate : Blacklist W
  pub cb : CircuitBreaker W
  pub l1 : L1Cache W
  pub pg_repo : BlacklistPgRepository W
  pub now : W → ℕ

-- `t.Add(d)` and `t.Sub(u)`; a time may lie before the epoch.
abbrev pub add_time : ℕ → ℤ → ℤ
add_time t d = sub_ℕ (t + pos_part d) (neg_part d)

abbrev pub until : ℤ → ℕ → ℤ
until t u = sub_ℕ (pos_part t) (u + neg_part t)

module _ {W : Type 0} (r : ResilientBlacklist W) where
  after_pg_check : String → Result Bool → Eff W (Bool × Option Failure)
  after_pg_check id (err e) w = ((true, some (wrap e)), w)
  after_pg_check id (ok b) w = let (_, w') = r.l1.set id b default_expiration w in ((b, none), w')

  after_l1 : String → Option Bool → Eff W (Bool × Option Failure)
  unfolding after_pg_check
  after_l1 id (some b) w = ((b, none), w)
  after_l1 id none w =
      let (result, w') = r.pg_repo.is_blacklisted id w in after_pg_check id result w'

  -- The part of `IsBlacklisted` after the first `if`.
  check_fallback : String → Eff W (Bool × Option Failure)
  unfolding after_l1
  check_fallback id w = let (found, w') = r.l1.get id w in after_l1 id found w'

  -- `IsBlacklisted`
  unfoldable pub is_blacklisted : String → Eff W (Bool × Option Failure)
  unfolding check_fallback
  is_blacklisted id w =
      let (allowed, w1) = r.cb.allow w in
      if allowed
      then (let ((b, e), w2) = r.delegate.is_blacklisted id w1 in
          if is_infra_error e
          then (let (_, w3) = r.cb.record_failure w2 in check_fallback id w3)
          else (let (_, w3) = r.cb.record_success w2 in
              let (_, w4) = r.l1.set id b default_expiration w3 in ((b, e), w4)))
      else check_fallback id w1

  after_pg_add : String → ℤ → Option Failure → Eff W (Option Failure)
  after_pg_add id ttl (some e) w = (some (wrap e), w)
  after_pg_add id ttl none w =
      let (_, w') = r.l1.set id true ttl w in (some (sentinel redis_unavailable), w')

  -- The part of `Add` after the first `if`.
  add_fallback : String → ℤ → Eff W (Option Failure)
  unfolding after_pg_add
  add_fallback id ttl w =
      let (e, w') = r.pg_repo.add id (add_time (r.now w) ttl) w in after_pg_add id ttl e w'

  set_if_ok : String → ℤ → Option Failure → W → W
  set_if_ok id ttl none w = (r.l1.set id true ttl w).1
  set_if_ok id ttl (some e) w = w

  -- `Add`
  unfoldable pub add : String → ℤ → Eff W (Option Failure)
  unfolding add_fallback set_if_ok
  add id ttl w =
      let (allowed, w1) = r.cb.allow w in
      if allowed
      then (let (e, w2) = r.delegate.add id ttl w1 in
          if is_infra_error e
          then (let (_, w3) = r.cb.record_failure w2 in add_fallback id ttl w3)
          else (let (_, w3) = r.cb.record_success w2 in (e, set_if_ok id ttl e w3)))
      else add_fallback id ttl w1

  set_all : List String → ℤ → W → W
  set_all [] ttl w = w
  set_all (id ∷ ids) ttl w = set_all ids ttl (r.l1.set id true ttl w).1

  set_all_if_ok : List String → ℤ → Option Failure → W → W
  unfolding set_all
  set_all_if_ok ids ttl none w = set_all ids ttl w
  set_all_if_ok ids ttl (some e) w = w

  -- The loop of `AddBatch` when Redis is out.
  batch_fallback : (expires_at : ℤ) → List String → ℤ → Eff W (Option Failure)
  batch_fallback expires_at [] ttl w = (some (sentinel redis_unavailable), w)
  batch_fallback expires_at (id ∷ ids) ttl w =
      let (e, w') = r.pg_repo.add id expires_at w in
      let rest = batch_fallback expires_at ids ttl (r.l1.set id true ttl w').1 in
      elim e [ none ↦ rest | some e ↦ (some (wrap e), w') ]

  -- `AddBatch`
  unfoldable pub add_batch : List String → ℤ → Eff W (Option Failure)
  unfolding batch_fallback set_all_if_ok
  add_batch [] ttl w = (none, w)
  add_batch (id ∷ rest) ttl w =
      let ids = id ∷ rest in
      let (allowed, w1) = r.cb.allow w in
      if allowed
      then (let (e, w2) = r.delegate.add_batch ids ttl w1 in
          if is_infra_error e
          then (let (_, w3) = r.cb.record_failure w2 in
              batch_fallback (add_time (r.now w3) ttl) ids ttl w3)
          else (let (_, w3) = r.cb.record_success w2 in (e, set_all_if_ok ids ttl e w3)))
      else batch_fallback (add_time (r.now w1) ttl) ids ttl w1

  unfoldable pub load : (now : ℕ) → List BlacklistEntry → W → W
  load now [] w = w
  load now (e ∷ entries) w =
      let ttl = until e.expires_at now in
      if lt_ℤ (pos 0) ttl
      then load now entries (r.l1.set e.session_id true ttl w).1
      else load now entries w

  load_result : Result (List BlacklistEntry) → W → W
  unfolding load
  load_result (err e) w = w
  load_result (ok entries) w = load (r.now w) entries w

  -- `syncFromPG`
  unfoldable pub sync_from_pg : W → W
  unfolding load_result
  sync_from_pg w = let (entries, w') = r.pg_repo.list_active w in load_result entries w'

  sync_if_open : State → W → W
  unfolding sync_from_pg
  sync_if_open opened w = sync_from_pg w
  sync_if_open closed w = w
  sync_if_open half_open w = w

  -- One tick of the goroutine of `StartBackgroundSync`.
  unfoldable pub background_sync : W → W
  unfolding sync_if_open
  background_sync w = let (state, w') = r.cb.state w in sync_if_open state w'

  -- The decorator, as a blacklist.
  abbrev pub as_blacklist : Blacklist W
  as_blacklist = record { add = add; is_blacklisted = is_blacklisted; add_batch = add_batch }
